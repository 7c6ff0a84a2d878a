-- ===== src/Wsman/Client.antt =====
-- wsman/client.go: the options of a client, and the client that NewClient makes of them; the options
-- of wsman/record.go are among them. Certificates and pools of them are values of crypto/tls and
-- crypto/x509, of which only the identity matters: byte strings stand for them. Pointers are values,
-- so what a caller does later with its own HTTP client is not seen.
pub mod Construction
pub mod Options
pub mod Trust
pub mod Errors
pub mod Verification
pub mod Pooled
pub mod Ntlm
use go_wsman.Common.{
  ◌*◌, ℕ, Bool, true, false, Option, none, some, List, [], ◌∷◌, ◌++◌, Bytes, is_empty,
  if◌then◌else◌,
}
use go_wsman.Wsman.Recorder.{Url, Anonymizer}

-- `tls.Config`, with the fields that are set here
pub record TlsConfig : Type 0 where
  pub min_version : ℕ
  pub certificates : List Bytes
  pub root_cas : Option Bytes
  pub insecure_skip_verify : Bool

-- `http.RoundTripper`: `*http.Transport`, `*ntlmssp.Negotiator`, `*recorder`, nil, and those of others
pub data RoundTripper : Type 0 where
  http_transport : Option TlsConfig → RoundTripper
  negotiator : RoundTripper → RoundTripper
  recording : RoundTripper → RoundTripper
  no_tripper : RoundTripper
  other_tripper : Bytes → RoundTripper

-- `http.Client`; a duration is in nanoseconds
pub record HttpClient : Type 0 where
  pub timeout : ℕ
  pub transport : RoundTripper

-- `HTTPTransport`
pub record HttpTransport : Type 0 where
  pub http_client : HttpClient
  pub username : Bytes
  pub password : Bytes
  pub max_retries : ℕ
  pub retry_base_delay : ℕ

-- `retryConfig`
pub record RetryConfig : Type 0 where
  pub max_retries : ℕ
  pub retry_base_delay : ℕ

pub data ClientError : Type 0 where
  invalid_url : ClientError
  invalid_scheme : ClientError
  missing_host : ClientError
  no_certificate : ClientError
  no_ca_file : ClientError
  no_ca_certificate : ClientError
  no_transport : ClientError
  no_directory : ClientError

-- `Client`; the endpoint is the argument of NewClient
pub record Client : Type 0 where
  pub transport : Option HttpTransport
  pub timeout : ℕ
  pub timeout_set : Bool
  pub retry_config : Option RetryConfig
  pub insecure_skip_verify : Bool
  pub record_dir : Bytes
  pub record_name : Bytes
  pub record_scrub : List Bytes
  pub recorder : Option Anonymizer
  pub opt_err : Option ClientError

-- `ClientOption`: the functions that make one
pub data ClientOption : Type 0 where
  with_timeout : ℕ → ClientOption
  with_retry : ℕ → ClientOption
  with_http_client : Option HttpClient → ClientOption
  with_ntlm : Bytes → Bytes → ClientOption
  with_ntlm_auth : Bytes → Bytes → Bytes → ClientOption
  with_certificate : Bytes → Bytes → ClientOption
  with_certificate_config : Bytes → ClientOption
  with_insecure_skip_verify : ClientOption
  with_ca_cert : Bytes → ClientOption
  with_recorder : Bytes → Bytes → ClientOption
  with_recorder_scrub : List Bytes → ClientOption

abbrev second : ℕ
second = 1000000000

-- `tls.VersionTLS12`
abbrev version_tls12 : ℕ
version_tls12 = 0x303

-- `&tls.Config{}`
abbrev pub empty_config : TlsConfig
empty_config = record {
  min_version = 0;
  certificates = [];
  root_cas = none;
  insecure_skip_verify = false;
}

abbrev pub tls12_config : TlsConfig
tls12_config = record empty_config { min_version = version_tls12 }

-- `http.Client` with 60 seconds and the transport
abbrev pub minute_client : RoundTripper → HttpClient
minute_client rt = record { timeout = 60 * second; transport = rt }

-- the client that `NewHTTPTransport` takes
abbrev pub given_client : Option HttpClient → HttpClient
given_client none = minute_client (http_transport (some tls12_config))
given_client (some http_client) = http_client

-- `NewHTTPTransport`
unfoldable pub new_http_transport : Option HttpClient → HttpTransport
new_http_transport http_client = record {
  http_client = given_client http_client;
  username = [];
  password = [];
  max_retries = 0;
  retry_base_delay = 0;
}

abbrev given_certificate : Option Bytes → List Bytes
given_certificate none = []
given_certificate (some cert) = cert ∷ []

-- `newCertTransport`
unfoldable pub new_cert_transport : Option Bytes → Option Bytes → HttpTransport
unfolding new_http_transport
new_cert_transport cert root_cas = new_http_transport (
    some (
      minute_client (
        http_transport (
          some
            (record empty_config { certificates = given_certificate cert; root_cas = root_cas })))))

-- `newNTLMTransport`, with `SetCredentials`
unfoldable pub new_ntlm_transport : Bytes → Bytes → HttpTransport
unfolding new_http_transport
new_ntlm_transport username password =
    record (new_http_transport
      (some (minute_client (negotiator (http_transport (some tls12_config)))))) {
        username = username;
        password = password;
      }

abbrev pub config_of : Option TlsConfig → TlsConfig → TlsConfig
config_of none new = new
config_of (some config) new = config

abbrev pub with_tripper : HttpTransport → RoundTripper → HttpTransport
with_tripper t rt = record t { http_client = record t.http_client { transport = rt } }

abbrev pub add_pool : Bytes → RoundTripper → RoundTripper
add_pool root_cas (http_transport config) =
    http_transport (some (record (config_of config empty_config) { root_cas = some root_cas }))
add_pool root_cas rt = rt

-- `addCACertToTransport`
unfoldable pub add_ca_cert_to_transport : Bytes → HttpTransport → HttpTransport
add_ca_cert_to_transport root_cas t = with_tripper t (add_pool root_cas t.http_client.transport)

abbrev pub skipped : Option TlsConfig → RoundTripper
skipped config =
    http_transport (some (record (config_of config tls12_config) { insecure_skip_verify = true }))

-- the type switch of `applyInsecureSkipVerify`
unfoldable pub skip_verify : RoundTripper → RoundTripper
skip_verify (http_transport config) = skipped config
skip_verify (negotiator (http_transport config)) = negotiator (skipped config)
skip_verify rt = rt

-- `applyInsecureSkipVerify`
unfoldable pub apply_insecure_skip_verify : HttpTransport → HttpTransport
unfolding skip_verify
apply_insecure_skip_verify t = with_tripper t (skip_verify t.http_client.transport)

-- the files and the libraries that the options ask
pub record Files : Type 0 where
  -- `tls.LoadX509KeyPair`
  pub load_key_pair : Bytes → Bytes → Option Bytes
  -- `os.ReadFile`
  pub read_file : Bytes → Option Bytes
  -- `AppendCertsFromPEM` to an empty pool
  pub pool_of : Bytes → Option Bytes
  -- `url.Parse`
  pub parse_url : Bytes → Option Url
  -- `os.MkdirAll`
  pub make_dir : Bytes → Bool

abbrev pub set_error : ClientError → Client → Client
set_error e c = record c { opt_err = some e }

abbrev pub set_transport : HttpTransport → Client → Client
set_transport t c = record c { transport = some t }

-- behind the loading of a key pair
abbrev pub use_certificate : Option Bytes → Client → Client
use_certificate none c = set_error no_certificate c
use_certificate (some cert) c = set_transport (new_cert_transport (some cert) none) c

-- the transport that trusts the pool
abbrev pub trusting : Bytes → Option HttpTransport → HttpTransport
trusting root_cas none = new_cert_transport none (some root_cas)
trusting root_cas (some t) = add_ca_cert_to_transport root_cas t

-- behind the reading of the file of a CA
abbrev pub use_pool : Option Bytes → Client → Client
use_pool none c = set_error no_ca_certificate c
use_pool (some root_cas) c = set_transport (trusting root_cas c.transport) c

abbrev pub use_ca_file : (Bytes → Option Bytes) → Option Bytes → Client → Client
use_ca_file pool_of none c = set_error no_ca_file c
use_ca_file pool_of (some pem) c = use_pool (pool_of pem) c

module _ (files : Files) where
  -- what the function that an option is does to the client
  unfoldable pub apply_option : ClientOption → Client → Client
  unfolding new_ntlm_transport new_cert_transport add_ca_cert_to_transport
  apply_option (with_timeout d) c = record c { timeout = d; timeout_set = true }
  apply_option (with_retry n) c = record c {
    retry_config = some (record { max_retries = n; retry_base_delay = second });
  }
  apply_option (with_http_client http_client) c = set_transport (new_http_transport http_client) c
  apply_option (with_ntlm username password) c =
      set_transport (new_ntlm_transport username password) c
  apply_option (with_ntlm_auth domain username password) c =
      set_transport
        (new_ntlm_transport (if is_empty domain then username else domain ++ b'\\' ∷ username)
          password)
        c
  apply_option (with_certificate cert_file key_file) c =
      use_certificate (files.load_key_pair cert_file key_file) c
  apply_option (with_certificate_config cert) c =
      set_transport (new_cert_transport (some cert) none) c
  apply_option with_insecure_skip_verify c = record c { insecure_skip_verify = true }
  apply_option (with_ca_cert ca_file) c = use_ca_file files.pool_of (files.read_file ca_file) c
  apply_option (with_recorder dir name) c = record c { record_dir = dir; record_name = name }
  apply_option (with_recorder_scrub values) c = record c { record_scrub = c.record_scrub ++ values }

  -- the loop over the options
  unfoldable pub apply_options : List ClientOption → Client → Client
  unfolding apply_option
  apply_options [] c = c
  apply_options (o ∷ os) c = apply_options os (apply_option o c)
