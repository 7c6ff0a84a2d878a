-- ===== src/Wsman/Client/Trust.antt =====
-- wsman/client.go: which servers the finished client trusts.
use go_wsman.Common.{
  ◌≡◌, refl, ap, ◌∙◌, Bool, true, false, ◌||◌, Option, none, some, List, [], ◌∷◌, Bytes, All,
}
use go_wsman.Wsman.Client.{
  RoundTripper, http_transport, negotiator, recording, no_tripper, other_tripper, TlsConfig,
  HttpTransport, Client, ClientOption, Files, with_timeout, with_retry, with_http_client, with_ntlm,
  with_ntlm_auth, with_certificate, with_certificate_config, with_insecure_skip_verify,
  with_ca_cert, with_recorder, with_recorder_scrub, new_http_transport, new_cert_transport,
  new_ntlm_transport, add_ca_cert_to_transport, trusting, add_pool, apply_option, apply_options,
  use_certificate, use_pool, use_ca_file,
}

abbrev config_skips : Option TlsConfig → Bool
config_skips none = false
config_skips (some config) = config.insecure_skip_verify

-- Connections are made without a look at the certificate of the server.
unfoldable pub skips : RoundTripper → Bool
skips (http_transport config) = config_skips config
skips (negotiator rt) = skips rt
skips (recording rt) = skips rt
skips no_tripper = false
skips (other_tripper name) = false

-- the transports that the package makes: one of net/http, alone or below NTLM
pub data Known : RoundTripper → Type 0 where
  plain :
      (config : TlsConfig)
      → config.insecure_skip_verify ≡ false
      → Known (http_transport (some config))
  ntlm :
      (config : TlsConfig)
      → config.insecure_skip_verify ≡ false
      → Known (negotiator (http_transport (some config)))

abbrev pub KnownTransport : Option HttpTransport → Type 0
KnownTransport none = Unit {0}
KnownTransport (some t) = Known t.http_client.transport

-- The option does not bring an HTTP client of the caller.
abbrev pub OfPackage : ClientOption → Type 0
OfPackage (with_http_client (some http_client)) = ⊥
OfPackage _ = Unit {0}

abbrev asks_to_skip : ClientOption → Bool
asks_to_skip with_insecure_skip_verify = true
asks_to_skip _ = false

-- an option says that the verification is to be skipped
abbrev pub any_skips : List ClientOption → Bool
any_skips [] = false
any_skips (o ∷ os) = asks_to_skip o || any_skips os

or_swap : (a b c : Bool) → (a || (b || c)) ≡ ((b || a) || c)
or_swap true true c = refl
or_swap true false c = refl
or_swap false true c = refl
or_swap false false c = refl

Known-added : (root_cas : Bytes) (rt : RoundTripper) → Known rt → Known (add_pool root_cas rt)
Known-added root_cas _ (plain config e) = plain _ e
Known-added root_cas _ (ntlm config e) = ntlm config e

add_known :
    (root_cas : Bytes) (t : Option HttpTransport)
    → KnownTransport t
    → KnownTransport (some (trusting root_cas t))
unfolding new_cert_transport new_http_transport add_ca_cert_to_transport
add_known root_cas none k = plain _ refl
add_known root_cas (some t) k = Known-added root_cas t.http_client.transport k

certificate_known :
    (cert : Option Bytes) (c : Client)
    → KnownTransport c.transport
    → KnownTransport (use_certificate cert c).transport
unfolding new_cert_transport new_http_transport
certificate_known none c k = k
certificate_known (some cert) c k = plain _ refl

pool_known :
    (root_cas : Option Bytes) (c : Client)
    → KnownTransport c.transport
    → KnownTransport (use_pool root_cas c).transport
pool_known none c k = k
pool_known (some root_cas) c k = add_known root_cas c.transport k

ca_known :
    (pool_of : Bytes → Option Bytes) (pem : Option Bytes) (c : Client)
    → KnownTransport c.transport
    → KnownTransport (use_ca_file pool_of pem c).transport
ca_known pool_of none c k = k
ca_known pool_of (some pem) c k = pool_known (pool_of pem) c k

certificate_asked :
    (cert : Option Bytes) (c : Client)
    → (use_certificate cert c).insecure_skip_verify ≡ c.insecure_skip_verify
certificate_asked none c = refl
certificate_asked (some cert) c = refl

pool_asked :
    (root_cas : Option Bytes) (c : Client)
    → (use_pool root_cas c).insecure_skip_verify ≡ c.insecure_skip_verify
pool_asked none c = refl
pool_asked (some root_cas) c = refl

ca_asked :
    (pool_of : Bytes → Option Bytes) (pem : Option Bytes) (c : Client)
    → (use_ca_file pool_of pem c).insecure_skip_verify ≡ c.insecure_skip_verify
ca_asked pool_of none c = refl
ca_asked pool_of (some pem) c = pool_asked (pool_of pem) c

module _ (files : Files) where
  option_known :
      (o : ClientOption) (c : Client)
      → OfPackage o
      → KnownTransport c.transport
      → KnownTransport (apply_option files o c).transport
  unfolding apply_option new_ntlm_transport new_cert_transport new_http_transport
  option_known (with_timeout d) c p k = k
  option_known (with_retry n) c p k = k
  option_known (with_http_client none) c p k = plain _ refl
  option_known (with_http_client (some h)) c p k = absurd p
  option_known (with_ntlm u w) c p k = ntlm _ refl
  option_known (with_ntlm_auth d u w) c p k = ntlm _ refl
  option_known (with_certificate f g) c p k = certificate_known (files.load_key_pair f g) c k
  option_known (with_certificate_config cert) c p k = plain _ refl
  option_known with_insecure_skip_verify c p k = k
  option_known (with_ca_cert f) c p k = ca_known files.pool_of (files.read_file f) c k
  option_known (with_recorder d n) c p k = k
  option_known (with_recorder_scrub vs) c p k = k

  pub options_known :
      (os : List ClientOption) (c : Client)
      → All OfPackage os
      → KnownTransport c.transport
      → KnownTransport (apply_options files os c).transport
  unfolding apply_options
  options_known [] c p k = k
  options_known (o ∷ os) c (p, ps) k =
      options_known os (apply_option files o c) ps (option_known o c p k)

  option_asked :
      (o : ClientOption) (c : Client)
      → (apply_option files o c).insecure_skip_verify ≡ (asks_to_skip o || c.insecure_skip_verify)
  unfolding apply_option
  option_asked (with_certificate f g) c = certificate_asked (files.load_key_pair f g) c
  option_asked (with_ca_cert f) c = ca_asked files.pool_of (files.read_file f) c
  option_asked _ c = refl

  pub options_asked :
      (os : List ClientOption) (c : Client)
      → (apply_options files os c).insecure_skip_verify ≡ (any_skips os || c.insecure_skip_verify)
  unfolding apply_options
  options_asked [] c = refl
  options_asked (o ∷ os) c =
      options_asked os (apply_option files o c)
      ∙ ap (λ b. any_skips os || b) (option_asked o c)
      ∙ or_swap (any_skips os) (asks_to_skip o) c.insecure_skip_verify
