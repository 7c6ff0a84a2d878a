-- ===== src/Tests/Clients.antt =====
-- Clients that are made of options.
use go_wsman.Common.{
  ℕ, zero, suc, ◌++◌, ◌≡◌, refl, true, some, none, List, [], ◌∷◌, Bytes, codes, ok, err, Result,
  str_eq,
}
use go_wsman.Wsman.Client.{
  Client, ClientOption, ClientError, Files, with_timeout, with_ntlm, with_certificate, with_ca_cert,
  with_recorder, with_insecure_skip_verify, with_retry, with_ntlm_auth, no_ca_file,
}
use go_wsman.Wsman.Client.Construction.{new, new_client}
use go_wsman.Wsman.Client.Options.{timeout, new_client_late}
use go_wsman.Wsman.Client.Errors.{Outcome, new_client-Outcome}
use go_wsman.Wsman.Client.Pooled.{
  client_failed, recorder_given, new_pooled_client, Pooled, new_pooled_client-Pooled,
}
use go_wsman.Wsman.Client.Verification.{Skips, new_client-Skips}
use go_wsman.Wsman.Client.Ntlm.{new_client-with_ntlm, with_domain}

abbrev endpoint : Bytes
endpoint = codes "https://h:5986/wsman"

abbrev files : Files
files = record {
  load_key_pair = λ cert key. none;
  read_file = λ path. some (codes "pem");
  pool_of = λ pem. some pem;
  parse_url =
      λ s. some (record { scheme = codes "https"; host = codes "h:5986"; hostname = codes "h" });
  make_dir = λ path. true;
}

new_client_late_example :
    new_client files endpoint
      (with_ntlm (codes "u") (codes "p") ∷ with_retry 3 ∷ with_timeout 7 ∷ [])
    ≡ new_client files endpoint
        (with_timeout 7 ∷ with_ntlm (codes "u") (codes "p") ∷ with_retry 3 ∷ [])
new_client_late_example =
    new_client_late files endpoint (timeout 7)
      (with_ntlm (codes "u") (codes "p") ∷ with_retry 3 ∷ []) [] (tt, (tt, tt))

abbrev failing : List ClientOption
failing = with_certificate (codes "c") (codes "k") ∷ with_timeout 7 ∷ []

new_client-Outcome_example : Outcome files endpoint failing (new_client files endpoint failing)
new_client-Outcome_example = new_client-Outcome files endpoint failing

abbrev recorded : List ClientOption
recorded =
    with_insecure_skip_verify
    ∷ with_recorder (codes "d") []
    ∷ with_ntlm (codes "u") (codes "p")
    ∷ []

abbrev client_of : Result ClientError Client → Client
client_of (ok c) = c
client_of _ = new

abbrev client : Client
client = client_of (new_client files endpoint recorded)

client_run : new_client files endpoint recorded ≡ ok client
unfolding new_client str_eq
client_run = refl

new_client-Skips_example : Skips files client true
new_client-Skips_example =
    new_client-Skips files endpoint recorded client (tt, (tt, (tt, tt))) client_run

abbrev retried_ntlm : List ClientOption
retried_ntlm = with_ntlm (codes "u") (codes "p") ∷ with_retry 3 ∷ []

abbrev timed : List ClientOption
timed = with_timeout 7 ∷ []

abbrev over_domain : ClientOption
over_domain = with_ntlm_auth (codes "d") (codes "u") (codes "p")

new_client-with_ntlm_example :
    (new_client files endpoint (retried_ntlm ++ with_ca_cert (codes "ca") ∷ timed)
      ≡ new_client files endpoint (retried_ntlm ++ timed))
    × (new_client files endpoint
          ((timed ++ with_ca_cert (codes "ca") ∷ recorded) ++ over_domain ∷ timed)
        ≡ new_client files endpoint ((timed ++ recorded) ++ over_domain ∷ timed))
new_client-with_ntlm_example =
    new_client-with_ntlm files (codes "ca") (codes "pem") (codes "pem") endpoint retried_ntlm timed
      recorded timed over_domain refl refl refl (with_domain (codes "d") (codes "u") (codes "p"))

-- two connections, and a recorder that cannot be pooled
abbrev two_connections : List ClientOption
two_connections = with_ntlm (codes "u") (codes "p") ∷ with_retry 3 ∷ []

-- the CA file is gone when the second round reads it
abbrev files_of : ℕ → Files
files_of zero = files
files_of (suc i) = record files { read_file = λ path. none }

pooled_run : new_pooled_client files_of endpoint recorded 2 ≡ err recorder_given
unfolding new_pooled_client new_client str_eq
pooled_run = refl

second_round_run :
    new_pooled_client files_of endpoint (with_ca_cert (codes "ca") ∷ []) 3
    ≡ err (client_failed 1 no_ca_file)
unfolding new_pooled_client new_client str_eq
second_round_run = refl

new_pooled_client-Pooled_example :
    Pooled files_of endpoint two_connections 2
      (new_pooled_client files_of endpoint two_connections 2)
new_pooled_client-Pooled_example = new_pooled_client-Pooled files_of endpoint two_connections 2
