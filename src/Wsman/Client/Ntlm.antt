-- ===== src/Wsman/Client/Ntlm.antt =====
-- wsman/client.go: what WithCACert does to a client that uses NTLM.
use mathlib.Core.Path.{subst}
use go_wsman.Common.{
  ◌≡◌, refl, sym, ap, ◌∙◌, Bool, true, false, Option, none, some, List, [], ◌∷◌, ◌++◌, Bytes,
}
use go_wsman.Common.Results.{◌>>=◌}
use go_wsman.Wsman.Client.{
  RoundTripper, negotiator, HttpTransport, Client, ClientOption, Files, with_http_client, with_ntlm,
  with_ntlm_auth, with_certificate, with_certificate_config, with_ca_cert, new_http_transport,
  new_ntlm_transport, add_ca_cert_to_transport, trusting, apply_option, apply_options,
  set_transport, use_certificate, use_pool, use_ca_file,
}
use go_wsman.Wsman.Client.Construction.{new, check_url, finish_client, new_client}

-- whether the option leaves a client with NTLM, of a client that has it or not
abbrev pub leaves_ntlm : ClientOption → Bool → Bool
leaves_ntlm (with_ntlm username password) had = true
leaves_ntlm (with_ntlm_auth domain username password) had = true
leaves_ntlm (with_http_client http_client) had = false
leaves_ntlm (with_certificate cert_file key_file) had = false
leaves_ntlm (with_certificate_config cert) had = false
leaves_ntlm _ had = had

-- The last of the options that bring a transport is one for NTLM.
abbrev pub all_leave_ntlm : List ClientOption → Bool → Bool
all_leave_ntlm [] had = had
all_leave_ntlm (o ∷ os) had = all_leave_ntlm os (leaves_ntlm o had)

-- the options for NTLM
pub data NtlmOption : ClientOption → Type 0 where
  plain : (username password : Bytes) → NtlmOption (with_ntlm username password)
  with_domain :
      (name username password : Bytes) → NtlmOption (with_ntlm_auth name username password)

-- The client has a transport that goes through NTLM.
abbrev OverNtlm : Option HttpTransport → Type 0
OverNtlm given =
    (t : HttpTransport) × (given ≡ some t)
    × (rt : RoundTripper) × (t.http_client.transport ≡ negotiator rt)

abbrev Meets : Bool → Option HttpTransport → Type 0
Meets true given = OverNtlm given
Meets false given = Unit {0}

pool_same :
    (root_cas : Bytes) (given : Option HttpTransport)
    → OverNtlm given
    → some (trusting root_cas given) ≡ given
unfolding add_ca_cert_to_transport
pool_same root_cas given (t, there, rt, over) = rw there (ap some (rw over refl))

module _ (files : Files) where
  options_append :
      (before after : List ClientOption) (c : Client)
      → apply_options files (before ++ after) c
        ≡ apply_options files after (apply_options files before c)
  unfolding apply_options
  options_append [] after c = refl
  options_append (o ∷ before) after c = options_append before after (apply_option files o c)

  same_with_pool :
      (root_cas : Bytes) (c : Client) → OverNtlm c.transport → use_pool (some root_cas) c ≡ c
  same_with_pool root_cas c over =
      ap (λ t. record c { transport = t }) (pool_same root_cas c.transport over)

  pool_keeps :
      (pool : Option Bytes) (b : Bool) (c : Client)
      → Meets b c.transport
      → Meets b (use_pool pool c).transport
  pool_keeps none b c m = m
  pool_keeps (some root_cas) false c m = tt
  pool_keeps (some root_cas) true c m = rw (pool_same root_cas c.transport m) m

  ca_keeps :
      (pem : Option Bytes) (b : Bool) (c : Client)
      → Meets b c.transport
      → Meets b (use_ca_file files.pool_of pem c).transport
  ca_keeps none b c m = m
  ca_keeps (some pem) b c m = pool_keeps (files.pool_of pem) b c m

  option_step :
      (o : ClientOption) (b : Bool) (c : Client)
      → Meets b c.transport
      → Meets (leaves_ntlm o b) (apply_option files o c).transport
  unfolding apply_option new_ntlm_transport new_http_transport
  option_step (with_ntlm username password) b c m = (_, refl, _, refl)
  option_step (with_ntlm_auth domain username password) b c m = (_, refl, _, refl)
  option_step (with_http_client http_client) b c m = tt
  option_step (with_certificate cert_file key_file) b c m = tt
  option_step (with_certificate_config cert) b c m = tt
  option_step (with_ca_cert ca_file) b c m = ca_keeps (files.read_file ca_file) b c m
  option_step _ b c m = m

  options_step :
      (os : List ClientOption) (b : Bool) (c : Client)
      → Meets b c.transport
      → Meets (all_leave_ntlm os b) (apply_options files os c).transport
  unfolding apply_options
  options_step [] b c m = m
  options_step (o ∷ os) b c m =
      options_step os (leaves_ntlm o b) (apply_option files o c) (option_step o b c m)

  -- Two clients agree but for their transports.
  abbrev Agree : Client → Client → Type 0
  Agree c d = (t : HttpTransport) → set_transport t c ≡ set_transport t d

  certificate_blind :
      (cert : Option Bytes) (t : HttpTransport) (c : Client)
      → set_transport t (use_certificate cert c)
        ≡ set_transport t (use_certificate cert (set_transport t c))
  certificate_blind none t c = refl
  certificate_blind (some cert) t c = refl

  pool_blind :
      (pool : Option Bytes) (t : HttpTransport) (c : Client)
      → set_transport t (use_pool pool c) ≡ set_transport t (use_pool pool (set_transport t c))
  pool_blind none t c = refl
  pool_blind (some root_cas) t c = refl

  ca_blind :
      (pem : Option Bytes) (t : HttpTransport) (c : Client)
      → set_transport t (use_ca_file files.pool_of pem c)
        ≡ set_transport t (use_ca_file files.pool_of pem (set_transport t c))
  ca_blind none t c = refl
  ca_blind (some pem) t c = pool_blind (files.pool_of pem) t c

  -- what an option does to the rest of a client does not hang on the transport
  option_blind :
      (o : ClientOption) (t : HttpTransport) (c : Client)
      → set_transport t (apply_option files o c)
        ≡ set_transport t (apply_option files o (set_transport t c))
  unfolding apply_option
  option_blind (with_certificate cert_file key_file) t c =
      certificate_blind (files.load_key_pair cert_file key_file) t c
  option_blind (with_ca_cert ca_file) t c = ca_blind (files.read_file ca_file) t c
  option_blind _ t c = refl

  option_alike :
      (o : ClientOption) (c d : Client)
      → Agree c d
      → Agree (apply_option files o c) (apply_option files o d)
  option_alike o c d a t =
      option_blind o t c
      ∙ ap (λ c. set_transport t (apply_option files o c)) (a t)
      ∙ sym (option_blind o t d)

  options_blind :
      (os : List ClientOption) (c d : Client)
      → Agree c d
      → Agree (apply_options files os c) (apply_options files os d)
  unfolding apply_options
  options_blind [] c d a = a
  options_blind (o ∷ os) c d a =
      options_blind os (apply_option files o c) (apply_option files o d) (option_alike o c d a)

  ntlm_overrides :
      (o : ClientOption) (c d : Client)
      → NtlmOption o
      → Agree c d
      → apply_option files o c ≡ apply_option files o d
  unfolding apply_option
  ntlm_overrides _ c d (plain username password) a = a _
  ntlm_overrides _ c d (with_domain name username password) a = a _

  same_client :
      (endpoint : Bytes) (os ps : List ClientOption)
      → apply_options files os new ≡ apply_options files ps new
      → new_client files endpoint os ≡ new_client files endpoint ps
  unfolding new_client
  same_client endpoint os ps e =
      ap (λ c. check_url (files.parse_url endpoint) >>= λ u. finish_client files u c) e

  module _ (ca_file pem root_cas : Bytes) where
    ca_applied :
        (c : Client)
        → files.read_file ca_file ≡ some pem
        → files.pool_of pem ≡ some root_cas
        → apply_option files (with_ca_cert ca_file) c ≡ use_pool (some root_cas) c
    unfolding apply_option
    ca_applied c read parsed = rw read (rw parsed refl)

    ca_after :
        (before after : List ClientOption)
        → all_leave_ntlm before false ≡ true
        → files.read_file ca_file ≡ some pem
        → files.pool_of pem ≡ some root_cas
        → apply_options files (before ++ with_ca_cert ca_file ∷ after) new
          ≡ apply_options files (before ++ after) new
    unfolding apply_options
    ca_after before after last read parsed =
        options_append before (with_ca_cert ca_file ∷ after) new
        ∙ ap (apply_options files after) (
            ca_applied (apply_options files before new) read parsed
            ∙ same_with_pool root_cas (apply_options files before new) (
                subst (λ b. Meets b (apply_options files before new).transport) last
                  (options_step before false new tt)))
        ∙ sym (options_append before after new)

    pool_alike : (c : Client) → Agree (use_pool (some root_cas) c) c
    pool_alike c t = refl

    ca_before :
        (before middle after : List ClientOption) (o : ClientOption)
        → NtlmOption o
        → files.read_file ca_file ≡ some pem
        → files.pool_of pem ≡ some root_cas
        → apply_options files ((before ++ with_ca_cert ca_file ∷ middle) ++ o ∷ after) new
          ≡ apply_options files ((before ++ middle) ++ o ∷ after) new
    unfolding apply_options
    ca_before before middle after o is read parsed =
        let c = apply_options files before new in
        options_append (before ++ with_ca_cert ca_file ∷ middle) (o ∷ after) new
        ∙ ap (λ c. apply_options files after (apply_option files o c))
            (options_append before (with_ca_cert ca_file ∷ middle) new)
        ∙ ap (apply_options files after) (
            ntlm_overrides o _ _ is (
              options_blind middle (apply_option files (with_ca_cert ca_file) c) c
                (λ t. ap (set_transport t) (ca_applied c read parsed) ∙ pool_alike c t)))
        ∙ ap (λ c. apply_options files after (apply_option files o c))
            (sym (options_append before middle new))
        ∙ sym (options_append (before ++ middle) (o ∷ after) new)

    -- A CA certificate that is read from its file has no effect on a client that uses NTLM, whatever the
    -- other options are: neither where an option for NTLM is the last one before it that brings a
    -- transport, nor anywhere before an option for NTLM.
    pub new_client-with_ntlm :
        (endpoint : Bytes) (over_ntlm before middle after : List ClientOption) (o : ClientOption)
        → files.read_file ca_file ≡ some pem
        → files.pool_of pem ≡ some root_cas
        → all_leave_ntlm over_ntlm false ≡ true
        → NtlmOption o
        → (new_client files endpoint (over_ntlm ++ with_ca_cert ca_file ∷ after)
            ≡ new_client files endpoint (over_ntlm ++ after))
          × (new_client files endpoint ((before ++ with_ca_cert ca_file ∷ middle) ++ o ∷ after)
              ≡ new_client files endpoint ((before ++ middle) ++ o ∷ after))
    new_client-with_ntlm endpoint over_ntlm before middle after o read parsed last is = (
      same_client endpoint _ _ (ca_after over_ntlm after last read parsed),
      same_client endpoint _ _ (ca_before before middle after o is read parsed),
    )
