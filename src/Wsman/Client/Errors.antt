-- ===== src/Wsman/Client/Errors.antt =====
-- wsman/client.go: when `NewClient` makes no client.
use mathlib.Core.Path.{subst}
use go_wsman.Common.Results.{◌>>=◌, ◌>>◌}
use go_wsman.Common.{
  ◌⊎◌, true, ◌≡◌, refl, sym, ap, ◌∙◌, false, Option, none, some, List, [], ◌∷◌, Bytes, is_empty,
  Option-cases, Result-cases, Bool-cases, inl, inr, Result, ok, err,
}
use go_wsman.Wsman.Recorder.{new_anonymizer, Url}
use go_wsman.Wsman.Client.{
  HttpTransport, Client, ClientError, no_certificate, no_ca_file, no_ca_certificate, no_directory,
  ClientOption, Files, with_certificate, with_ca_cert, apply_option, apply_options, use_certificate,
  use_pool, use_ca_file, set_transport,
}
use go_wsman.Wsman.Client.Construction.{
  new, without_error, check_url, final_transport, attach_recorder, finish_client, new_client,
}

abbrev or_else : Option ClientError → Option ClientError → Option ClientError
or_else (some e) other = some e
or_else none other = other

abbrev certificate_error : Option Bytes → Option ClientError
certificate_error none = some no_certificate
certificate_error (some cert) = none

abbrev pool_error : Option Bytes → Option ClientError
pool_error none = some no_ca_certificate
pool_error (some root_cas) = none

abbrev ca_error : (Bytes → Option Bytes) → Option Bytes → Option ClientError
ca_error pool_of none = some no_ca_file
ca_error pool_of (some pem) = pool_error (pool_of pem)

or_else-none : (a : Option ClientError) → or_else a none ≡ a
or_else-none none = refl
or_else-none (some e) = refl

module _ (files : Files) where
  -- the error of an option whose file cannot be used
  unfoldable pub option_error : ClientOption → Option ClientError
  option_error (with_certificate cert_file key_file) =
      certificate_error (files.load_key_pair cert_file key_file)
  option_error (with_ca_cert ca_file) = ca_error files.pool_of (files.read_file ca_file)
  option_error _ = none

  -- the error of the last option that has one
  unfoldable pub last_error : List ClientOption → Option ClientError
  last_error [] = none
  last_error (o ∷ os) = or_else (last_error os) (option_error o)

  certificate_noted :
      (cert : Option Bytes) (c : Client)
      → (use_certificate cert c).opt_err ≡ or_else (certificate_error cert) c.opt_err
  certificate_noted none c = refl
  certificate_noted (some cert) c = refl

  pool_noted :
      (root_cas : Option Bytes) (c : Client)
      → (use_pool root_cas c).opt_err ≡ or_else (pool_error root_cas) c.opt_err
  pool_noted none c = refl
  pool_noted (some root_cas) c = refl

  ca_noted :
      (pem : Option Bytes) (c : Client)
      → (use_ca_file files.pool_of pem c).opt_err ≡ or_else (ca_error files.pool_of pem) c.opt_err
  ca_noted none c = refl
  ca_noted (some pem) c = pool_noted (files.pool_of pem) c

  option_noted :
      (o : ClientOption) (c : Client)
      → (apply_option files o c).opt_err ≡ or_else (option_error o) c.opt_err
  unfolding apply_option option_error
  option_noted (with_certificate cert_file key_file) c =
      certificate_noted (files.load_key_pair cert_file key_file) c
  option_noted (with_ca_cert ca_file) c = ca_noted (files.read_file ca_file) c
  option_noted _ c = refl

  or_else_assoc : (a b x : Option ClientError) → or_else a (or_else b x) ≡ or_else (or_else a b) x
  or_else_assoc none b x = refl
  or_else_assoc (some e) b x = refl

  options_noted :
      (os : List ClientOption) (c : Client)
      → (apply_options files os c).opt_err ≡ or_else (last_error os) c.opt_err
  unfolding apply_options last_error
  options_noted [] c = refl
  options_noted (o ∷ os) c =
      options_noted os (apply_option files o c)
      ∙ ap (or_else (last_error os)) (option_noted o c)
      ∙ or_else_assoc (last_error os) (option_error o) c.opt_err

  noted_new : (os : List ClientOption) → (apply_options files os new).opt_err ≡ last_error os
  noted_new os = options_noted os new ∙ or_else-none (last_error os)

  -- What `NewClient` returns: the error of an endpoint that is no URL of HTTP with a host, the error of
  -- the last option that failed, the error of a directory for records that cannot be made, or a
  -- client with a transport.
  pub data Outcome (endpoint : Bytes) (options : List ClientOption)
      : Result ClientError Client → Type 0 where
    refused_endpoint :
        (e : ClientError)
        → check_url (files.parse_url endpoint) ≡ err e
        → Outcome endpoint options (err e)
    failed_option :
        (u : Url) (e : ClientError)
        → check_url (files.parse_url endpoint) ≡ ok u
        → last_error options ≡ some e
        → Outcome endpoint options (err e)
    no_record_directory :
        (u : Url)
        → check_url (files.parse_url endpoint) ≡ ok u
        → last_error options ≡ none
        → is_empty (apply_options files options new).record_dir ≡ false
        → files.make_dir (apply_options files options new).record_dir ≡ false
        → Outcome endpoint options (err no_directory)
    built :
        (u : Url) (c : Client) (t : HttpTransport)
        → check_url (files.parse_url endpoint) ≡ ok u
        → last_error options ≡ none
        → c.transport ≡ some t
        → (is_empty (apply_options files options new).record_dir ≡ true)
          ⊎ ((is_empty (apply_options files options new).record_dir ≡ false)
              × (files.make_dir (apply_options files options new).record_dir ≡ true)
              × (c.recorder
                  ≡ some (new_anonymizer (some u) (apply_options files options new).record_scrub)))
        → Outcome endpoint options (ok c)

  attached :
      (endpoint : Bytes) (options : List ClientOption) (u : Url)
      → check_url (files.parse_url endpoint) ≡ ok u
      → last_error options ≡ none
      → Outcome endpoint options (
          attach_recorder files u (
            set_transport
              (final_transport (apply_options files options new))
              (apply_options files options new)))
  unfolding attach_recorder
  attached endpoint options u good fine =
      let c = apply_options files options new in
      elim (Bool-cases (is_empty c.record_dir)) [
        | inl silent ↦ rw silent (built u _ (final_transport c) good fine refl (inl silent))
        | inr records ↦ elim (Bool-cases (files.make_dir c.record_dir)) [
          | inl made ↦ rw records (rw made (built u _ _ good fine refl (inr (records, made, refl))))
          | inr not_made ↦
              rw records (rw not_made (no_record_directory u good fine records not_made))
        ]
      ]

  behind_url :
      (endpoint : Bytes) (options : List ClientOption) (u : Url)
      → check_url (files.parse_url endpoint) ≡ ok u
      → new_client files endpoint options ≡ finish_client files u (apply_options files options new)
  unfolding new_client
  behind_url endpoint options u good =
      ap (λ r. r >>= λ u. finish_client files u (apply_options files options new)) good

  behind_options :
      (u : Url) (c : Client) (o : Option ClientError)
      → c.opt_err ≡ o
      → finish_client files u c
        ≡ (without_error files o >> attach_recorder files u (set_transport (final_transport c) c))
  unfolding finish_client
  behind_options u c o e =
      ap
        (λ o.
          without_error files o >> attach_recorder files u (set_transport (final_transport c) c))
        e

  -- `NewClient` always ends in one of these ways, and which of them is decided by the endpoint, the
  -- errors of the options and the directory for records alone.
  pub new_client-Outcome :
      (endpoint : Bytes) (options : List ClientOption)
      → Outcome endpoint options (new_client files endpoint options)
  unfolding new_client
  new_client-Outcome endpoint options = elim (Result-cases (check_url (files.parse_url endpoint))) [
    | inr (e, bad) ↦ rw (bad, new_client) (refused_endpoint e bad)
    | inl (u, good) ↦ elim (Option-cases (last_error options)) [
      | inl fine ↦
          subst (Outcome endpoint options)
            (sym (
              behind_url endpoint options u good
              ∙ behind_options u (apply_options files options new) none (noted_new options ∙ fine)))
            (attached endpoint options u good fine)
      | inr (e, failed) ↦
          subst (Outcome endpoint options)
            (sym (
              behind_url endpoint options u good
              ∙ behind_options u (apply_options files options new) (some e)
                  (noted_new options ∙ failed)))
            (failed_option u e good failed)
    ]
  ]
