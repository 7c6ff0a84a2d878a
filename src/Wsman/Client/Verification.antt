-- ===== src/Wsman/Client/Verification.antt =====
-- wsman/client.go: the finished client looks at the certificates of servers unless it is told not to.
use mathlib.Core.Path.{subst}
use go_wsman.Common.{
  ℕ, ◌≡◌, refl, sym, ap, ◌∙◌, Bool, true, false, ◌||◌, Option, none, some, List, Bytes, is_empty,
  Bool-cases, inl, inr, Result, ok, err, All,
}
use go_wsman.Common.Results.{both_ok}
use go_wsman.Wsman.Recorder.{Url}
use go_wsman.Wsman.Client.{
  RoundTripper, http_transport, negotiator, recording, no_tripper, other_tripper, HttpTransport,
  RetryConfig, ClientError, Client, ClientOption, Files, new_http_transport, skip_verify,
  apply_insecure_skip_verify, apply_options, set_transport,
}
use go_wsman.Wsman.Client.Construction.{
  new, check_url, given_transport, timed, retried, unverified, next_tripper, recorded_transport,
  final_transport, attach_recorder, finish_client, new_client, without_error,
}
use go_wsman.Wsman.Client.Trust.{
  skips, Known, plain, ntlm, KnownTransport, OfPackage, any_skips, options_known, options_asked,
}

Known-verifies : (rt : RoundTripper) → Known rt → skips rt ≡ false
unfolding skips
Known-verifies _ (plain config e) = e
Known-verifies _ (ntlm config e) = e

Known-skipped : (rt : RoundTripper) → Known rt → skips (skip_verify rt) ≡ true
unfolding skips skip_verify
Known-skipped _ (plain config e) = refl
Known-skipped _ (ntlm config e) = refl

given-Known :
    (t : Option HttpTransport) → KnownTransport t → Known (given_transport t).http_client.transport
unfolding new_http_transport
given-Known none k = plain _ refl
given-Known (some t) k = k

timed_same :
    (b : Bool) (d : ℕ) (t : HttpTransport)
    → (timed b d t).http_client.transport ≡ t.http_client.transport
timed_same true d t = refl
timed_same false d t = refl

retried_same :
    (r : Option RetryConfig) (t : HttpTransport)
    → (retried r t).http_client.transport ≡ t.http_client.transport
retried_same none t = refl
retried_same (some r) t = refl

skips-unverified :
    (b : Bool) (t : HttpTransport)
    → Known t.http_client.transport
    → skips (unverified b t).http_client.transport ≡ b
unfolding apply_insecure_skip_verify
skips-unverified true t k = Known-skipped t.http_client.transport k
skips-unverified false t k = Known-verifies t.http_client.transport k

final_skips :
    (c : Client)
    → KnownTransport c.transport
    → skips (final_transport c).http_client.transport ≡ c.insecure_skip_verify
unfolding final_transport
final_skips c k =
    let given = given_transport c.transport in
    skips-unverified c.insecure_skip_verify
      (retried c.retry_config (timed c.timeout_set c.timeout given))
      (subst Known
        (sym (
          retried_same c.retry_config (timed c.timeout_set c.timeout given)
          ∙ timed_same c.timeout_set c.timeout given))
        (given-Known c.transport k))

next_skips : (rt : RoundTripper) → skips (recording (next_tripper rt)) ≡ skips rt
unfolding skips
next_skips (http_transport config) = refl
next_skips (negotiator rt) = refl
next_skips (recording rt) = refl
next_skips no_tripper = refl
next_skips (other_tripper name) = refl

or_false : (b : Bool) → (b || false) ≡ b
or_false true = refl
or_false false = refl

abbrev transport_of : Result ClientError Client → Option HttpTransport
transport_of (ok c) = c.transport
transport_of (err e) = none

module _ (files : Files) where
  -- The client has a transport, which makes connections without a look at certificates or not.
  abbrev pub Skips : Client → Bool → Type 0
  Skips c b = (t : HttpTransport) × (c.transport ≡ some t) × (skips t.http_client.transport ≡ b)

  attached_skips :
      (u : Url) (c c' : Client) (t : HttpTransport)
      → attach_recorder files u (set_transport t c) ≡ ok c'
      → Skips c' (skips t.http_client.transport)
  unfolding attach_recorder
  attached_skips u c c' t e = elim (Bool-cases (is_empty c.record_dir)) [
    | inl silent ↦
        (let e' = rw silent at e in
          let same : set_transport t c ≡ c' = cc in (t, sym (ap (λ c. c.transport) same), refl))
    | inr records ↦ elim (Bool-cases (files.make_dir c.record_dir)) [
      | inr not_made ↦ (let e' = rw not_made at (rw records at e) in cc)
      | inl made ↦
          (let e' = rw made at (rw records at e) in
            (recorded_transport t, sym (ap transport_of e'), next_skips t.http_client.transport))
    ]
  ]

  settled-Skips :
      (u : Url) (c c' : Client)
      → KnownTransport c.transport
      → finish_client files u c ≡ ok c'
      → Skips c' c.insecure_skip_verify
  unfolding finish_client
  settled-Skips u c c' k e =
      let (done, fine, rest) =
        both_ok (without_error files c.opt_err)
          (λ done. attach_recorder files u (set_transport (final_transport c) c)) e in
      subst (Skips c') (final_skips c k) (attached_skips u c c' (final_transport c) rest)

  -- Without an HTTP client of the caller, the transport of a finished client skips the verification of
  -- certificates exactly if an option says so: it looks through the recorder and NTLM, and neither
  -- the order of the options nor any other option changes it.
  pub new_client-Skips :
      (endpoint : Bytes) (options : List ClientOption) (c : Client)
      → All OfPackage options
      → new_client files endpoint options ≡ ok c
      → Skips c (any_skips options)
  unfolding new_client
  new_client-Skips endpoint options c of_package e =
      let (u, good, rest) =
        both_ok (check_url (files.parse_url endpoint))
          (λ u. finish_client files u (apply_options files options new)) e in
      subst (Skips c) (options_asked files options new ∙ or_false (any_skips options)) (
        settled-Skips u (apply_options files options new) c
          (options_known files options new of_package tt) rest)
