-- ===== src/Hyperv/Calls/Accepted.antt =====
-- hyperv/: the answers that an operation of a service accepts.
use mathlib.Core.Path.{subst}
use go_wsman.Common.{
  ◌≡◌, refl, ap, ◌∙◌, ◌↔◌, ◌⊎◌, inl, inr, false, List, ◌∷◌, String, codes, str_eq, str_eq_iff,
  is_empty, ok, Bool-cases, Result-cases,
}
use go_wsman.Hyperv.Server.{
  Request, invoke, Host, Reply, response, as_response, InvokeResponse, Param, Selector,
  invoke_method,
}
use go_wsman.Hyperv.Calls.{
  class_uri, done_value, job_value, return_value_known, job_missing, check_return, job_of, call,
}

-- The method is done, or it has started a job and has named it.
abbrev pub Outcome : InvokeResponse → Type 0
Outcome r =
    (r.return_value ≡ done_value) ⊎ ((r.return_value ≡ job_value) × (is_empty (job_of r) ≡ false))

-- The host was asked once, and its answer is one that is accepted.
pub record Accepted (host : Host) (request : Request) (h : List Request) (r : InvokeResponse)
    (h' : List Request) : Type 0 where
  pub answered : host h request ≡ response r
  pub requested : request ∷ h ≡ h'
  pub outcome : Outcome r

pub as_response_ok : (r : Reply) {x : InvokeResponse} → as_response r ≡ ok x → r ≡ response x
as_response_ok (response y) e = ap response (cc)
as_response_ok _ e = cc

checked_outcome :
    (r x : InvokeResponse) (h : List Request) {h' : List Request}
    → check_return r h ≡ (ok x, h')
    → Outcome r × (r ≡ x) × (h ≡ h')
unfolding check_return return_value_known job_missing str_eq
checked_outcome r x h {h'} e = elim (Bool-cases (str_eq r.return_value done_value)) [
  | inl d ↦
      (let k : r.return_value ≡ done_value = (str_eq_iff r.return_value done_value).0 d in
        let e' = rw k at e in (inl k, (cc), (cc)))
  | inr nd ↦ elim (Bool-cases (str_eq r.return_value job_value)) [
    | inr nj ↦ (let e' = rw nj at (rw nd at e) in cc)
    | inl j ↦ elim (Bool-cases (is_empty (job_of r))) [
      | inl m ↦ (let e' = rw m at (rw j at (rw nd at e)) in cc)
      | inr m ↦
          (let e' = rw m at (rw j at (rw nd at e)) in
            (inr ((str_eq_iff r.return_value job_value).0 j, m), (cc), (cc)))
    ]
  ]
]

outcome_checked : (r : InvokeResponse) (h : List Request) → Outcome r → check_return r h ≡ (ok r, h)
unfolding check_return return_value_known job_missing str_eq
outcome_checked r h (inl d) = rw d refl
outcome_checked r h (inr (j, m)) = rw j (rw m refl)

module _ (host : Host) (class method : String) (params : List Param)
    (selectors : List Selector) where
  abbrev pub method_request : Request
  method_request = invoke (class_uri class) (codes method) params selectors

  call_only_if :
      (h : List Request) (r : InvokeResponse) {h' : List Request}
      → call host class method params selectors h ≡ (ok r, h')
      → Accepted host method_request h r h'
  unfolding call invoke_method
  call_only_if h r {h'} e = elim (Result-cases (as_response (host h method_request))) [
    | inr (x, bad) ↦ (let e' = rw bad at e in cc)
    | inl (y, good) ↦
        (let (outcome, same, made) = checked_outcome y r (method_request ∷ h) (rw good at e) in
          record {
            answered = as_response_ok _ good ∙ ap response same;
            requested = made;
            outcome = subst Outcome same outcome;
          })
  ]

  call_if :
      (h : List Request) (r : InvokeResponse) {h' : List Request}
      → Accepted host method_request h r h'
      → call host class method params selectors h ≡ (ok r, h')
  unfolding call invoke_method
  call_if h r a =
      rw a.answered
        (outcome_checked r (method_request ∷ h) a.outcome ∙ ap (λ h. (ok r, h)) a.requested)

  -- A method call succeeds exactly if the host's answer to its only request says that the method is
  -- done, or that it has started a job and which.
  pub call-Accepted :
      (h : List Request) (r : InvokeResponse) (h' : List Request)
      → (call host class method params selectors h ≡ (ok r, h'))
        ↔ Accepted host method_request h r h'
  call-Accepted h r h' = (call_only_if h r, call_if h r)
