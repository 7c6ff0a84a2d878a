-- ===== src/Hyperv/Job/Completion.antt =====
-- hyperv/job.go: what `WaitForJob` says when it returns.
use mathlib.Core.Path.{subst}
use go_wsman.Common.{
  ap, ℕ, zero, suc, ◌+◌, ◌≤◌, ◌<◌, ◌≡◌, true, Option, none, some, List, Bytes, is_empty, Result, ok,
  arith, Bool-cases, inl, inr, ◌⊎◌,
}
use go_wsman.Hyperv.Server.{Request, OpError, Host, after, return}
use go_wsman.Hyperv.Job.{JobRef, concrete_job_uri, poll_loop, wait_for_job_epr, wait_for_job}
use go_wsman.Hyperv.Job.Waiting.{
  ticks, SawCompleted, Round, done, again, gave_up, was_cancelled, job_broke, poll_round-Round,
  Deadline, Finished, poll_loop-Finished,
}

-- the reference that `WaitForJob` makes of an InstanceID
abbrev pub job_ref_of : Bytes → JobRef
job_ref_of id = record { resource_uri = concrete_job_uri; instance_id = id }

module _ (host : Host) where
  -- A wait without a job does nothing; a wait for a job has ended in one of four ways.
  pub data Waited (max : ℕ) (job_ref : Bytes) (h : List Request)
      : Result OpError (Unit {0}) × List Request → Type 0 where
    no_job : is_empty job_ref ≡ true → Waited max job_ref h (ok tt, h)
    ended :
        {r : Result OpError (Unit {0}) × List Request}
        → Finished host max (job_ref_of job_ref) r
        → Waited max job_ref h r

  -- If the context ends after at most `n` ticks and the fuel is more than the ticks that are left,
  -- `WaitForJob` returns: at once for an empty reference, and else with success, of which the last
  -- request is one that the host answers with a job in state 7, with the state and the error code of
  -- a job that the host showed last in a broken state, with the count of failed polls that is one
  -- past the allowed number, or cancelled.
  pub wait_for_job-Waited :
      (fuel max n : ℕ) (job_ref : Bytes) (h : List Request)
      → Deadline host n
      → ticks h ≤ n
      → n < ticks h + fuel
      → Waited max job_ref h (wait_for_job host fuel max job_ref h)
  unfolding wait_for_job wait_for_job_epr
  wait_for_job-Waited fuel max n job_ref h dl low room = elim (Bool-cases (is_empty job_ref)) [
    | inl e ↦ rw e (no_job e)
    | inr e ↦ rw e (
        ended
          (poll_loop-Finished host fuel max n (job_ref_of job_ref) 0 h dl low room (omega arith)))
  ]

  success :
      (fuel max : ℕ) (ref : JobRef) (errors : ℕ) (h : List Request)
      {r : Result OpError (Option ℕ) × List Request} {h' : List Request}
      → ((errors' : ℕ) (h₁ : List Request)
          → poll_loop host fuel max ref errors' h₁ ≡ (ok tt, h')
          → SawCompleted host ref h')
      → Round host max ref errors h r
      → after r (elim [ none ↦ return tt | some errors' ↦ poll_loop host fuel max ref errors' ])
        ≡ (ok tt, h')
      → SawCompleted host ref h'
  success fuel max ref errors h rec (done saw) e =
      subst (SawCompleted host ref) (ap (λ p. p.1) e) saw
  success fuel max ref errors h rec (again before errors' tick same made less) e = rec errors' _ e
  success fuel max ref errors h rec (gave_up many) e = cc
  success fuel max ref errors h rec was_cancelled e = cc
  success fuel max ref errors h rec (job_broke s c saw) e = cc

  pub poll_loop-SawCompleted :
      (fuel max : ℕ) (ref : JobRef) (errors : ℕ) (h : List Request) {h' : List Request}
      → poll_loop host fuel max ref errors h ≡ (ok tt, h')
      → SawCompleted host ref h'
  unfolding poll_loop
  poll_loop-SawCompleted zero max ref errors h e = cc
  poll_loop-SawCompleted (suc fuel) max ref errors h e =
      success fuel max ref errors h
        (λ errors' h₁ e'. poll_loop-SawCompleted fuel max ref errors' h₁ e')
        (poll_round-Round host max ref errors h) e

  -- a wait that succeeded: there is no job, or the host said at the end that it is completed
  pub wait_ok :
      (fuel max : ℕ) (job_ref : Bytes) (h : List Request) {h' : List Request}
      → wait_for_job host fuel max job_ref h ≡ (ok tt, h')
      → ((is_empty job_ref ≡ true) × (h ≡ h')) ⊎ SawCompleted host (job_ref_of job_ref) h'
  unfolding wait_for_job wait_for_job_epr
  wait_ok fuel max job_ref h e = elim (Bool-cases (is_empty job_ref)) [
    | inl empty ↦ inl (empty, (let e' = rw empty at e in cc))
    | inr full ↦ inr (poll_loop-SawCompleted fuel max (job_ref_of job_ref) 0 h (rw full at e))
  ]
