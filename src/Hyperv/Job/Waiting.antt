-- ===== src/Hyperv/Job/Waiting.antt =====
-- hyperv/job.go: the loop of `WaitForJobEPR` ends, succeeds only on a completed job, and gives up
-- only after one failure more than it allows.
use go_wsman.Common.{
  ap, ◌⊎◌, ℕ, zero, suc, ◌+◌, ◌≤◌, ◌<◌, ◌≡◌, ◌≢◌, refl, ◌∙◌, sym, Option, none, some, List, [], ◌∷◌,
  Bytes, codes, ltb, arith, Result, ok, err, Result-cases, inl, inr, Bool-cases,
}
use go_wsman.Common.Props.{Props}
use go_wsman.Hyperv.Fields.{Field, unmarshal_list}
use go_wsman.Hyperv.Types.{concrete_job, number_of}
use go_wsman.Hyperv.Server.{
  after, Selector, Request, ctx_err, select_tick, get_one, Reply, live, properties, OpError,
  job_failed, polls_failed, wait_cancelled, Host, as_properties, get_instance, bad_field,
}
use go_wsman.Hyperv.Job.{
  return, cancelled, JobRef, job_outcome, JobOutcome, completed, broken, unfinished, as_tick,
  get_job, check_context, wait_tick, after_poll, poll_round, poll_loop,
}

-- how often the loop has waited for a tick
abbrev is_tick : Request → ℕ
is_tick select_tick = 1
is_tick _ = 0

unfoldable pub ticks : List Request → ℕ
ticks [] = 0
ticks (q ∷ h) = is_tick q + ticks h

ticks_ctx : (h : List Request) → ticks (ctx_err ∷ h) ≡ ticks h
unfolding ticks
ticks_ctx h = omega arith

ticks_tick : (h : List Request) → ticks (select_tick ∷ h) ≡ suc (ticks h)
unfolding ticks
ticks_tick h = omega arith

ticks_get : (u : Bytes) (ss : List Selector) (h : List Request) → ticks (get_one u ss ∷ h) ≡ ticks h
unfolding ticks
ticks_get u ss h = omega arith

-- the request that `getJob` makes
abbrev pub job_request : JobRef → Request
job_request ref =
    get_one ref.resource_uri (record { name = codes "InstanceID"; value = ref.instance_id } ∷ [])

as_tick_ok : (r : Reply) {u : Unit {0}} → as_tick r ≡ ok u → r ≡ live
as_tick_ok live e = refl
as_tick_ok _ e = cc

as_tick_err : (r : Reply) {x : OpError} → as_tick r ≡ err x → x ≡ wait_cancelled
as_tick_err live e = cc
as_tick_err _ e = cc

live_cancelled : live ≢ cancelled
live_cancelled e = cc

as_properties_ok : (r : Reply) {p : Props} → as_properties r ≡ ok p → r ≡ properties p
as_properties_ok (properties q) e = ap properties (cc)
as_properties_ok _ e = cc

job_outcome_completed : (s : ℕ) → job_outcome s ≡ completed → s ≡ 7
unfolding job_outcome
job_outcome_completed s e = ground arith

JobOutcome-cases : (o : JobOutcome) → (o ≡ completed) ⊎ (o ≡ broken) ⊎ (o ≡ unfinished)
JobOutcome-cases completed = inl refl
JobOutcome-cases broken = inr (inl refl)
JobOutcome-cases unfinished = inr (inr refl)

module _ (host : Host) where
  -- At its last request the host returned this job.
  pub record Saw (ref : JobRef) (h : List Request) (job : List Field) : Type 0 where
    pub before : List Request
    pub props : Props
    pub requested : h ≡ job_request ref ∷ before
    pub answered : host before (job_request ref) ≡ properties props
    pub read : unmarshal_list props concrete_job ≡ ok job

  -- At its last request the host returned a job whose state is Completed.
  pub record SawCompleted (ref : JobRef) (h : List Request) : Type 0 where
    pub job : List Field
    pub seen : Saw ref h job
    pub state : number_of "JobState" job ≡ 7

  -- At its last request the host returned a job that broke, with this state and this error code.
  pub record SawBroken (ref : JobRef) (h : List Request) (s c : ℕ) : Type 0 where
    pub job : List Field
    pub seen : Saw ref h job
    pub state : number_of "JobState" job ≡ s
    pub code : number_of "ErrorCode" job ≡ c
    pub broke : job_outcome s ≡ broken

  -- What one round can do
  pub data Round (max : ℕ) (ref : JobRef) (errors : ℕ) (h : List Request)
      : Result OpError (Option ℕ) × List Request → Type 0 where
    done : {h' : List Request} → SawCompleted ref h' → Round max ref errors h (ok none, h')
    again :
        {h' : List Request} (before : List Request) (errors' : ℕ)
        → host before select_tick ≡ live
        → ticks before ≡ ticks h
        → h' ≡ select_tick ∷ before
        → errors' ≤ max
        → Round max ref errors h (ok (some errors'), h')
    gave_up :
        {h' : List Request}
        → max < suc errors
        → Round max ref errors h (err (polls_failed (suc errors)), h')
    was_cancelled : {h' : List Request} → Round max ref errors h (err wait_cancelled, h')
    job_broke :
        {h' : List Request} (s c : ℕ)
        → SawBroken ref h' s c
        → Round max ref errors h (err (job_failed s c), h')

  after_error :
      (max : ℕ) (ref : JobRef) (errors : ℕ) (h h₁ : List Request) (e : OpError)
      → ticks h₁ ≡ ticks h
      → Round max ref errors h (after_poll host max errors (err e) h₁)
  unfolding after_poll check_context wait_tick
  after_error max ref errors h h₁ e t = elim (Result-cases (as_tick (host h₁ ctx_err))) [
    | inr (x, dead) ↦ rw dead (rw (as_tick_err _ dead) was_cancelled)
    | inl (_, alive) ↦ rw alive (elim (Bool-cases (ltb max (suc errors))) [
      | inl many ↦ rw many (gave_up (ground arith))
      | inr few ↦ rw few (elim (Result-cases (as_tick (host (ctx_err ∷ h₁) select_tick))) [
        | inr (x, dead) ↦ rw dead (rw (as_tick_err _ dead) was_cancelled)
        | inl (_, ticked) ↦ rw ticked (
            again (ctx_err ∷ h₁) (suc errors) (as_tick_ok _ ticked) (ticks_ctx h₁ ∙ t) refl
              (ground arith))
      ])
    ])
  ]

  after_job :
      (max : ℕ) (ref : JobRef) (errors : ℕ) (h h₁ : List Request) (job : List Field)
      → ticks h₁ ≡ ticks h
      → Saw ref h₁ job
      → Round max ref errors h (after_poll host max errors (ok job) h₁)
  unfolding after_poll wait_tick
  after_job max ref errors h h₁ job t saw =
      elim (JobOutcome-cases (job_outcome (number_of "JobState" job))) [
        | inl end ↦
            rw (end, after_poll)
              (done (record { job = job; seen = saw; state = job_outcome_completed _ end }))
        | inr (inl bad) ↦
            rw (bad, after_poll)
              (job_broke (number_of "JobState" job) (number_of "ErrorCode" job)
                (record { job = job; seen = saw; state = refl; code = refl; broke = bad }))
        | inr (inr going) ↦
            rw (going, after_poll)
              (elim (Result-cases (as_tick (host h₁ select_tick))) [
                | inr (x, dead) ↦ rw dead (rw (as_tick_err _ dead) was_cancelled)
                | inl (_, ticked) ↦
                    rw ticked (again h₁ 0 (as_tick_ok _ ticked) t refl (omega arith))
              ])
      ]

  pub poll_round-Round :
      (max : ℕ) (ref : JobRef) (errors : ℕ) (h : List Request)
      → Round max ref errors h (poll_round host max ref errors h)
  unfolding poll_round get_job get_instance
  poll_round-Round max ref errors h =
      elim (Result-cases (as_properties (host h (job_request ref)))) [
        | inr (e, refused) ↦ rw refused (after_error max ref errors h _ e (ticks_get _ _ h))
        | inl (props, answer) ↦ elim (Result-cases (unmarshal_list props concrete_job)) [
          | inr (e, unread) ↦
              rw answer (rw unread (after_error max ref errors h _ (bad_field e) (ticks_get _ _ h)))
          | inl (job, read) ↦ rw answer (
              rw read (
                after_job max ref errors h _ job (ticks_get _ _ h) (record {
                  before = h;
                  props = props;
                  requested = refl;
                  answered = as_properties_ok _ answer;
                  read = read;
                })))
        ]
      ]

  -- The context of the call ends after at most `n` ticks.
  abbrev pub Deadline : ℕ → Type 0
  Deadline n = (h : List Request) → n ≤ ticks h → host h select_tick ≡ cancelled

  -- What a finished wait says: a success is that of a job that the host called completed, a failure
  -- that of a job that it called broken, and the loop gives up at the first failure past the allowed
  -- number. It never runs out.
  pub data Finished (max : ℕ) (ref : JobRef)
      : Result OpError (Unit {0}) × List Request → Type 0 where
    succeeded : {h' : List Request} → SawCompleted ref h' → Finished max ref (ok tt, h')
    job_failed' :
        {h' : List Request} (s c : ℕ)
        → SawBroken ref h' s c
        → Finished max ref (err (job_failed s c), h')
    gave_up' : {h' : List Request} → Finished max ref (err (polls_failed (suc max)), h')
    cancelled' : {h' : List Request} → Finished max ref (err wait_cancelled, h')

  -- a tick that came while the deadline was not reached
  tick_in_time : (n : ℕ) (h : List Request) → Deadline n → host h select_tick ≡ live → ticks h < n
  tick_in_time n h dl alive = elim (Bool-cases (ltb (ticks h) n)) [
    | inl e ↦ ground arith
    | inr e ↦ elim (live_cancelled (sym alive ∙ dl h (ground arith))) [ ]
  ]

  continue :
      (fuel max n : ℕ) (ref : JobRef) (errors : ℕ) (h : List Request)
      {r : Result OpError (Option ℕ) × List Request}
      → Deadline n
      → errors ≤ max
      → ((errors' : ℕ) (h' : List Request)
          → errors' ≤ max
          → ticks h' ≡ suc (ticks h)
          → suc (ticks h) ≤ n
          → Finished max ref (poll_loop host fuel max ref errors' h'))
      → Round max ref errors h r
      → Finished max ref
          (after r (elim [ none ↦ return tt | some errors' ↦ poll_loop host fuel max ref errors' ]))
  continue fuel max n ref errors h dl few rec (done saw) = succeeded saw
  continue fuel max n ref errors h dl few rec (again {h'} before errors' tick same e less) =
      rec errors' h' less (ap ticks e ∙ ticks_tick before ∙ ap suc same)
        (let in_time : ticks before < n = tick_in_time n before dl tick in omega arith)
  continue fuel max n ref errors h dl few rec (gave_up many) =
      rw (let e : errors ≡ max = omega arith in e) gave_up'
  continue fuel max n ref errors h dl few rec was_cancelled = cancelled'
  continue fuel max n ref errors h dl few rec (job_broke s c saw) = job_failed' s c saw

  pub poll_loop-Finished :
      (fuel max n : ℕ) (ref : JobRef) (errors : ℕ) (h : List Request)
      → Deadline n
      → ticks h ≤ n
      → n < ticks h + fuel
      → errors ≤ max
      → Finished max ref (poll_loop host fuel max ref errors h)
  unfolding poll_loop
  poll_loop-Finished zero max n ref errors h dl low room few = absurd (omega arith)
  poll_loop-Finished (suc fuel) max n ref errors h dl low room few =
      continue fuel max n ref errors h dl few
        (λ errors' h' less next low'.
          poll_loop-Finished fuel max n ref errors' h' dl (rw next low') (rw next (omega arith))
            less)
        (poll_round-Round max ref errors h)
