-- ===== src/Hyperv/Job.antt =====
-- hyperv/job.go: waiting for an asynchronous job. A round of the loop asks for the job, and then
-- waits for the next tick or for the end of the context; the deadline of the context bounds the
-- rounds, and the model's fuel stands for it.
pub mod Waiting
pub mod Completion
use go_wsman.Common.{
  ℕ, zero, suc, ◌+◌, Bool, true, false, ◌||◌, Option, none, some, List, [], ◌∷◌, ◌++◌, ltb, ◌==◌,
  if◌then◌else◌, Bytes, codes, is_empty, Result, ok, err, cut_last,
}
use go_wsman.Common.Decimal.{format_uint}
use go_wsman.Hyperv.Fields.{Field}
use go_wsman.Hyperv.Types.{concrete_job, text_of, number_of}
use go_wsman.Hyperv.Server.{
  Request, ctx_err, select_tick, Reply, live, cancelled, OpError, job_failed, polls_failed,
  wait_cancelled, out_of_fuel, empty_argument, M, Host, ask, attempt, return, throw, get_instance,
  unmarshal, ◌>>=◌, ◌>>◌,
}

abbrev pub ns_virt_v2 : Bytes
ns_virt_v2 = codes "http://schemas.microsoft.com/wbem/wsman/1/wmi/root/virtualization/v2"

-- `msvmConcreteJobURI`
abbrev pub concrete_job_uri : Bytes
concrete_job_uri = ns_virt_v2 ++ codes "/Msvm_ConcreteJob"

-- `wait.maxPollErrors`; a negative setting allows what 0 allows, no failure
abbrev pub default_max_poll_errors : ℕ
default_max_poll_errors = 5

-- `wsman.EndpointReference`, with the selector that the wait reads
pub record JobRef : Type 0 where
  pub resource_uri : Bytes
  pub instance_id : Bytes

pub data JobOutcome : Type 0 where
  completed : JobOutcome
  broken : JobOutcome
  unfinished : JobOutcome

-- the `switch` on `job.JobState`: 7 is Completed; 8, 9 and 10 are Terminated, Killed, Exception
unfoldable pub job_outcome : ℕ → JobOutcome
job_outcome s =
    if s == 7 then completed else if s == 8 || s == 9 || s == 10 then broken else unfinished

abbrev pub as_tick : Reply → Result OpError (Unit {0})
as_tick live = ok tt
as_tick _ = err wait_cancelled

module _ (host : Host) where
  -- `getJob`
  unfoldable pub get_job : JobRef → M (List Field)
  get_job ref = do
    props ←
        get_instance host ref.resource_uri
          (record { name = codes "InstanceID"; value = ref.instance_id } ∷ [])
    unmarshal props concrete_job

  -- `ctx.Err() != nil`, and the `select` on `ctx.Done()` and the ticker
  unfoldable pub check_context : M (Unit {0})
  check_context h = (as_tick (host h ctx_err), ctx_err ∷ h)

  unfoldable pub wait_tick : M (Unit {0})
  wait_tick h = (as_tick (host h select_tick), select_tick ∷ h)

  -- one round behind `getJob`: `none` says that the loop goes on with so many failures in a row
  unfoldable pub after_poll : ℕ → ℕ → Result OpError (List Field) → M (Option ℕ)
  after_poll max errors (err e) = do
    check_context
    if ltb max (suc errors) then throw (polls_failed (suc errors)) else return tt
    wait_tick
    return (some (suc errors))
  after_poll max errors (ok job) = elim (job_outcome (number_of "JobState" job)) [
    | completed ↦ return none
    | broken ↦ throw (job_failed (number_of "JobState" job) (number_of "ErrorCode" job))
    | unfinished ↦ (do wait_tick; return (some 0))
  ]

  unfoldable pub poll_round : ℕ → JobRef → ℕ → M (Option ℕ)
  unfolding after_poll get_job wait_tick check_context
  poll_round max ref errors = do job ← attempt (get_job ref); after_poll max errors job

  -- the loop of `WaitForJobEPR`
  unfoldable pub poll_loop : ℕ → ℕ → JobRef → ℕ → M (Unit {0})
  poll_loop zero max ref errors = throw out_of_fuel
  poll_loop (suc fuel) max ref errors =
      poll_round max ref errors
      >>= (elim [ none ↦ return tt | some errors' ↦ poll_loop fuel max ref errors' ])

  -- `WaitForJobEPR`; `none` is a nil reference
  unfoldable pub wait_for_job_epr : ℕ → ℕ → Option JobRef → M (Unit {0})
  wait_for_job_epr fuel max none = return tt
  wait_for_job_epr fuel max (some ref) =
      if is_empty ref.instance_id then throw empty_argument else poll_loop fuel max ref 0

  -- `WaitForJob`
  unfoldable pub wait_for_job : ℕ → ℕ → Bytes → M (Unit {0})
  wait_for_job fuel max job_ref =
      if is_empty job_ref
      then return tt
      else wait_for_job_epr fuel max
          (some (record { resource_uri = concrete_job_uri; instance_id = job_ref }))

-- `cimClassFromURI`
unfoldable pub cim_class_from_uri : Bytes → Bytes
cim_class_from_uri uri = elim (cut_last b'/' uri) [ some (_, class) ↦ class | none ↦ [] ]

-- `jobStateName`
unfoldable pub job_state_name : ℕ → Bytes
job_state_name s =
    if s == 2
    then codes "New"
    else if s == 3
    then codes "Starting"
    else if s == 4
    then codes "Running"
    else if s == 5
    then codes "Suspended"
    else if s == 6
    then codes "ShuttingDown"
    else if s == 7
    then codes "Completed"
    else if s == 8
    then codes "Terminated"
    else if s == 9
    then codes "Killed"
    else if s == 10
    then codes "Exception"
    else if s == 11
    then codes "Service"
    else codes "Unknown(" ++ (format_uint s ++ codes ")")

-- the second part of `jobDescription`
unfoldable pub job_type_part : Bytes → ℕ → List Bytes
job_type_part class type =
    if type == 0
    then []
    else if is_empty class
    then (codes "JobType=" ++ format_uint type) ∷ []
    else (codes "JobType=" ++ (format_uint type ++ (codes " of " ++ class))) ∷ []

-- `strings.Join(parts, ", ")`
abbrev pub join_comma : List Bytes → Bytes
join_comma [] = []
join_comma (p ∷ []) = p
join_comma (p ∷ q ∷ ps) = p ++ (codes ", " ++ join_comma (q ∷ ps))

abbrev bracketed : List Bytes → Bytes
bracketed [] = []
bracketed (p ∷ ps) = codes " [" ++ (join_comma (p ∷ ps) ++ codes "]")

-- `jobDescription`
unfoldable pub job_description : Bytes → List Field → Bytes
unfolding job_type_part cim_class_from_uri
job_description uri job =
    let element_name = text_of "ElementName" job in
    let label = if is_empty element_name then text_of "Name" job else element_name in
    bracketed (
      (if is_empty label then [] else label ∷ [])
      ++ job_type_part (cim_class_from_uri uri) (number_of "JobType" job))
