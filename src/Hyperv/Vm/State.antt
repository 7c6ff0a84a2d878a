-- ===== src/Hyperv/Vm/State.antt =====
-- hyperv/vm_state.go: when a state change is accepted.
use go_wsman.Common.{
  ℕ, ◌≡◌, ap, ◌∙◌, ◌↔◌, false, List, [], ◌∷◌, Bytes, codes, is_empty, ok, Bool-cases, inl, inr,
}
use go_wsman.Common.Decimal.{format_uint}
use go_wsman.Hyperv.Server.{Request, Host, InvokeResponse, Selector, Param, bind_ok}
use go_wsman.Hyperv.Calls.{param, job_of, call}
use go_wsman.Hyperv.Calls.Accepted.{Accepted, method_request, call-Accepted}
use go_wsman.Hyperv.Vm.{request_state_change}

abbrev pub state_params : ℕ → List Param
state_params state = param "RequestedState" (format_uint state) ∷ []

abbrev pub name_selectors : Bytes → List Selector
name_selectors vm = record { name = codes "Name"; value = vm } ∷ []

-- The machine is named, the host accepts the state, and `job` is the job of its answer.
pub record StateChange (host : Host) (vm : Bytes) (state : ℕ) (h : List Request) (job : Bytes)
    (h' : List Request) : Type 0 where
  pub named : is_empty vm ≡ false
  pub answer : InvokeResponse
  pub accepted :
      Accepted host
        (method_request host "Msvm_ComputerSystem" "RequestStateChange"
          (state_params state)
          (name_selectors vm))
        h
        answer
        h'
  pub job_named : job_of answer ≡ job

change_made :
    (host : Host) (vm : Bytes) (state : ℕ) (h : List Request) {job : Bytes} {h' : List Request}
    → request_state_change host vm state h ≡ (ok job, h')
    → StateChange host vm state h job h'
unfolding request_state_change
change_made host vm state h {job} {h'} e = elim (Bool-cases (is_empty vm)) [
  | inl empty ↦ (let e' = rw empty at e in cc)
  | inr named ↦
      (let (r, h₁, called, rest) =
          bind_ok
            (call host "Msvm_ComputerSystem" "RequestStateChange" (state_params state)
              (name_selectors vm) h)
            (λ r h. (ok (job_of r), h)) (rw named at e) in
        record {
          named = named;
          answer = r;
          accepted =
              (call-Accepted host "Msvm_ComputerSystem" "RequestStateChange" (state_params state)
                  (name_selectors vm) h r h').0
                (called ∙ ap (λ h. (ok r, h)) (cc));
          job_named = cc;
        })
]

made_change :
    (host : Host) (vm : Bytes) (state : ℕ) (h : List Request) {job : Bytes} {h' : List Request}
    → StateChange host vm state h job h'
    → request_state_change host vm state h ≡ (ok job, h')
unfolding request_state_change
made_change host vm state h {job} {h'} c = rw c.named (
    rw
      ((call-Accepted host "Msvm_ComputerSystem" "RequestStateChange" (state_params state)
          (name_selectors vm) h c.answer h').1
        c.accepted)
      (ap (λ j. (ok j, h')) c.job_named))

-- `RequestStateChange` succeeds exactly if the machine is named, and the host answers the one request,
-- for the state in decimal, that the change is done, or that it has started a job and which. It
-- returns the reference of that job.
pub request_state_change-StateChange :
    (host : Host) (vm : Bytes) (state : ℕ) (h : List Request) (job : Bytes) (h' : List Request)
    → (request_state_change host vm state h ≡ (ok job, h')) ↔ StateChange host vm state h job h'
request_state_change-StateChange host vm state h job h' =
    (change_made host vm state h, made_change host vm state h)
