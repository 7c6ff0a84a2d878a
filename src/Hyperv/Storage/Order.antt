-- ===== src/Hyperv/Storage/Order.antt =====
-- hyperv/storage.go: the order in which `DetachStorage` takes a drive apart.
use mathlib.Core.Path.{subst}
use go_wsman.Common.{
  ℕ, ◌≡◌, ap, ◌∙◌, ◌⊎◌, inl, inr, true, false, List, [], ◌∷◌, Bytes, is_empty, ok, Bool-cases,
}
use go_wsman.Hyperv.Server.{Request, Host, InvokeResponse, bind_ok, ◌>>=◌, ◌>>◌, return}
use go_wsman.Hyperv.Calls.{reference_to, job_of, call, call_service, service_selectors}
use go_wsman.Hyperv.Calls.Accepted.{Accepted, method_request, call-Accepted}
use go_wsman.Hyperv.Job.{wait_for_job}
use go_wsman.Hyperv.Job.Waiting.{SawCompleted}
use go_wsman.Hyperv.Job.Completion.{job_ref_of, wait_ok}
use go_wsman.Hyperv.Resources.{remove_resource_settings, resource_params}
use go_wsman.Hyperv.Storage.Attach.{remove_medium, detach_storage}

module _ (host : Host) where
  -- The host has accepted the removal of one resource, and `job` is the job of its answer.
  pub record Removed (ref : Bytes) (h : List Request) (job : Bytes) (h' : List Request)
      : Type 0 where
    pub answer : InvokeResponse
    pub accepted :
        Accepted host
          (method_request host "Msvm_VirtualSystemManagementService" "RemoveResourceSettings"
            (resource_params (ref ∷ []))
            (service_selectors "Msvm_VirtualSystemManagementService"))
          h
          answer
          h'
    pub job_named : job_of answer ≡ job

  -- There is no job, or the last thing that the host said is that the job is completed.
  abbrev pub Settled : Bytes → List Request → List Request → Type 0
  Settled job h h' = ((is_empty job ≡ true) × (h ≡ h')) ⊎ SawCompleted host (job_ref_of job) h'

  -- A resource is gone: its removal was accepted, and then its job was settled.
  pub record Gone (ref : Bytes) (h : List Request) (job : Bytes) (h' : List Request) : Type 0 where
    pub between : List Request
    pub removed : Removed ref h job between
    pub settled : Settled job between h'

  remove_ok :
      (ref : Bytes) (h : List Request) {job : Bytes} {h' : List Request}
      → remove_resource_settings host (ref ∷ []) h ≡ (ok job, h')
      → Removed ref h job h'
  unfolding remove_resource_settings call_service
  remove_ok ref h {job} {h'} e =
      let (r, h₁, called, rest) =
        bind_ok
          (call host "Msvm_VirtualSystemManagementService" "RemoveResourceSettings"
            (resource_params (ref ∷ [])) (service_selectors "Msvm_VirtualSystemManagementService")
            h)
          (λ r h. (ok (job_of r), h)) e in
      record {
        answer = r;
        accepted =
            (call-Accepted host "Msvm_VirtualSystemManagementService" "RemoveResourceSettings"
                (resource_params (ref ∷ []))
                (service_selectors "Msvm_VirtualSystemManagementService") h r h').0
              (called ∙ ap (λ h. (ok r, h)) (cc));
        job_named = cc;
      }

  module _ (fuel max : ℕ) where
    abbrev storage_ref : Bytes → Bytes
    storage_ref id = reference_to "Msvm_StorageAllocationSettingData" "InstanceID" id

    abbrev drive_ref : Bytes → Bytes
    drive_ref id = reference_to "Msvm_ResourceAllocationSettingData" "InstanceID" id

    -- No medium is named, or the medium is gone.
    abbrev pub MediumGone : Bytes → List Request → List Request → Type 0
    MediumGone storage h h' =
        ((is_empty storage ≡ true) × (h ≡ h'))
        ⊎ ((job : Bytes) × Gone (storage_ref storage) h job h')

    medium_gone :
        (storage : Bytes) (h : List Request) {h' : List Request} {u : Unit {0}}
        → remove_medium host fuel max storage h ≡ (ok u, h')
        → MediumGone storage h h'
    unfolding remove_medium
    medium_gone storage h {h'} e = elim (Bool-cases (is_empty storage)) [
      | inl empty ↦ inl (empty, (let e' = rw empty at e in cc))
      | inr full ↦
          (let (job, h₁, removed, waited) =
              bind_ok (remove_resource_settings host (storage_ref storage ∷ []) h)
                (wait_for_job host fuel max) (rw full at e) in
            inr (
              job,
              record {
                between = h₁;
                removed = remove_ok (storage_ref storage) h removed;
                settled = wait_ok host fuel max job h₁ waited;
              },
            ))
    ]

    -- The drive is named; the medium is gone before the drive is removed, and then the drive is gone.
    pub record Detached (drive storage : Bytes) (h : List Request) (job : Bytes) (h' : List Request)
        : Type 0 where
      pub given : is_empty drive ≡ false
      pub between : List Request
      pub medium : MediumGone storage h between
      pub drive_gone : Gone (drive_ref drive) between job h'

    drive_behind :
        (drive storage : Bytes) (h h₁ h₂ : List Request) (job₁ : Bytes) {job : Bytes}
        {h' : List Request}
        → is_empty drive ≡ false
        → MediumGone storage h h₁
        → remove_resource_settings host (drive_ref drive ∷ []) h₁ ≡ (ok job₁, h₂)
        → (wait_for_job host fuel max job₁ >> return job₁) h₂ ≡ (ok job, h')
        → Detached drive storage h job h'
    drive_behind drive storage h h₁ h₂ job₁ {job} {h'} given medium removed e =
        let (u, h₃, waited, end) =
          bind_ok (wait_for_job host fuel max job₁ h₂) (λ u. return job₁) e in
        record {
          given = given;
          between = h₁;
          medium = medium;
          drive_gone = record {
            between = h₂;
            removed =
                subst (λ j. Removed (drive_ref drive) h₁ j h₂) (cc)
                  (remove_ok (drive_ref drive) h₁ removed);
            settled =
                subst (λ h'. Settled job h₂ h') (cc)
                  (subst (λ j. Settled j h₂ h₃) (cc) (wait_ok host fuel max job₁ h₂ waited));
          };
        }

    behind_medium :
        (drive storage : Bytes) (h h₁ : List Request) {job : Bytes} {h' : List Request}
        → is_empty drive ≡ false
        → MediumGone storage h h₁
        → (remove_resource_settings host (drive_ref drive ∷ []) >>= λ job.
              wait_for_job host fuel max job >> return job)
            h₁
          ≡ (ok job, h')
        → Detached drive storage h job h'
    behind_medium drive storage h h₁ given medium e =
        let (job₁, h₂, removed, rest) =
          bind_ok (remove_resource_settings host (drive_ref drive ∷ []) h₁)
            (λ job. wait_for_job host fuel max job >> return job) e in
        drive_behind drive storage h h₁ h₂ job₁ given medium removed rest

    -- When `DetachStorage` succeeds, the host has accepted the removal of the medium, if one is named,
    -- and has reported its job completed, if there is one, before it was asked to remove the drive;
    -- then it has reported the job of the drive completed, if there is one.
    pub detach_storage-Detached :
        (drive storage : Bytes) (h : List Request) (job : Bytes) (h' : List Request)
        → detach_storage host fuel max drive storage h ≡ (ok job, h')
        → Detached drive storage h job h'
    unfolding detach_storage
    detach_storage-Detached drive storage h job h' e = elim (Bool-cases (is_empty drive)) [
      | inl empty ↦ (let e' = rw empty at e in cc)
      | inr given ↦
          (let (u, h₁, medium, rest) =
              bind_ok (remove_medium host fuel max storage h)
                (λ u. remove_resource_settings host (drive_ref drive ∷ []) >>= λ job.
                  wait_for_job host fuel max job >> return job)
                (rw given at e) in
            behind_medium drive storage h h₁ given (medium_gone storage h medium) rest)
    ]
