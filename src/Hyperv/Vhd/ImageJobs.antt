-- ===== src/Hyperv/Vhd/ImageJobs.antt =====
-- hyperv/vhd.go: what is behind a success of a method that changes a virtual disk.
use mathlib.Core.Path.{subst}
use go_wsman.Common.{
  true, ◌≡◌, ap, inl, inr, false, ℕ, Option, some, List, [], ◌∷◌, Bytes, codes, String, str_eq,
  str_eq_iff, is_empty, ok, Bool-cases, Option-cases, Result-cases,
}
use go_wsman.Common.Decimal.{format_uint}
use go_wsman.Common.Xml.{Token}
use go_wsman.Wsman.Output.{RawReference, EndpointReference, property_epr}
use go_wsman.Hyperv.Fields.{Field}
use go_wsman.Hyperv.Embedded.{marshal_embedded_instance}
use go_wsman.Hyperv.Types.{text_of}
use go_wsman.Hyperv.Server.{
  Request, invoke, Host, Param, InvokeResponse, response, invoke_method, as_response, bind_ok,
  ◌>>=◌, return,
}
use go_wsman.Hyperv.Calls.{
  param, done_value, job_value, class_uri, service_selectors, return_value_known,
}
use go_wsman.Hyperv.Calls.Accepted.{as_response_ok}
use go_wsman.Hyperv.Job.{wait_for_job_epr}
use go_wsman.Hyperv.Job.Waiting.{SawCompleted}
use go_wsman.Hyperv.Job.Completion.{poll_loop-SawCompleted}
use go_wsman.Hyperv.Vhd.{
  image_service, ref_of, image_method, wait_image_job, finish_image, resize_virtual_hard_disk,
  create_virtual_hard_disk,
}

module _ (decode : List Token → Option RawReference) (host : Host) where
  -- The method is done at once, or the answer refers to a job that the host has said is completed.
  pub data ImageDone (r : InvokeResponse) (h : List Request) : List Request → Type 0 where
    at_once : r.return_value ≡ done_value → ImageDone r h h
    behind_job :
        (epr : EndpointReference) {h' : List Request}
        → r.return_value ≡ job_value
        → property_epr decode (codes "Job") r.body ≡ some epr
        → is_empty (ref_of epr).instance_id ≡ false
        → SawCompleted host (ref_of epr) h'
        → ImageDone r h h'

  abbrev pub image_request : String → List Param → Request
  image_request method params =
      invoke (class_uri image_service) (codes method) params (service_selectors image_service)

  -- The host was asked for one method of the image service, and what its answer started is done.
  pub record ImageChanged (method : String) (params : List Param) (h h' : List Request)
      : Type 0 where
    pub answer : InvokeResponse
    pub answered : host h (image_request method params) ≡ response answer
    pub ended : ImageDone answer (image_request method params ∷ h) h'

  module _ (fuel max : ℕ) where
    at_once_same :
        (r : InvokeResponse) (h : List Request) {h' : List Request}
        → r.return_value ≡ done_value
        → wait_image_job host decode fuel max r h ≡ (ok tt, h')
        → h ≡ h'
    unfolding wait_image_job str_eq
    at_once_same r h k e = let e' = rw k at e in ap (λ p. p.1) e'

    job_ended :
        (r : InvokeResponse) (h : List Request) {h' : List Request}
        → r.return_value ≡ job_value
        → wait_image_job host decode fuel max r h ≡ (ok tt, h')
        → ImageDone r h h'
    unfolding wait_image_job wait_for_job_epr str_eq
    job_ended r h j e = elim (Option-cases (property_epr decode (codes "Job") r.body)) [
      | inl missing ↦ (let e' = rw missing at (rw j at e) in cc)
      | inr (epr, found) ↦ elim (Bool-cases (is_empty (ref_of epr).instance_id)) [
        | inl empty ↦ (let e' = rw empty at (rw found at (rw j at e)) in cc)
        | inr full ↦ behind_job epr j found full (
            poll_loop-SawCompleted host fuel max (ref_of epr) 0 h
              (rw full at (rw found at (rw j at e))))
      ]
    ]

    wait_ended :
        (r : InvokeResponse) (h : List Request) {h' : List Request}
        → wait_image_job host decode fuel max r h ≡ (ok tt, h')
        → return_value_known r.return_value ≡ true
        → ImageDone r h h'
    unfolding return_value_known
    wait_ended r h {h'} e known = elim (Bool-cases (str_eq r.return_value done_value)) [
      | inl d ↦
          (let k = (str_eq_iff r.return_value done_value).0 d in
            subst (ImageDone r h) (at_once_same r h k e) (at_once k))
      | inr nd ↦ elim (Bool-cases (str_eq r.return_value job_value)) [
        | inr nj ↦ (let known' = rw nj at (rw nd at known) in cc)
        | inl j ↦ job_ended r h ((str_eq_iff r.return_value job_value).0 j) e
      ]
    ]

    image_ended :
        (r : InvokeResponse) (h : List Request) {x : Bytes} {h' : List Request}
        → finish_image host decode fuel max r h ≡ (ok x, h')
        → ImageDone r h h'
    unfolding finish_image
    image_ended r h {x} {h'} e = elim (Bool-cases (return_value_known r.return_value)) [
      | inr unknown ↦ (let e' = rw unknown at e in cc)
      | inl known ↦
          (let (u, h₁, waited, rest) =
              bind_ok (wait_image_job host decode fuel max r h) (λ u. return []) (rw known at e) in
            subst (ImageDone r h) (ap (λ p. p.1) rest) (wait_ended r h waited known))
    ]

    behind_answer :
        (method : String) (params : List Param) (h : List Request) {x : Bytes} {h' : List Request}
        → (image_method host method params >>= finish_image host decode fuel max) h ≡ (ok x, h')
        → ImageChanged method params h h'
    unfolding invoke_method
    behind_answer method params h e =
        elim (Result-cases (as_response (host h (image_request method params)))) [
          | inr (x, bad) ↦ (let e' = rw bad at e in cc)
          | inl (r, good) ↦ record {
            answer = r;
            answered = as_response_ok _ good;
            ended = image_ended r (image_request method params ∷ h) (rw good at e);
          }
        ]

    -- When `ResizeVirtualHardDisk` succeeds, a path was given, the host was asked once to resize the
    -- disk at that path to the size in decimal digits, and it has said that it is done, or it has
    -- named a job whose reference is read from its answer and has then reported that job completed.
    pub resize_virtual_hard_disk-ImageChanged :
        (path : Bytes) (size : ℕ) (h : List Request) {x : Bytes} {h' : List Request}
        → resize_virtual_hard_disk host decode fuel max path size h ≡ (ok x, h')
        → (is_empty path ≡ false)
          × ImageChanged "ResizeVirtualHardDisk"
              (param "MaxInternalSize" (format_uint size) ∷ param "Path" path ∷ [])
              h
              h'
    unfolding resize_virtual_hard_disk
    resize_virtual_hard_disk-ImageChanged path size h e = elim (Bool-cases (is_empty path)) [
      | inl empty ↦ (let e' = rw empty at e in cc)
      | inr given ↦ (given, behind_answer "ResizeVirtualHardDisk" _ h (rw given at e))
    ]

    -- When `CreateVirtualHardDisk` succeeds, settings with a path were given, the host was asked once
    -- with the embedded instance of the settings, and it has said that it is done, or it has named a
    -- job whose reference is read from its answer and has then reported that job completed.
    pub create_virtual_hard_disk-ImageChanged :
        (settings : List Field) (h : List Request) {x : Bytes} {h' : List Request}
        → create_virtual_hard_disk host decode fuel max (some settings) h ≡ (ok x, h')
        → (is_empty (text_of "Path" settings) ≡ false)
          × ((xml : Bytes) × (marshal_embedded_instance settings
                  (codes "Msvm_VirtualHardDiskSettingData")
                ≡ ok xml)
              × ImageChanged "CreateVirtualHardDisk" (param "VirtualDiskSettingData" xml ∷ []) h h')
    unfolding create_virtual_hard_disk
    create_virtual_hard_disk-ImageChanged settings h e =
        elim (Bool-cases (is_empty (text_of "Path" settings))) [
          | inl empty ↦ (let e' = rw empty at e in cc)
          | inr given ↦
              elim (Result-cases
                (marshal_embedded_instance settings (codes "Msvm_VirtualHardDiskSettingData"))) [
                  | inr (x, bad) ↦ (let e' = rw bad at (rw given at e) in cc)
                  | inl (xml, good) ↦ (
                    given,
                    (
                      xml,
                      good,
                      behind_answer "CreateVirtualHardDisk" _ h (rw good at (rw given at e)),
                    ),
                  )
                ]
        ]
