-- ===== src/Hyperv/Vhd.antt =====
-- hyperv/vhd.go: virtual disks. `tokens` stands for the decoder on the embedded instance that comes
-- back, and `decode` for the decoder on a reference among the outputs of a method.
pub mod ImageJobs
use go_wsman.Common.{
  ℕ, Bool, not, Option, none, some, List, [], ◌∷◌, Bytes, codes, String, str_eq, is_empty,
  if◌then◌else◌, map_err,
}
use go_wsman.Common.Decimal.{format_uint}
use go_wsman.Common.Xml.{Token, Stream}
use go_wsman.Wsman.Output.{RawReference, EndpointReference, value_at, property_epr}
use go_wsman.Hyperv.Fields.{Field}
use go_wsman.Hyperv.Types.{virtual_hard_disk_setting_data, text_of}
use go_wsman.Hyperv.Embedded.Parse.{parse_embedded_instance}
use go_wsman.Hyperv.Server.{
  Param, InvokeResponse, empty_argument, nil_argument, bad_reply, bad_embedded, no_job_reference,
  unexpected_return_value, M, Host, refuse_if, return, throw, lift, invoke_method, unmarshal, ◌>>=◌,
  ◌>>◌,
}
use go_wsman.Hyperv.Calls.{
  property_of, param, service_selectors, embed, class_uri, job_value, return_value_known,
}
use go_wsman.Hyperv.Job.{JobRef, wait_for_job_epr}

abbrev pub image_service : String
image_service = "Msvm_ImageManagementService"

abbrev pub ref_of : EndpointReference → JobRef
ref_of e = record {
  resource_uri = e.resource_uri;
  instance_id = value_at (codes "InstanceID") e.selectors;
}

module _ (host : Host) where
  abbrev pub image_method : String → List Param → M InvokeResponse
  image_method method params =
      invoke_method host (class_uri image_service) (codes method) params
        (service_selectors image_service)

  -- `GetVirtualHardDisk`
  unfoldable pub get_virtual_hard_disk : (Bytes → Stream) → Bytes → M (List Field)
  get_virtual_hard_disk tokens path = do
    r ← image_method "GetVirtualHardDiskSettingData" (param "Path" path ∷ [])
    refuse_if (is_empty (property_of "SettingData" r.props)) bad_reply
    props ← lift (
        map_err bad_embedded (parse_embedded_instance (tokens (property_of "SettingData" r.props))))
    unmarshal props virtual_hard_disk_setting_data

  module _ (decode : List Token → Option RawReference) (fuel max : ℕ) where
    abbrev wait_reference : Option EndpointReference → M (Unit {0})
    wait_reference none = throw no_job_reference
    wait_reference (some epr) = wait_for_job_epr host fuel max (some (ref_of epr))

    -- `waitImageJob`
    unfoldable pub wait_image_job : InvokeResponse → M (Unit {0})
    wait_image_job r =
        if not (str_eq r.return_value job_value)
        then return tt
        else wait_reference (property_epr decode (codes "Job") r.body)

    -- what both methods that change a disk do with the answer; the string they return is empty
    unfoldable pub finish_image : InvokeResponse → M Bytes
    unfolding wait_image_job
    finish_image r = do
      refuse_if (not (return_value_known r.return_value)) (unexpected_return_value r.return_value)
      wait_image_job r
      return []

    -- `CreateVirtualHardDisk`; `none` is a nil pointer
    unfoldable pub create_virtual_hard_disk : Option (List Field) → M Bytes
    unfolding finish_image
    create_virtual_hard_disk none = throw nil_argument
    create_virtual_hard_disk (some settings) = do
      refuse_if (is_empty (text_of "Path" settings)) empty_argument
      embedded ← embed settings "Msvm_VirtualHardDiskSettingData"
      r ← image_method "CreateVirtualHardDisk" (param "VirtualDiskSettingData" embedded ∷ [])
      finish_image r

    -- `ResizeVirtualHardDisk`
    unfoldable pub resize_virtual_hard_disk : Bytes → ℕ → M Bytes
    unfolding finish_image
    resize_virtual_hard_disk path max_internal_size = do
      refuse_if (is_empty path) empty_argument
      r ←
          image_method "ResizeVirtualHardDisk"
            (param "MaxInternalSize" (format_uint max_internal_size) ∷ param "Path" path ∷ [])
      finish_image r
