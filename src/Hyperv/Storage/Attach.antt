-- ===== src/Hyperv/Storage/Attach.antt =====
-- hyperv/storage.go: `attachStorage` and `DetachStorage`. The devices of a machine are attached in
-- two calls, the drive first and the medium behind the job of the drive.
use go_wsman.Common.{
  length, ℕ, suc, Bool, not, ◌&&◌, Option, none, some, List, [], ◌∷◌, Bytes, codes, is_empty,
  get_elem?, if◌then◌else◌, Result, ok, err,
}
use go_wsman.Common.Decimal.{format_uint}
use go_wsman.Hyperv.Fields.{Field, string, text, slice}
use go_wsman.Hyperv.Types.{
  resource_allocation_setting_data, storage_allocation_input, put, put_text, put_number, text_of,
}
use go_wsman.Hyperv.Epr.{wmi_object_path}
use go_wsman.Hyperv.Server.{
  OpError, empty_argument, out_of_range, unsupported, M, Host, refuse_if, return, throw, attempt,
  ◌>>=◌, ◌>>◌,
}
use go_wsman.Hyperv.Calls.{reference_to, embed, CallResult, class_uri}
use go_wsman.Hyperv.Resources.{add_resource_settings, remove_resource_settings}
use go_wsman.Hyperv.Job.{wait_for_job}
use go_wsman.Hyperv.Storage.{
  ControllerType, ide, scsi, other_type, max_ide_location, max_scsi_location, Index, negative,
  index, in_range, sort_rasd_by_instance_id, list_controllers,
}

-- `attachOpts`
pub record AttachOpts : Type 0 where
  pub controller_type : ControllerType
  pub controller_number : Index
  pub controller_location : Index
  pub path : Bytes
  pub drive_sub_type : Bytes
  pub storage_sub_type : Bytes
  pub drive_res_type : ℕ
  pub storage_res_type : ℕ
  pub allow_empty_media : Bool

pub record AttachResult : Type 0 where
  pub drive_ref : Bytes
  pub storage_ref : Bytes
  pub job_ref : Bytes

-- Behind the first call the result is returned beside an error.
abbrev pub Partial : Type 0
Partial = AttachResult × Option OpError

abbrev pub finish : AttachResult → Result OpError AttachResult → Partial
finish result (ok r) = (r, none)
finish result (err e) = (result, some e)

abbrev pub index_of : Index → ℕ
index_of negative = 0
index_of (index i) = i

abbrev pub max_location : ControllerType → ℕ
max_location ide = max_ide_location
max_location scsi = max_scsi_location
max_location (other_type t) = 0

abbrev pub chosen : Option (List Field) → M (List Field)
chosen none = throw out_of_range
chosen (some c) = return c

-- `drive` of `attachStorage`
unfoldable pub drive_settings : AttachOpts → Bytes → List Field
drive_settings opts controller_path =
    let d = put_number "ResourceType" opts.drive_res_type resource_allocation_setting_data in
    let d = put_text "ResourceSubType" opts.drive_sub_type d in
    let d = put_text "Parent" controller_path d in
    put_text "AddressOnParent" (format_uint (index_of opts.controller_location)) d

-- `storage` of `attachStorage`
unfoldable pub storage_settings : AttachOpts → Bytes → List Field
storage_settings opts drive_path =
    let s = put_number "ResourceType" opts.storage_res_type storage_allocation_input in
    let s = put_text "ResourceSubType" opts.storage_sub_type s in
    let s = put "HostResource" (slice string (text opts.path ∷ [])) s in
    put_text "Parent" drive_path s

abbrev pub rasd_path : Bytes → Bytes
rasd_path id =
    wmi_object_path (class_uri "Msvm_ResourceAllocationSettingData") ((codes "InstanceID", id) ∷ [])

module _ (host : Host) where
  abbrev pub supported : ControllerType → M (Unit {0})
  supported (other_type t) = throw unsupported
  supported _ = return tt

  -- the part of `attachStorage` that picks the controller
  unfoldable pub pick_controller : Bytes → AttachOpts → M (List Field)
  unfolding list_controllers sort_rasd_by_instance_id in_range
  pick_controller vm_name opts = do
    refuse_if (is_empty vm_name) empty_argument
    refuse_if (is_empty opts.path && not opts.allow_empty_media) empty_argument
    supported opts.controller_type
    refuse_if (not (in_range opts.controller_location (suc (max_location opts.controller_type))))
        out_of_range
    controllers ← list_controllers host opts.controller_type vm_name
    refuse_if (not (in_range opts.controller_number (length controllers))) out_of_range
    chosen (get_elem? (sort_rasd_by_instance_id controllers) (index_of opts.controller_number))

  -- the part that adds the drive
  unfoldable pub add_drive : Bytes → AttachOpts → M CallResult
  unfolding pick_controller drive_settings
  add_drive vm_name opts = do
    controller ← pick_controller vm_name opts
    drive_xml ←
        embed (drive_settings opts (rasd_path (text_of "InstanceID" controller)))
          "Msvm_ResourceAllocationSettingData"
    add_resource_settings host vm_name (drive_xml ∷ [])

  module _ (fuel max : ℕ) where
    -- the part behind the second `AddResourceSettings`
    unfoldable pub finish_storage : AttachResult → CallResult → M Partial
    finish_storage result added = do
      let result' : AttachResult = record result {
        storage_ref = added.resulting;
        job_ref = added.job_ref;
      }
      waited ← attempt (wait_for_job host fuel max added.job_ref)
      return (finish result' (elim waited [ ok u ↦ ok result' | err e ↦ err e ]))

    -- the part that adds the medium, whose errors come beside the result
    unfoldable pub add_storage : Bytes → AttachOpts → AttachResult → M Partial
    unfolding storage_settings finish_storage
    add_storage vm_name opts result = do
      added ← attempt (do
        xml ←
            embed (storage_settings opts (rasd_path result.drive_ref))
              "Msvm_StorageAllocationSettingData"
        add_resource_settings host vm_name (xml ∷ []))
      elim added [ err e ↦ return (result, some e) | ok r ↦ finish_storage result r ]

    -- the part behind the wait for the drive
    unfoldable pub behind_drive :
        Bytes → AttachOpts → AttachResult → Result OpError (Unit {0}) → M Partial
    unfolding add_storage
    behind_drive vm_name opts result (err e) = return (result, some e)
    behind_drive vm_name opts result (ok u) =
        if is_empty opts.path then return (result, none) else add_storage vm_name opts result

    -- `attachStorage`
    unfoldable pub attach_storage : Bytes → AttachOpts → M Partial
    unfolding add_drive behind_drive
    attach_storage vm_name opts = do
      added ← add_drive vm_name opts
      waited ← attempt (wait_for_job host fuel max added.job_ref)
      behind_drive vm_name opts
          (record { drive_ref = added.resulting; storage_ref = []; job_ref = added.job_ref }) waited

    -- the medium of `DetachStorage`, which is gone before the drive is touched; the string that
    -- comes beside an error is left out
    unfoldable pub remove_medium : Bytes → M (Unit {0})
    remove_medium storage_instance_id = if is_empty storage_instance_id then return tt else (do
      job ←
          remove_resource_settings host
            (reference_to "Msvm_StorageAllocationSettingData" "InstanceID" storage_instance_id ∷ [])
      wait_for_job host fuel max job)

    -- `DetachStorage`
    unfoldable pub detach_storage : Bytes → Bytes → M Bytes
    unfolding remove_medium
    detach_storage drive_instance_id storage_instance_id = do
      refuse_if (is_empty drive_instance_id) empty_argument
      remove_medium storage_instance_id
      job_ref ←
          remove_resource_settings host
            (reference_to "Msvm_ResourceAllocationSettingData" "InstanceID" drive_instance_id ∷ [])
      wait_for_job host fuel max job_ref
      return job_ref
