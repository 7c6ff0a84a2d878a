-- ===== src/Hyperv/Storage.antt =====
-- hyperv/storage.go: controllers, drives and media. The devices of a machine are attached in two
-- calls, the drive first and the medium behind the job of the drive.
pub mod Attach
pub mod Order
pub mod Media
pub mod Phases
pub mod Controllers
use go_wsman.Common.{
  length, ℕ, zero, suc, ◌≤◌, ltb, Bool, true, false, not, ◌&&◌, ◌||◌, Option, none, some, List, [],
  ◌∷◌, Bytes, codes, String, str_eq, str_lt, is_empty, get_elem?, if◌then◌else◌, Result, ok, err,
}
use go_wsman.Common.Decimal.{format_uint}
use go_wsman.Hyperv.Fields.{Field, string, text, slice}
use go_wsman.Hyperv.Types.{
  resource_allocation_setting_data, storage_allocation_setting_data, storage_allocation_input, put,
  put_text, put_number, text_of,
}
use go_wsman.Hyperv.Epr.{wmi_object_path}
use go_wsman.Hyperv.Server.{
  OpError, empty_argument, out_of_range, unsupported, M, Host, refuse_if, return, throw, attempt,
  ◌>>=◌, ◌>>◌,
}
use go_wsman.Hyperv.Calls.{
  property_of, reference_to, embed, CallResult, list_filtered, of_vm, class_uri,
}
use go_wsman.Hyperv.Resources.{add_resource_settings, remove_resource_settings}
use go_wsman.Hyperv.Job.{wait_for_job}

-- `sort.SliceStable` by `InstanceID`
unfoldable pub insert_rasd : List Field → List (List Field) → List (List Field)
insert_rasd x [] = x ∷ []
insert_rasd x (y ∷ ys) =
    let rest = insert_rasd x ys in
    if str_lt (text_of "InstanceID" y) (text_of "InstanceID" x) then y ∷ rest else x ∷ y ∷ ys

unfoldable pub sort_rasd_by_instance_id : List (List Field) → List (List Field)
unfolding insert_rasd
sort_rasd_by_instance_id [] = []
sort_rasd_by_instance_id (x ∷ xs) = insert_rasd x (sort_rasd_by_instance_id xs)

-- `ControllerType`; any other string is unsupported
pub data ControllerType : Type 0 where
  ide : ControllerType
  scsi : ControllerType
  other_type : Bytes → ControllerType

abbrev pub max_ide_location : ℕ
max_ide_location = 1

abbrev pub max_scsi_location : ℕ
max_scsi_location = 63

-- the Go `int`s of the options, of which the negative ones are refused
pub data Index : Type 0 where
  negative : Index
  index : ℕ → Index

unfoldable pub in_range : Index → ℕ → Bool
in_range negative n = false
in_range (index i) n = ltb i n

module _ (host : Host) where
  abbrev list_rasd : String → Bytes → M (List (List Field))
  list_rasd sub_type vm_name = do
    refuse_if (is_empty vm_name) empty_argument
    list_filtered host "Msvm_ResourceAllocationSettingData"
        (λ inst. of_vm vm_name inst && str_eq (property_of "ResourceSubType" inst) (codes sub_type))
        resource_allocation_setting_data

  -- `ListIDEControllers`, `ListSCSIControllers`, `ListDiskDrives`, `ListDvdDrives`
  unfoldable pub list_ide_controllers : Bytes → M (List (List Field))
  list_ide_controllers vm_name = list_rasd "Microsoft:Hyper-V:Emulated IDE Controller" vm_name

  unfoldable pub list_scsi_controllers : Bytes → M (List (List Field))
  list_scsi_controllers vm_name = list_rasd "Microsoft:Hyper-V:Synthetic SCSI Controller" vm_name

  unfoldable pub list_disk_drives : Bytes → M (List (List Field))
  list_disk_drives vm_name = list_rasd "Microsoft:Hyper-V:Synthetic Disk Drive" vm_name

  unfoldable pub list_dvd_drives : Bytes → M (List (List Field))
  list_dvd_drives vm_name = list_rasd "Microsoft:Hyper-V:Synthetic DVD Drive" vm_name

  -- `ListAttachedStorage`
  unfoldable pub list_attached_storage : Bytes → M (List (List Field))
  list_attached_storage vm_name = do
    refuse_if (is_empty vm_name) empty_argument
    list_filtered host "Msvm_StorageAllocationSettingData" (of_vm vm_name)
        storage_allocation_setting_data

  -- `AddScsiController`
  unfoldable pub add_scsi_controller : Bytes → M CallResult
  add_scsi_controller vm_name = do
    refuse_if (is_empty vm_name) empty_argument
    xml ←
        embed
          (put_text "ResourceSubType" (codes "Microsoft:Hyper-V:Synthetic SCSI Controller")
            (put_number "ResourceType" 6 resource_allocation_setting_data))
          "Msvm_ResourceAllocationSettingData"
    add_resource_settings host vm_name (xml ∷ [])

  unfoldable pub list_controllers : ControllerType → Bytes → M (List (List Field))
  unfolding list_ide_controllers list_scsi_controllers
  list_controllers ide vm_name = list_ide_controllers vm_name
  list_controllers scsi vm_name = list_scsi_controllers vm_name
  list_controllers (other_type t) vm_name = throw unsupported
