-- ===== src/Hyperv/Vm.antt =====
-- hyperv/vm.go and vm_state.go: the operations on virtual machines as such.
pub mod Modify
pub mod State
use go_wsman.Common.{
  ℕ, Bool, ◌&&◌, Option, none, some, List, [], ◌∷◌, Bytes, codes, str_eq, equal_fold, is_empty,
}
use go_wsman.Common.Decimal.{format_uint}
use go_wsman.Common.Props.{Props}
use go_wsman.Hyperv.Fields.{Field}
use go_wsman.Hyperv.Types.{virtual_system_setting_data, put_text, text_of}
use go_wsman.Hyperv.Server.{
  Selector, empty_argument, nil_argument, M, Host, refuse_if, return, throw, ◌>>=◌, ◌>>◌,
}
use go_wsman.Hyperv.Calls.{
  property_of, param, reference_to, job_of, embed, CallResult, result_of, call, call_service,
  list_filtered, get_filtered, class_uri,
}

abbrev pub virtual_system_type_realized : Bytes
virtual_system_type_realized = codes "Microsoft:Hyper-V:System:Realized"

-- `matchRealizedSettingDataForVM`
unfoldable pub match_realized_setting_data_for_vm : Bytes → Bytes → Bytes → Bool
match_realized_setting_data_for_vm vm_identifier vm_type vm_name =
    equal_fold vm_identifier vm_name && str_eq vm_type virtual_system_type_realized

-- `matchRealizedSettingData`
unfoldable pub match_realized_setting_data : Bytes → Bool
match_realized_setting_data vm_type = str_eq vm_type virtual_system_type_realized

-- `clearReadOnlyForModify`, one assignment after the other
unfoldable pub clear_read_only_for_modify : List Field → List Field
clear_read_only_for_modify sd =
    let sd = put_text "VirtualSystemIdentifier" [] sd in
    let sd = put_text "VirtualSystemType" [] sd in
    let sd = put_text "VirtualSystemSubType" [] sd in
    let sd = put_text "ConfigurationID" [] sd in
    let sd = put_text "ConfigurationDataRoot" [] sd in
    let sd = put_text "ConfigurationFile" [] sd in
    let sd = put_text "SuspendDataRoot" [] sd in
    let sd = put_text "LogDataRoot" [] sd in
    let sd = put_text "CreationTime" [] sd in
    let sd = put_text "Parent" [] sd in
    let sd = put_text "Version" [] sd in
    let sd = put_text "Caption" [] sd in put_text "Description" [] sd

module _ (host : Host) where
  -- `GetSystemSettingData`
  unfoldable pub get_system_setting_data : Bytes → M (List Field)
  unfolding match_realized_setting_data_for_vm
  get_system_setting_data vm_name = do
    refuse_if (is_empty vm_name) empty_argument
    get_filtered host "Msvm_VirtualSystemSettingData"
        (λ inst.
          match_realized_setting_data_for_vm (property_of "VirtualSystemIdentifier" inst)
            (property_of "VirtualSystemType" inst) vm_name)
        virtual_system_setting_data

  -- `ListSystemSettingData`
  unfoldable pub list_system_setting_data : M (List (List Field))
  list_system_setting_data =
      list_filtered host "Msvm_VirtualSystemSettingData"
        (λ inst. match_realized_setting_data (property_of "VirtualSystemType" inst))
        virtual_system_setting_data

  -- `DefineSystem`; `none` is a nil pointer
  unfoldable pub define_system : Option (List Field) → M CallResult
  define_system none = throw nil_argument
  define_system (some settings) = do
    refuse_if (is_empty (text_of "ElementName" settings)) empty_argument
    embedded ← embed settings "Msvm_VirtualSystemSettingData"
    r ←
        call_service host "Msvm_VirtualSystemManagementService" "DefineSystem"
          (param "SystemSettings" embedded ∷ [])
    return (result_of "ResultingSystem" r)

  -- `DestroySystem`
  unfoldable pub destroy_system : Bytes → M Bytes
  destroy_system vm_name = do
    refuse_if (is_empty vm_name) empty_argument
    r ←
        call_service host "Msvm_VirtualSystemManagementService" "DestroySystem"
          (param "AffectedSystem" (reference_to "Msvm_ComputerSystem" "Name" vm_name) ∷ [])
    return (job_of r)

  -- `UpdateVm`
  unfoldable pub update_vm : Option (List Field) → M Bytes
  unfolding clear_read_only_for_modify
  update_vm none = throw nil_argument
  update_vm (some settings) = do
    refuse_if (is_empty (text_of "InstanceID" settings)) empty_argument
    embedded ← embed (clear_read_only_for_modify settings) "Msvm_VirtualSystemSettingData"
    r ←
        call_service host "Msvm_VirtualSystemManagementService" "ModifySystemSettings"
          (param "SystemSettings" embedded ∷ [])
    return (job_of r)

  -- `RequestStateChange`
  unfoldable pub request_state_change : Bytes → ℕ → M Bytes
  request_state_change vm_name state = do
    refuse_if (is_empty vm_name) empty_argument
    r ←
        call host "Msvm_ComputerSystem" "RequestStateChange"
          (param "RequestedState" (format_uint state) ∷ [])
          (record { name = codes "Name"; value = vm_name } ∷ [])
    return (job_of r)

  -- the shortcuts of vm_state.go
  abbrev pub start_vm : Bytes → M Bytes
  start_vm vm_name = request_state_change vm_name 2

  abbrev pub turn_off_vm : Bytes → M Bytes
  turn_off_vm vm_name = request_state_change vm_name 3

  abbrev pub shutdown_vm : Bytes → M Bytes
  shutdown_vm vm_name = request_state_change vm_name 4

  abbrev pub pause_vm : Bytes → M Bytes
  pause_vm vm_name = request_state_change vm_name 9

  abbrev pub resume_vm : Bytes → M Bytes
  resume_vm vm_name = request_state_change vm_name 2

  abbrev pub save_vm : Bytes → M Bytes
  save_vm vm_name = request_state_change vm_name 6
