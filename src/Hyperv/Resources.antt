-- ===== src/Hyperv/Resources.antt =====
-- hyperv/resource_settings.go and vm_resources.go: the virtual devices of a machine, and its memory
-- and processor settings.
use go_wsman.Common.{Option, none, some, List, [], ◌∷◌, Bytes, is_empty, map, Bool, true, false}
use go_wsman.Hyperv.Fields.{Field}
use go_wsman.Hyperv.Types.{memory_setting_data, processor_setting_data, text_of}
use go_wsman.Hyperv.Server.{
  Param, empty_argument, nil_argument, M, Host, refuse_if, return, throw, ◌>>=◌, ◌>>◌,
}
use go_wsman.Hyperv.Calls.{
  param, reference_to, job_of, embed, CallResult, result_of, call_service, get_filtered, of_vm,
}
use go_wsman.Hyperv.Vm.{get_system_setting_data}

-- `len(settingsXML) == 0`
abbrev pub none_given : List Bytes → Bool
none_given [] = true
none_given (x ∷ xs) = false

abbrev pub resource_params : List Bytes → List Param
resource_params settings = map (param "ResourceSettings") settings

module _ (host : Host) where
  -- `AddResourceSettings`
  unfoldable pub add_resource_settings : Bytes → List Bytes → M CallResult
  unfolding get_system_setting_data
  add_resource_settings vm_name settings_xml = do
    refuse_if (is_empty vm_name) empty_argument
    refuse_if (none_given settings_xml) empty_argument
    settings ← get_system_setting_data host vm_name
    r ← call_service host "Msvm_VirtualSystemManagementService" "AddResourceSettings" (
        param "AffectedConfiguration" (
          reference_to "Msvm_VirtualSystemSettingData" "InstanceID" (text_of "InstanceID" settings))
        ∷ resource_params settings_xml)
    return (result_of "ResultingResourceSettings" r)

  -- `ModifyResourceSettings`
  unfoldable pub modify_resource_settings : List Bytes → M CallResult
  modify_resource_settings settings_xml = do
    refuse_if (none_given settings_xml) empty_argument
    r ←
        call_service host "Msvm_VirtualSystemManagementService" "ModifyResourceSettings"
          (resource_params settings_xml)
    return (result_of "ResultingResourceSettings" r)

  -- `RemoveResourceSettings`
  unfoldable pub remove_resource_settings : List Bytes → M Bytes
  remove_resource_settings resource_refs = do
    refuse_if (none_given resource_refs) empty_argument
    r ←
        call_service host "Msvm_VirtualSystemManagementService" "RemoveResourceSettings"
          (resource_params resource_refs)
    return (job_of r)

  -- `GetMemorySettings`
  unfoldable pub get_memory_settings : Bytes → M (List Field)
  get_memory_settings vm_name = do
    refuse_if (is_empty vm_name) empty_argument
    get_filtered host "Msvm_MemorySettingData" (of_vm vm_name) memory_setting_data

  -- `SetMemorySettings`
  unfoldable pub set_memory_settings : Option (List Field) → M Bytes
  unfolding modify_resource_settings
  set_memory_settings none = throw nil_argument
  set_memory_settings (some settings) = do
    refuse_if (is_empty (text_of "InstanceID" settings)) empty_argument
    embedded ← embed settings "Msvm_MemorySettingData"
    result ← modify_resource_settings (embedded ∷ [])
    return result.job_ref

  -- `GetProcessorSettings`
  unfoldable pub get_processor_settings : Bytes → M (List Field)
  get_processor_settings vm_name = do
    refuse_if (is_empty vm_name) empty_argument
    get_filtered host "Msvm_ProcessorSettingData" (of_vm vm_name) processor_setting_data

  -- `SetProcessorSettings`
  unfoldable pub set_processor_settings : Option (List Field) → M Bytes
  unfolding modify_resource_settings
  set_processor_settings none = throw nil_argument
  set_processor_settings (some settings) = do
    refuse_if (is_empty (text_of "InstanceID" settings)) empty_argument
    embedded ← embed settings "Msvm_ProcessorSettingData"
    result ← modify_resource_settings (embedded ∷ [])
    return result.job_ref
