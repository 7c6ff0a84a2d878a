-- ===== src/Hyperv/Switch.antt =====
-- hyperv/switch.go: creating and removing virtual switches.
use go_wsman.Common.{
  String, Bool, true, false, ◌&&◌, ◌||◌, List, [], ◌∷◌, Bytes, codes, is_empty, if◌then◌else◌, map,
}
use go_wsman.Hyperv.Fields.{Field}
use go_wsman.Hyperv.Types.{
  external_ethernet_port, virtual_ethernet_switch_setting_data, put_text, text_of,
}
use go_wsman.Hyperv.Epr.{build_endpoint_reference, wmi_object_path}
use go_wsman.Hyperv.Server.{
  empty_argument, not_found, unsupported, M, Host, refuse_if, return, throw, enumerate_all,
  unmarshal_all, ◌>>=◌, ◌>>◌,
}
use go_wsman.Hyperv.Calls.{param, job_of, embed, CallResult, result_of, call_service, class_uri}
use go_wsman.Hyperv.Machines.{host_computer_system}
use go_wsman.Hyperv.Network.{
  first_named, or_not_found, allocation_settings, get_virtual_ethernet_switch,
}

-- `SwitchType`
pub data SwitchType : Type 0 where
  private_switch : SwitchType
  internal_switch : SwitchType
  external_switch : SwitchType
  other_switch : Bytes → SwitchType

-- `CreateSwitchOptions`
pub record CreateSwitchOptions : Type 0 where
  pub name : Bytes
  pub type : SwitchType
  pub external_adapter : Bytes
  pub allow_management_os : Bool
  pub notes : Bytes

abbrev no_type : SwitchType → Bool
no_type (other_switch t) = is_empty t
no_type _ = false

abbrev is_external : SwitchType → Bool
is_external external_switch = true
is_external _ = false

abbrev pub switch_service : String
switch_service = "Msvm_VirtualEthernetSwitchManagementService"

module _ (is_uuid : Bytes → Bool) (host : Host) where
  -- `ListExternalEthernetPorts`
  unfoldable pub list_external_ethernet_ports : M (List (List Field))
  list_external_ethernet_ports = do
    instances ← enumerate_all host (class_uri "Msvm_ExternalEthernetPort")
    unmarshal_all external_ethernet_port instances

  -- `buildInternalPortAllocation`
  unfoldable pub build_internal_port_allocation : Bytes → M Bytes
  build_internal_port_allocation switch_name = do
    machine ← host_computer_system host is_uuid
    embed
        (allocation_settings switch_name (
          wmi_object_path (class_uri "Msvm_ComputerSystem") (
            (codes "CreationClassName", codes "Msvm_ComputerSystem")
            ∷ (codes "Name", text_of "Name" machine)
            ∷ [])))
        "Msvm_EthernetPortAllocationSettingData"

  -- `buildExternalAdapterBinding`
  unfoldable pub build_external_adapter_binding : CreateSwitchOptions → M Bytes
  unfolding list_external_ethernet_ports
  build_external_adapter_binding opts = do
    ports ← list_external_ethernet_ports
    port ← or_not_found (first_named opts.external_adapter ports)
    refuse_if (is_empty (text_of "DeviceID" port) || is_empty (text_of "SystemName" port)) not_found
    embed
        (allocation_settings opts.name (
          wmi_object_path (class_uri "Msvm_ExternalEthernetPort") (
            (codes "CreationClassName", codes "Msvm_ExternalEthernetPort")
            ∷ (codes "DeviceID", text_of "DeviceID" port)
            ∷ (codes "SystemCreationClassName", codes "Msvm_ComputerSystem")
            ∷ (codes "SystemName", text_of "SystemName" port)
            ∷ [])))
        "Msvm_EthernetPortAllocationSettingData"

  -- the `switch` of `buildSwitchResourceSettings`
  unfoldable pub resource_settings_of : SwitchType → CreateSwitchOptions → M (List Bytes)
  unfolding build_internal_port_allocation build_external_adapter_binding
  resource_settings_of private_switch opts = return []
  resource_settings_of internal_switch opts = do
    internal_port ← build_internal_port_allocation opts.name
    return (internal_port ∷ [])
  resource_settings_of external_switch opts = do
    external_binding ← build_external_adapter_binding opts
    if opts.allow_management_os
        then (do
          internal_port ← build_internal_port_allocation opts.name
          return (external_binding ∷ internal_port ∷ []))
        else return (external_binding ∷ [])
  resource_settings_of (other_switch t) opts = throw unsupported

  -- `CreateSwitch`
  unfoldable pub create_switch : CreateSwitchOptions → M CallResult
  unfolding resource_settings_of
  create_switch opts = do
    refuse_if (is_empty opts.name) empty_argument
    refuse_if (no_type opts.type) empty_argument
    refuse_if (is_external opts.type && is_empty opts.external_adapter) empty_argument
    system_xml ←
        embed
          (put_text "Notes" opts.notes
            (put_text "ElementName" opts.name virtual_ethernet_switch_setting_data))
          "Msvm_VirtualEthernetSwitchSettingData"
    resource_settings ← resource_settings_of opts.type opts
    r ←
        call_service host switch_service "DefineSystem"
          (param "SystemSettings" system_xml ∷ map (param "ResourceSettings") resource_settings)
    return (result_of "ResultingSystem" r)

  -- `DestroySwitch`
  unfoldable pub destroy_switch : Bytes → M Bytes
  destroy_switch switch_name = do
    refuse_if (is_empty switch_name) empty_argument
    sw ← get_virtual_ethernet_switch host switch_name
    r ← call_service host switch_service "DestroySystem" (
        param "AffectedSystem" (
          build_endpoint_reference (class_uri "Msvm_VirtualEthernetSwitch") (
            (codes "CreationClassName", codes "Msvm_VirtualEthernetSwitch")
            ∷ (codes "Name", text_of "Name" sw)
            ∷ []))
        ∷ [])
    return (job_of r)
