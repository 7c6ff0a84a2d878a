-- ===== src/Hyperv/Network.antt =====
-- hyperv/network.go: switches, network adapters of machines and their VLAN settings.
use go_wsman.Common.{
  Bool, ◌&&◌, Option, none, some, List, [], ◌∷◌, Bytes, codes, str_eq, is_empty, if◌then◌else◌,
  Result, ok, err,
}
use go_wsman.Hyperv.Fields.{Field, string, bool, text, flag, slice, scalar}
use go_wsman.Hyperv.Types.{
  virtual_ethernet_switch, synthetic_ethernet_port_setting_data,
  ethernet_port_allocation_setting_data, ethernet_allocation_input, put, put_text, put_number,
  text_of,
}
use go_wsman.Hyperv.Epr.{wmi_object_path}
use go_wsman.Hyperv.Server.{
  OpError, empty_argument, nil_argument, not_found, M, Host, refuse_if, return, throw, attempt,
  enumerate_all, unmarshal_all, ◌>>=◌, ◌>>◌,
}
use go_wsman.Hyperv.Calls.{
  param, reference_to, job_of, embed, CallResult, call_service, list_filtered, of_vm, class_uri,
}
use go_wsman.Hyperv.Resources.{add_resource_settings, remove_resource_settings}

-- `NetworkAdapterOptions`
pub record NetworkAdapterOptions : Type 0 where
  pub element_name : Bytes
  pub switch_name : Bytes
  pub static_mac_address : Bool
  pub mac_address : Bytes

pub record NetworkAdapterResult : Type 0 where
  pub port_ref : Bytes
  pub allocation_ref : Bytes
  pub job_ref : Bytes

-- `for _, sw := range switches`: the first one that has the name
unfoldable pub first_named : Bytes → List (List Field) → Option (List Field)
first_named name [] = none
first_named name (sw ∷ switches) =
    let rest = first_named name switches in
    if str_eq (text_of "ElementName" sw) name then some sw else rest

abbrev pub or_not_found : Option (List Field) → M (List Field)
or_not_found none = throw not_found
or_not_found (some sw) = return sw

-- `port` and `allocation` of `AddNetworkAdapter`
unfoldable pub port_settings : NetworkAdapterOptions → List Field
port_settings opts =
    let p = put_text "ElementName" opts.element_name synthetic_ethernet_port_setting_data in
    let p = put_number "ResourceType" 10 p in
    let p = put_text "ResourceSubType" (codes "Microsoft:Hyper-V:Synthetic Ethernet Port") p in
    let p = put "StaticMacAddress" (scalar bool (flag opts.static_mac_address)) p in
    put_text "Address" opts.mac_address p

unfoldable pub allocation_settings : Bytes → Bytes → List Field
allocation_settings element_name host_resource =
    let a = put_text "ElementName" element_name ethernet_allocation_input in
    let a = put_number "ResourceType" 33 a in
    let a = put_text "ResourceSubType" (codes "Microsoft:Hyper-V:Ethernet Connection") a in
    let a = put "HostResource" (slice string (text host_resource ∷ [])) a in
    put_number "EnabledState" 2 a

module _ (host : Host) where
  -- `ListVirtualEthernetSwitches`
  unfoldable pub list_virtual_ethernet_switches : M (List (List Field))
  list_virtual_ethernet_switches = do
    instances ← enumerate_all host (class_uri "Msvm_VirtualEthernetSwitch")
    unmarshal_all virtual_ethernet_switch instances

  -- `GetVirtualEthernetSwitch`
  unfoldable pub get_virtual_ethernet_switch : Bytes → M (List Field)
  unfolding list_virtual_ethernet_switches
  get_virtual_ethernet_switch switch_name = do
    refuse_if (is_empty switch_name) empty_argument
    switches ← list_virtual_ethernet_switches
    or_not_found (first_named switch_name switches)

  -- `ListNetworkAdapters`
  unfoldable pub list_network_adapters : Bytes → M (List (List Field))
  list_network_adapters vm_name = do
    refuse_if (is_empty vm_name) empty_argument
    list_filtered host "Msvm_SyntheticEthernetPortSettingData" (of_vm vm_name)
        synthetic_ethernet_port_setting_data

  -- `ListEthernetPortAllocations`
  unfoldable pub list_ethernet_port_allocations : Bytes → M (List (List Field))
  list_ethernet_port_allocations vm_name = do
    refuse_if (is_empty vm_name) empty_argument
    list_filtered host "Msvm_EthernetPortAllocationSettingData" (of_vm vm_name)
        ethernet_port_allocation_setting_data

  -- the part of `AddNetworkAdapter` that connects the adapter to its switch
  unfoldable pub connect_port : Bytes → NetworkAdapterOptions → Bytes → M CallResult
  unfolding get_virtual_ethernet_switch allocation_settings
  connect_port vm_name opts port_ref = do
    sw ← get_virtual_ethernet_switch opts.switch_name
    let switch_path = wmi_object_path (class_uri "Msvm_VirtualEthernetSwitch") (
        (codes "Name", text_of "Name" sw)
        ∷ (codes "CreationClassName", codes "Msvm_VirtualEthernetSwitch")
        ∷ [])
    let port_path =
        wmi_object_path (class_uri "Msvm_SyntheticEthernetPortSettingData")
          ((codes "InstanceID", port_ref) ∷ [])
    xml ←
        embed (put_text "Parent" port_path (allocation_settings opts.element_name switch_path))
          "Msvm_EthernetPortAllocationSettingData"
    add_resource_settings host vm_name (xml ∷ [])

  abbrev connected :
      NetworkAdapterResult → Result OpError CallResult → NetworkAdapterResult × Option OpError
  connected result (err e) = (result, some e)
  connected result (ok added) =
      (record result { allocation_ref = added.resulting; job_ref = added.job_ref }, none)

  -- `AddNetworkAdapter`; behind the first call the result comes beside an error
  unfoldable pub add_network_adapter :
      Bytes → NetworkAdapterOptions → M (NetworkAdapterResult × Option OpError)
  unfolding connect_port port_settings
  add_network_adapter vm_name opts = do
    refuse_if (is_empty vm_name) empty_argument
    refuse_if (is_empty opts.element_name) empty_argument
    refuse_if (opts.static_mac_address && is_empty opts.mac_address) empty_argument
    port_xml ← embed (port_settings opts) "Msvm_SyntheticEthernetPortSettingData"
    added ← add_resource_settings host vm_name (port_xml ∷ [])
    let result : NetworkAdapterResult = record {
      port_ref = added.resulting;
      allocation_ref = [];
      job_ref = added.job_ref;
    }
    if is_empty opts.switch_name then return (result, none) else (do
      connection ← attempt (connect_port vm_name opts added.resulting)
      return (connected result connection))

  -- `RemoveNetworkAdapter`
  unfoldable pub remove_network_adapter : Bytes → M Bytes
  remove_network_adapter adapter_instance_id = do
    refuse_if (is_empty adapter_instance_id) empty_argument
    remove_resource_settings host
        (reference_to "Msvm_SyntheticEthernetPortSettingData" "InstanceID" adapter_instance_id ∷ [])

  -- `AddNetworkAdapterVlan`; `none` is a nil pointer
  unfoldable pub add_network_adapter_vlan : Bytes → Option (List Field) → M Bytes
  add_network_adapter_vlan adapter_allocation_instance_id none = do
    refuse_if (is_empty adapter_allocation_instance_id) empty_argument
    throw nil_argument
  add_network_adapter_vlan adapter_allocation_instance_id (some settings) = do
    refuse_if (is_empty adapter_allocation_instance_id) empty_argument
    xml ← embed settings "Msvm_EthernetSwitchPortVlanSettingData"
    r ← call_service host "Msvm_VirtualSystemManagementService" "AddFeatureSettings" (
        param "AffectedConfiguration" (
          reference_to "Msvm_EthernetPortAllocationSettingData" "InstanceID"
            adapter_allocation_instance_id)
        ∷ param "FeatureSettings" xml
        ∷ [])
    return (job_of r)
