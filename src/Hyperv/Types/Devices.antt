-- ===== src/Hyperv/Types/Devices.antt =====
-- hyperv/types.go: the structs of switches, network adapters and storage.
use go_wsman.Common.{List, [], ◌∷◌}
use go_wsman.Hyperv.Fields.{Field}
use go_wsman.Hyperv.Types.Kinds.{str, u16, u64, boolean, strs}

abbrev pub virtual_ethernet_switch : List Field
virtual_ethernet_switch =
    str "Name" ∷ str "ElementName" ∷ str "Description" ∷ u16 "HealthState" ∷ []

abbrev pub virtual_ethernet_switch_setting_data : List Field
virtual_ethernet_switch_setting_data =
    str "InstanceID" ∷ str "ElementName" ∷ str "Notes" ∷ boolean "IOVPreferred" ∷ []

abbrev pub external_ethernet_port : List Field
external_ethernet_port =
    str "Name"
    ∷ str "ElementName"
    ∷ str "DeviceID"
    ∷ str "CreationClassName"
    ∷ str "SystemCreationClassName"
    ∷ str "SystemName"
    ∷ str "PermanentAddress"
    ∷ boolean "IsBound"
    ∷ []

abbrev pub synthetic_ethernet_port_setting_data : List Field
synthetic_ethernet_port_setting_data =
    str "InstanceID"
    ∷ str "ElementName"
    ∷ u16 "ResourceType"
    ∷ str "ResourceSubType"
    ∷ boolean "StaticMacAddress"
    ∷ str "Address"
    ∷ boolean "AllowPacketDirect"
    ∷ boolean "ClusterMonitored"
    ∷ []

abbrev pub ethernet_port_allocation_setting_data : List Field
ethernet_port_allocation_setting_data =
    str "InstanceID"
    ∷ str "ElementName"
    ∷ u16 "ResourceType"
    ∷ str "ResourceSubType"
    ∷ str "HostResource"
    ∷ str "Parent"
    ∷ u16 "EnabledState"
    ∷ []

abbrev pub ethernet_allocation_input : List Field
ethernet_allocation_input =
    str "ElementName"
    ∷ u16 "ResourceType"
    ∷ str "ResourceSubType"
    ∷ strs "HostResource"
    ∷ str "Parent"
    ∷ u16 "EnabledState"
    ∷ []

abbrev pub resource_allocation_setting_data : List Field
resource_allocation_setting_data =
    str "InstanceID"
    ∷ str "ElementName"
    ∷ u16 "ResourceType"
    ∷ str "ResourceSubType"
    ∷ str "Address"
    ∷ str "AddressOnParent"
    ∷ str "Parent"
    ∷ str "HostResource"
    ∷ u64 "VirtualQuantity"
    ∷ []

abbrev pub storage_allocation_setting_data : List Field
storage_allocation_setting_data =
    str "InstanceID"
    ∷ str "ElementName"
    ∷ u16 "ResourceType"
    ∷ str "ResourceSubType"
    ∷ str "HostResource"
    ∷ str "Parent"
    ∷ str "Address"
    ∷ []

-- `storageAllocationInput` of hyperv/storage.go
abbrev pub storage_allocation_input : List Field
storage_allocation_input =
    u16 "ResourceType" ∷ str "ResourceSubType" ∷ strs "HostResource" ∷ str "Parent" ∷ []
