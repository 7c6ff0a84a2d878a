-- ===== src/Hyperv/Types/Systems.antt =====
-- hyperv/types.go: the structs of system settings, VLANs, jobs and guests.
use go_wsman.Common.{List, [], ◌∷◌}
use go_wsman.Hyperv.Fields.{Field}
use go_wsman.Hyperv.Types.Kinds.{str, u16, u32, u64, boolean, optional_boolean, strs, u16s}

abbrev pub virtual_system_setting_data : List Field
virtual_system_setting_data =
    str "InstanceID"
    ∷ str "ElementName"
    ∷ str "Caption"
    ∷ str "Description"
    ∷ str "VirtualSystemIdentifier"
    ∷ str "VirtualSystemType"
    ∷ str "VirtualSystemSubType"
    ∷ str "ConfigurationID"
    ∷ str "ConfigurationDataRoot"
    ∷ str "ConfigurationFile"
    ∷ str "SnapshotDataRoot"
    ∷ str "SuspendDataRoot"
    ∷ str "SwapFileDataRoot"
    ∷ str "LogDataRoot"
    ∷ u16 "AutomaticStartupAction"
    ∷ str "AutomaticStartupActionDelay,datetime"
    ∷ u16 "AutomaticShutdownAction"
    ∷ u16 "AutomaticRecoveryAction"
    ∷ u16 "AutomaticCriticalErrorAction"
    ∷ str "AutomaticCriticalErrorActionTimeout,datetime"
    ∷ str "BIOSGUID"
    ∷ boolean "BIOSNumLock"
    ∷ optional_boolean "SecureBootEnabled"
    ∷ str "SecureBootTemplateId"
    ∷ strs "BootSourceOrder"
    ∷ strs "Notes"
    ∷ boolean "LockOnDisconnect"
    ∷ boolean "GuestControlledCacheTypes"
    ∷ u64 "HighMmioGapSize"
    ∷ u64 "LowMmioGapSize"
    ∷ optional_boolean "AutomaticSnapshotsEnabled"
    ∷ u16 "NetworkBootPreferredProtocol"
    ∷ u16 "ConsoleMode"
    ∷ boolean "PauseAfterBootFailure"
    ∷ str "Version"
    ∷ str "CreationTime"
    ∷ str "Parent"
    ∷ u16 "UserSnapshotType"
    ∷ []

abbrev pub ethernet_switch_port_vlan_setting_data : List Field
ethernet_switch_port_vlan_setting_data =
    str "InstanceID"
    ∷ u32 "OperationMode"
    ∷ u16 "AccessVlanId"
    ∷ u16 "NativeVlanId"
    ∷ u32 "PvlanMode"
    ∷ u16 "PrimaryVlanId"
    ∷ u16 "SecondaryVlanId"
    ∷ u16s "PruneVlanIdArray"
    ∷ u16s "TrunkVlanIdArray"
    ∷ u16s "SecondaryVlanIdArray"
    ∷ []

abbrev pub concrete_job : List Field
concrete_job =
    str "InstanceID"
    ∷ u16 "JobState"
    ∷ u16 "PercentComplete"
    ∷ u16 "ErrorCode"
    ∷ str "ErrorDescription"
    ∷ str "ElementName"
    ∷ str "Name"
    ∷ u16 "JobType"
    ∷ []

abbrev pub guest_network_adapter_configuration : List Field
guest_network_adapter_configuration =
    str "InstanceID"
    ∷ u16 "ProtocolIFType"
    ∷ boolean "DHCPEnabled"
    ∷ strs "IPAddresses"
    ∷ strs "Subnets"
    ∷ strs "DefaultGateways"
    ∷ strs "DNSServers"
    ∷ u16s "IPAddressOrigins"
    ∷ []

abbrev pub setting_data_component : List Field
setting_data_component = str "GroupComponent" ∷ str "PartComponent" ∷ []

abbrev pub boot_source_setting_data : List Field
boot_source_setting_data =
    str "InstanceID"
    ∷ str "ElementName"
    ∷ u32 "BootSourceType"
    ∷ str "BootSourceDescription"
    ∷ str "FirmwareDevicePath"
    ∷ str "OtherLocation"
    ∷ []

-- `integrationComponentSettingData` of hyperv/integration.go
abbrev pub integration_component_setting_data : List Field
integration_component_setting_data = str "InstanceID" ∷ str "ElementName" ∷ u16 "EnabledState" ∷ []
