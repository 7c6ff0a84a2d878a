-- ===== src/Hyperv/Listings.antt =====
-- hyperv/firmware.go, gpu.go and guest_network.go: listings, and the reference of a boot source.
use go_wsman.Common.{List, [], ◌∷◌, ◌++◌, Bytes, codes, is_empty}
use go_wsman.Hyperv.Fields.{Field}
use go_wsman.Hyperv.Types.{
  boot_source_setting_data, gpu_partition_setting_data, guest_network_adapter_configuration,
  setting_data_component,
}
use go_wsman.Hyperv.Epr.{wmi_object_path}
use go_wsman.Hyperv.Server.{
  empty_argument, M, Host, refuse_if, enumerate_all, unmarshal_all, ◌>>=◌, ◌>>◌,
}
use go_wsman.Hyperv.Calls.{list_filtered, of_vm, class_uri}

-- `BootSourceRef`
unfoldable pub boot_source_ref : Bytes → Bytes
boot_source_ref device_instance_id =
    wmi_object_path (class_uri "Msvm_BootSourceSettingData")
      ((codes "InstanceID", device_instance_id ++ codes "\\B") ∷ [])

module _ (host : Host) where
  -- `ListBootSources`
  unfoldable pub list_boot_sources : Bytes → M (List (List Field))
  list_boot_sources vm_guid = do
    refuse_if (is_empty vm_guid) empty_argument
    list_filtered host "Msvm_BootSourceSettingData" (of_vm vm_guid) boot_source_setting_data

  -- `ListGpuAdapters`
  unfoldable pub list_gpu_adapters : Bytes → M (List (List Field))
  list_gpu_adapters vm_guid = do
    refuse_if (is_empty vm_guid) empty_argument
    list_filtered host "Msvm_GpuPartitionSettingData" (of_vm vm_guid) gpu_partition_setting_data

  -- `ListGuestNetworkAdapterConfigurations`
  unfoldable pub list_guest_network_adapter_configurations : M (List (List Field))
  list_guest_network_adapter_configurations = do
    instances ← enumerate_all host (class_uri "Msvm_GuestNetworkAdapterConfiguration")
    unmarshal_all guest_network_adapter_configuration instances

  -- `ListSettingDataComponents`
  unfoldable pub list_setting_data_components : M (List (List Field))
  list_setting_data_components = do
    instances ← enumerate_all host (class_uri "Msvm_SettingDataComponent")
    unmarshal_all setting_data_component instances
