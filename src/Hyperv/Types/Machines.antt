-- ===== src/Hyperv/Types/Machines.antt =====
-- hyperv/types.go: the structs of machines, memory, processors, disks and GPUs.
use go_wsman.Common.{List, [], ◌∷◌}
use go_wsman.Hyperv.Fields.{Field}
use go_wsman.Hyperv.Types.Kinds.{str, u16, u32, u64, boolean, optional_boolean}

abbrev pub computer_system : List Field
computer_system =
    str "Name"
    ∷ str "ElementName"
    ∷ str "Caption"
    ∷ str "Description"
    ∷ u16 "EnabledState"
    ∷ u16 "HealthState"
    ∷ str "InstallDate"
    ∷ u64 "OnTimeInMilliseconds"
    ∷ []

abbrev pub virtual_hard_disk_setting_data : List Field
virtual_hard_disk_setting_data =
    str "InstanceID"
    ∷ str "ElementName"
    ∷ u16 "Format"
    ∷ u16 "Type"
    ∷ u32 "BlockSize"
    ∷ u32 "LogicalSectorSize"
    ∷ u32 "PhysicalSectorSize"
    ∷ u64 "MaxInternalSize"
    ∷ str "Path"
    ∷ str "ParentPath"
    ∷ []

abbrev pub memory_setting_data : List Field
memory_setting_data =
    str "InstanceID"
    ∷ str "ElementName"
    ∷ u16 "ResourceType"
    ∷ u64 "VirtualQuantity"
    ∷ optional_boolean "DynamicMemoryEnabled"
    ∷ u64 "Reservation"
    ∷ u64 "Limit"
    ∷ u32 "Weight"
    ∷ []

abbrev pub processor_setting_data : List Field
processor_setting_data =
    str "InstanceID"
    ∷ str "ElementName"
    ∷ u16 "ResourceType"
    ∷ u64 "VirtualQuantity"
    ∷ u64 "Reservation"
    ∷ u64 "Limit"
    ∷ u32 "Weight"
    ∷ boolean "LimitProcessorFeatures"
    ∷ boolean "LimitCPUID"
    ∷ boolean "ExposeVirtualizationExtensions"
    ∷ u64 "HwThreadsPerCore"
    ∷ u64 "MaxProcessorsPerNumaNode"
    ∷ u64 "MaxNumaNodesPerSocket"
    ∷ boolean "EnableHostResourceProtection"
    ∷ []

abbrev pub gpu_partition_setting_data : List Field
gpu_partition_setting_data =
    str "InstanceID"
    ∷ u64 "MinPartitionVRAM"
    ∷ u64 "MaxPartitionVRAM"
    ∷ u64 "OptimalPartitionVRAM"
    ∷ u64 "MinPartitionEncode"
    ∷ u64 "MaxPartitionEncode"
    ∷ u64 "OptimalPartitionEncode"
    ∷ u64 "MinPartitionDecode"
    ∷ u64 "MaxPartitionDecode"
    ∷ u64 "OptimalPartitionDecode"
    ∷ u64 "MinPartitionCompute"
    ∷ u64 "MaxPartitionCompute"
    ∷ u64 "OptimalPartitionCompute"
    ∷ []
