-- ===== src/Hyperv.antt =====
-- The package `hyperv`: the Hyper-V WMI classes over the protocol client.
pub mod CimTag
pub mod Fields
pub mod Embedded
pub mod Types
pub mod Server
pub mod Epr
pub mod Job
pub mod Calls
pub mod Vm
pub mod Resources
pub mod Storage
pub mod Machines
pub mod Checkpoint
pub mod Network
pub mod Switch
pub mod Integration
pub mod Listings
pub mod Vhd
