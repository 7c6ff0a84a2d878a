-- ===== src/Hyperv/Types.antt =====
-- hyperv/types.go: the CIM classes as lists of zero-valued fields, in the order of the structs.
mod Kinds
mod Machines
mod Devices
mod Systems
mod Slots
pub use Machines.*
pub use Devices.*
pub use Systems.*
unfoldable pub use Slots.*
