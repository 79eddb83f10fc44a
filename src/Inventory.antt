-- ===== src/Inventory.antt =====
-- src/orbitflow/inventory: the store of the latest known devices.
pub mod Defs
pub mod Devices
pub mod Documents
pub mod Sorting
pub mod Readback
pub mod Disk
pub mod Transactions
pub mod Identity
pub mod Failure
