-- ===== src/Execution.antt =====
-- src/orbitflow/execution.py: the bounded execution of device work.
pub mod Defs
pub mod Ascending
pub mod Sorting
pub mod Ordering
pub mod Progress
