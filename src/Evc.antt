-- ===== src/Evc.antt =====
-- src/orbitflow/vendors/cisco/evc.py: the Ethernet service instances of a port.
pub mod Services
pub mod Omitted
pub mod Laws
