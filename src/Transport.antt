-- ===== src/Transport.antt =====
-- src/orbitflow/transport: pacing, authentication, the two connectors with their cleanup, and the
-- bounded retry over them.
pub mod Failures
pub mod Pacing
pub mod Authentication
pub mod Resources
pub mod Linux
pub mod Windows
pub mod Connect
pub mod Session
