-- ===== src/Configuration.antt =====
-- src/orbitflow/configuration/execution.py: the confirmed execution of an approved plan.
pub mod Selection
pub mod Confirmations
pub mod Stages
pub mod Worker
