-- ===== src/Tests.antt =====
-- Runs of the modelled code on concrete inputs, and the theorems at such inputs.
mod Inventory
mod Transport
mod Vlans
mod Execution
mod Allowed
mod Orchestration
mod Targets
mod Configuration
mod Confirmations
mod Privilege
mod Evc
mod Aggregation
mod Codec
mod Outputs
mod Approvals
mod Compliance
mod Spool
