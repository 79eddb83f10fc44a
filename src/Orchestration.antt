-- ===== src/Orchestration.antt =====
-- scripts/orchestration_v2/: the workspace of a task in git, and the commit of its changes.
pub mod Git
pub mod Workspaces
pub mod Laws
pub mod Labels
