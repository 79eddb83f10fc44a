-- ===== src/Privilege.antt =====
-- src/orbitflow/vendors/privilege.py: how a session comes from user EXEC to privileged EXEC. What the
-- channel and the decoder give, `normalize_output` of src/orbitflow/vendors/common.py and the EdgeSwitch
-- prompts of src/orbitflow/vendors/ubiquiti/prompts.py are parameters.
pub mod Prompts
pub mod Lines
pub mod Rounds
pub mod Verdicts
pub mod Laws
