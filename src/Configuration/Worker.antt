-- ===== src/Configuration/Worker.antt =====
-- `device_worker` of src/orbitflow/configuration/execution.py: the state that it threads through one device, and
-- what the device answers. The answers are parameters: the connection, the reads, the checks over what was read,
-- and each response to a command.
pub mod Rows
pub mod Run
pub mod Logs
pub mod Monitor
pub mod Laws
pub mod Order
pub mod Outcomes
pub mod Sending
pub mod Verified
pub mod Closure
pub mod Progress
use orbit_flow_evo.Base.{ℕ, Bool, true, false, Option, none, some, List, Result, ok, err}
use orbit_flow_evo.Base.Texts.{Text}
use orbit_flow_evo.Configuration.Stages.{Entry}

-- The codes of ExecutionBlocked that the worker itself raises, and any other.
pub data Code : Type 0 where
  fresh_identity_mismatch session_unusable stage_evidence_unavailable dependency_failed
        vlan_prerequisite_unavailable :
      Code
  other_code : Text → Code

-- What is raised: `error_category` is its class, and `blocker` the code of an ExecutionBlocked.
pub data Failure : Type 0 where
  blocked : Code → Failure
  plan_error : Failure
  other_error : Text → Failure

pub data Status : Type 0 where
  not_executed unknown failed verified : Status

pub data Response : Type 0 where
  raised : Failure → Response
  rejected returned : Response

-- What the program does to the device: it takes the backup, sends an approved command of a row, sends a command
-- that leaves a configuration mode, and saves.
pub data Event : Type 0 where
  backup : Event
  command : Text → ℕ → Text → Event
  recovery : Text → Event
  save : Event

pub data SaveStatus : Type 0 where
  not_required saved save_failed save_unknown : SaveStatus

pub record Save : Type 0 where
  pub status : SaveStatus
  -- `explicit_error` of the vendor's answer.
  pub explicit_error : Bool

abbrev pub Raises : Type 0
Raises = Option Failure

pub record Device : Type 0 where
  -- Before the first stage.
  pub has_credentials : Bool
  pub connect : Raises
  pub open_shell : Raises
  pub identify : Raises
  pub identities_match : Bool
  pub preflight : Raises
  pub exec_at_start : Bool
  pub collect_backup : Raises
  pub write_backup : Raises
  -- Before a stage, by its number.
  pub stage_session : ℕ → Raises
  pub stage_exec : ℕ → Bool
  pub stage_observe : ℕ → Raises
  pub stage_reliable : ℕ → Bool
  -- Before a row, by its id.
  pub evidence : Text → Raises
  pub check_target : Text → Raises
  -- The row sets VLANs on a port, and one of them is not present.
  pub lacks_vlans : Text → Bool
  -- A command of a row, by its index.
  pub execution_mode : Text → ℕ → Raises
  pub respond : Text → ℕ → Response
  pub exec_after_commands : Text → Bool
  -- An attempt to return to privileged EXEC, by its index.
  pub recovery_mode : Text → ℕ → Raises
  pub recover : Text → ℕ → Response
  pub exec_after_recovery : Text → ℕ → Bool
  -- After a row failed: the session is the worker's own, and its prompt is the last EXEC prompt.
  pub session_kept : Text → Bool
  -- After a stage.
  pub post_session : ℕ → Raises
  pub post_exec : ℕ → Bool
  pub post_observe : ℕ → Raises
  pub post_reliable : ℕ → Bool
  pub verify : Text → Result Failure Status
  -- After the last stage.
  pub session_at_end : Bool
  pub exec_at_end : Bool
  pub save_configuration : Result Failure Save
  -- Leaving the `with` blocks of the session and the shell.
  pub close_session : Raises

pub record Row : Type 0 where
  pub row_id : Text
  pub status : Status
  pub failure : Option Failure

pub record State : Type 0 where
  pub usable : Bool
  pub completed : List Text
  pub rows : List Row
  pub log : List Event

abbrev pub raises : Raises → Result Failure (Unit {0})
raises none = ok tt
raises (some f) = err f

abbrev pub is_command : Event → Bool
is_command (command _ _ _) = true
is_command _ = false

abbrev pub is_verified : Status → Bool
is_verified Status.verified = true
is_verified _ = false

abbrev pub is_unknown : Status → Bool
is_unknown Status.unknown = true
is_unknown _ = false
