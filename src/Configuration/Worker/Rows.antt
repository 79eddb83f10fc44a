-- ===== src/Configuration/Worker/Rows.antt =====
-- The rows of a stage in `device_worker`: the checks before any write of the stage, the approved commands of a
-- row with the return to privileged EXEC, and the verification.
use orbit_flow_evo.Base.{
  ℕ, zero, suc, ◌+◌, Bool, true, false, not, ◌&&◌, Option, none, some, List, [], ◌∷◌, ◌++◌, all,
  nat_beq, if◌then◌else◌, Result, ok, err, ◌>>◌, guard,
}
use orbit_flow_evo.Base.Equality.{contains, list_eq, list_beq, nat_eq}
use orbit_flow_evo.Base.Texts.{Text}
use orbit_flow_evo.Configuration.Stages.{Entry}
use orbit_flow_evo.Configuration.Worker.{
  session_unusable, stage_evidence_unavailable, dependency_failed, vlan_prerequisite_unavailable,
  Failure, blocked, plan_error, Status, not_executed, unknown, failed, Response, raised, rejected,
  returned, Event, command, recovery, Device, Row, Raises, raises,
}

-- The gates of a stage: the session, and fresh reliable evidence.
unfoldable pub stage_gate : Device → Bool → ℕ → Result Failure (Unit {0})
stage_gate d usable stage =
    guard usable (blocked session_unusable)
    >> raises (d.stage_session stage)
    >> guard (d.stage_exec stage) (blocked session_unusable)
    >> raises (if nat_beq stage 1 then none else d.stage_observe stage)
    >> guard (d.stage_reliable stage) (blocked stage_evidence_unavailable)

-- `set(dependencies) <= completed`
unfoldable pub dependencies_met : List Text → Entry → Bool
unfolding list_beq
dependencies_met completed e = all (contains completed) e.dependencies

-- The gates of a row, which raise the error of its stage first.
unfoldable pub row_gate :
    Device → Result Failure (Unit {0}) → List Text → Entry → Result Failure (Unit {0})
unfolding dependencies_met
row_gate d stage completed e =
    stage
    >> guard (dependencies_met completed e) (blocked dependency_failed)
    >> raises (d.evidence e.row_id)
    >> raises (d.check_target e.row_id)
    >> guard (not (d.lacks_vlans e.row_id)) (blocked vlan_prerequisite_unavailable)

-- What a row is after its commands: `failure` is what was raised.
pub record Applied : Type 0 where
  pub status : Status
  pub failure : Option Failure
  pub rejected : Bool
  pub verify : Bool
  pub usable : Bool
  pub log : List Event

pub record Sent : Type 0 where
  pub status : Status
  pub failure : Option Failure
  pub rejected : Bool
  pub log : List Event

-- One command: what the synchronisation of the prompt raises, the response, the status of the row before, and
-- what the commands after it give.
unfoldable pub send_command : Raises → Response → Status → Event → Sent → Sent
send_command (some f) response status sent rest = record {
  status = status;
  failure = some f;
  rejected = false;
  log = [];
}
send_command none (raised f) status sent rest = record {
  status = unknown;
  failure = some f;
  rejected = false;
  log = sent ∷ [];
}
send_command none rejected status sent rest = record {
  status = failed;
  failure = none;
  rejected = true;
  log = sent ∷ [];
}
send_command none returned status sent rest = record {
  status = rest.status;
  failure = rest.failure;
  rejected = rest.rejected;
  log = sent ∷ rest.log;
}

-- The approved commands from an index on, up to the first that raises or is rejected.
unfoldable pub send_commands : Device → Text → ℕ → Status → List Text → Sent
unfolding send_command
send_commands d rid index status [] = record {
  status = status;
  failure = none;
  rejected = false;
  log = [];
}
send_commands d rid index status (c ∷ commands) =
    send_command (d.execution_mode rid index) (d.respond rid index) status (command rid index c)
      (send_commands d rid (index + 1) unknown commands)

pub record Recovered : Type 0 where
  pub failure : Option Failure
  pub usable : Bool
  pub log : List Event

-- One attempt: what the synchronisation of the prompt raises, the response, whether the prompt is then one of
-- privileged EXEC, and what the attempts after it give.
unfoldable pub leave_mode : Raises → Response → Bool → Event → Recovered → Recovered
leave_mode (some f) response at_exec sent rest = record {
  failure = some f;
  usable = true;
  log = [];
}
leave_mode none (raised f) at_exec sent rest = record {
  failure = some f;
  usable = true;
  log = sent ∷ [];
}
leave_mode none rejected at_exec sent rest = record {
  failure = some plan_error;
  usable = false;
  log = sent ∷ [];
}
leave_mode none returned true sent rest = record { failure = none; usable = true; log = sent ∷ [] }
leave_mode none returned false sent rest = record {
  failure = rest.failure;
  usable = rest.usable;
  log = sent ∷ rest.log;
}

-- The attempts to return to privileged EXEC that are left, from an index on.
unfoldable pub return_to_exec : Device → Text → ℕ → ℕ → Recovered
unfolding leave_mode
return_to_exec d rid index zero = record { failure = some plan_error; usable = true; log = [] }
return_to_exec d rid index (suc left) =
    leave_mode (d.recovery_mode rid index) (d.recover rid index) (d.exec_after_recovery rid index)
      (recovery rid) (return_to_exec d rid (index + 1) left)

-- The handler of a row that raised.
unfoldable pub row_failed : Device → Text → Failure → Bool → Sent → Applied
row_failed d rid f usable s = record {
  status = s.status;
  failure = some f;
  rejected = s.rejected;
  verify = false;
  usable = usable && d.session_kept rid;
  log = s.log;
}

-- A row whose commands were sent, and that is at privileged EXEC.
unfoldable pub sent_all : Sent → Applied
sent_all s = record {
  status = s.status;
  failure = none;
  rejected = s.rejected;
  verify = true;
  usable = true;
  log = s.log;
}

unfoldable pub returned_to_exec : Device → Text → Sent → Option Failure → Bool → Applied
unfolding row_failed sent_all
returned_to_exec d rid s (some f) usable = row_failed d rid f usable s
returned_to_exec d rid s none usable = sent_all s

-- What follows the commands of a row, by what they raised, and by whether the prompt is one of privileged EXEC.
unfoldable pub after_commands : Device → Text → Sent → Option Failure → Bool → Applied
unfolding return_to_exec row_failed returned_to_exec sent_all
after_commands d rid s (some f) at_exec = row_failed d rid f true s
after_commands d rid s none true = sent_all s
after_commands d rid s none false =
    let r = return_to_exec d rid 0 2 in
    returned_to_exec d rid (record s { log = s.log ++ r.log }) r.failure r.usable

-- A ready row on a usable session.
unfoldable pub apply_commands : Device → Entry → Applied
unfolding send_commands after_commands
apply_commands d e =
    let s = send_commands d e.row_id 1 not_executed e.commands in
    after_commands d e.row_id s s.failure (d.exec_after_commands e.row_id)

unfoldable pub apply_row : Device → Bool → Result Failure (Unit {0}) → Entry → Applied
unfolding apply_commands
apply_row d usable (err f) e = record {
  status = not_executed;
  failure = some f;
  rejected = false;
  verify = false;
  usable = usable;
  log = [];
}
apply_row d true (ok _) e = apply_commands d e
apply_row d false (ok _) e = record {
  status = not_executed;
  failure = some (blocked session_unusable);
  rejected = false;
  verify = false;
  usable = false;
  log = [];
}

-- The gates of the observation after a stage.
unfoldable pub post_gate : Device → Bool → ℕ → Result Failure (Unit {0})
post_gate d usable stage =
    guard usable (blocked session_unusable)
    >> raises (d.post_session stage)
    >> guard (d.post_exec stage) (blocked session_unusable)
    >> raises (d.post_observe stage)
    >> guard (d.post_reliable stage) (blocked stage_evidence_unavailable)

-- What the verification of a row answers, under the gates of the observation.
unfoldable pub verification : Device → Result Failure (Unit {0}) → Entry → Result Failure Status
verification d (err f) e = err f
verification d (ok _) e = d.verify e.row_id

unfoldable pub verified_row : Entry → Applied → Result Failure Status → Row
verified_row e a (ok s) = record {
  row_id = e.row_id;
  status = if a.rejected then failed else s;
  failure = none;
}
verified_row e a (err f) = record {
  row_id = e.row_id;
  status = if a.rejected then failed else unknown;
  failure = some f;
}

-- The row as it is reported.
unfoldable pub finish_row : Device → Result Failure (Unit {0}) → Entry → Applied → Row
unfolding verification verified_row
finish_row d post e a =
    if a.verify
    then verified_row e a (verification d post e)
    else record { row_id = e.row_id; status = a.status; failure = a.failure }
