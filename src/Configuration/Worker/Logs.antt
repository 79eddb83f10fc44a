-- ===== src/Configuration/Worker/Logs.antt =====
-- What `device_worker` does to the device for one row and for the rows of a stage, under any predicate on it.
use orbit_flow_evo.Base.{
  ℕ, zero, suc, ◌+◌, ◌≡◌, refl, Bool, true, false, Option, none, some, List, [], ◌∷◌, ◌++◌, arith,
  Result, ok, err, ◌>>◌, guard, ok_first, ok_second, ok_guard, not, All, All-append,
}
use orbit_flow_evo.Base.Equality.{contains, list_eq, nat_eq, eq_self}
use orbit_flow_evo.Base.Texts.{Text}
use orbit_flow_evo.Configuration.Stages.{Entry}
use orbit_flow_evo.Configuration.Worker.{
  Failure, Raises, raises, blocked, dependency_failed, vlan_prerequisite_unavailable, Event,
  command, recovery, Device, Status, Response, raised, rejected, returned,
}
use orbit_flow_evo.Configuration.Worker.Rows.{
  row_gate, dependencies_met, sent_all, send_command, leave_mode, Sent, Recovered, send_commands,
  return_to_exec, row_failed, returned_to_exec, after_commands, apply_commands, apply_row,
}
use orbit_flow_evo.Configuration.Worker.Run.{apply_rows, log_of}

contains-head : (a : Text) (xs : List Text) → contains (a ∷ xs) a ≡ true
contains-head a xs = ground (arith, eq_self a)

contains-tail : (a b : Text) (xs : List Text) → contains xs b ≡ true → contains (a ∷ xs) b ≡ true
contains-tail a b xs h = ground arith

module _ (P : Event → Type 0) (on_recovery : (rid : Text) → P (recovery rid)) where
  log-leave_mode :
      (mode : Raises) (r : Response) (at_exec : Bool) (rid : Text) (rest : Recovered)
      → All P rest.log
      → All P (leave_mode mode r at_exec (recovery rid) rest).log
  unfolding leave_mode
  log-leave_mode (some f) r at_exec rid rest h = tt
  log-leave_mode none (raised f) at_exec rid rest h = (on_recovery rid, tt)
  log-leave_mode none rejected at_exec rid rest h = (on_recovery rid, tt)
  log-leave_mode none returned true rid rest h = (on_recovery rid, tt)
  log-leave_mode none returned false rid rest h = (on_recovery rid, h)

  log-return_to_exec :
      (d : Device) (rid : Text) (index left : ℕ) → All P (return_to_exec d rid index left).log
  unfolding return_to_exec
  log-return_to_exec d rid index zero = tt
  log-return_to_exec d rid index (suc left) =
      log-leave_mode (d.recovery_mode rid index) (d.recover rid index)
        (d.exec_after_recovery rid index) rid (return_to_exec d rid (index + 1) left)
        (log-return_to_exec d rid (index + 1) left)

  log-returned_to_exec :
      (d : Device) (rid : Text) (s : Sent) (f : Option Failure) (usable : Bool)
      → All P s.log
      → All P (returned_to_exec d rid s f usable).log
  unfolding returned_to_exec row_failed sent_all
  log-returned_to_exec d rid s (some f) usable h = h
  log-returned_to_exec d rid s none usable h = h

  log-after_commands :
      (d : Device) (rid : Text) (s : Sent) (f : Option Failure) (at_exec : Bool)
      → All P s.log
      → All P (after_commands d rid s f at_exec).log
  unfolding after_commands row_failed sent_all
  log-after_commands d rid s (some f) at_exec h = h
  log-after_commands d rid s none true h = h
  log-after_commands d rid s none false h =
      let r = return_to_exec d rid 0 2 in
      log-returned_to_exec d rid (record s { log = s.log ++ r.log }) r.failure r.usable
        (All-append P s.log r.log h (log-return_to_exec d rid 0 2))

log-send_command :
    (P : Event → Type 0) (mode : Raises) (r : Response) (status : Status) (sent : Event)
    (rest : Sent)
    → P sent
    → All P rest.log
    → All P (send_command mode r status sent rest).log
unfolding send_command
log-send_command P (some f) r status sent rest h k = tt
log-send_command P none (raised f) status sent rest h k = (h, tt)
log-send_command P none rejected status sent rest h k = (h, tt)
log-send_command P none returned status sent rest h k = (h, k)

log-send_commands :
    (P : Event → Type 0) (d : Device) (rid : Text) (index : ℕ) (status : Status)
    (commands : List Text)
    → ((i : ℕ) (c : Text) → contains commands c ≡ true → P (command rid i c))
    → All P (send_commands d rid index status commands).log
unfolding send_commands
log-send_commands P d rid index status [] h = tt
log-send_commands P d rid index status (c ∷ commands) h =
    log-send_command P (d.execution_mode rid index) (d.respond rid index) status
      (command rid index c) (send_commands d rid (index + 1) Status.unknown commands)
      (h index c (contains-head c commands))
      (log-send_commands P d rid (index + 1) Status.unknown commands
        (λ i b m. h i b (contains-tail c b commands m)))

-- A row sends its approved commands, and only when its gates let it pass.
pub log-apply_row :
    (P : Event → Type 0) (on_recovery : (rid : Text) → P (recovery rid)) (d : Device)
    (usable : Bool) (gate : Result Failure (Unit {0})) (e : Entry)
    → (gate ≡ ok tt → (i : ℕ) (c : Text) → contains e.commands c ≡ true → P (command e.row_id i c))
    → All P (apply_row d usable gate e).log
unfolding apply_row apply_commands
log-apply_row P on_recovery d usable (err f) e h = tt
log-apply_row P on_recovery d false (ok tt) e h = tt
log-apply_row P on_recovery d true (ok tt) e h =
    let s = send_commands d e.row_id 1 Status.not_executed e.commands in
    log-after_commands P on_recovery d e.row_id s s.failure (d.exec_after_commands e.row_id)
      (log-send_commands P d e.row_id 1 Status.not_executed e.commands (h refl))

-- What a gate of a row that let it pass had tested.
pub passed :
    (d : Device) (stage : Result Failure (Unit {0})) (completed : List Text) (e : Entry)
    → row_gate d stage completed e ≡ ok tt
    → dependencies_met completed e ≡ true
unfolding row_gate
passed d stage completed e h =
    let met = guard (dependencies_met completed e) (blocked dependency_failed) in
    let evidence = raises (d.evidence e.row_id) in
    let target = raises (d.check_target e.row_id) in
    let vlans = guard (not (d.lacks_vlans e.row_id)) (blocked vlan_prerequisite_unavailable) in
    ok_guard (dependencies_met completed e) (blocked dependency_failed) (
      ok_second stage met tt (
        ok_first (stage >> met) evidence tt (
          ok_first (stage >> met >> evidence) target tt
            (ok_first (stage >> met >> evidence >> target) vlans tt h))))

-- An entry's commands satisfy the predicate when its dependencies are completed.
pub log-apply_rows :
    (P : Event → Type 0) (on_recovery : (rid : Text) → P (recovery rid)) (d : Device)
    (usable : Bool) (stage : Result Failure (Unit {0})) (completed : List Text)
    (entries : List Entry)
    → All
        (λ e.
          dependencies_met completed e ≡ true
          → (i : ℕ) (c : Text) → contains e.commands c ≡ true
          → P (command e.row_id i c))
        entries
    → All P (log_of (apply_rows d usable stage completed entries))
unfolding apply_rows log_of
log-apply_rows P on_recovery d usable stage completed [] h = tt
log-apply_rows P on_recovery d usable stage completed (e ∷ entries) h =
    let gate = row_gate d stage completed e in
    let a = apply_row d usable gate e in
    All-append P a.log (log_of (apply_rows d a.usable stage completed entries))
      (log-apply_row P on_recovery d usable gate e (λ g. h.0 (passed d stage completed e g)))
      (log-apply_rows P on_recovery d a.usable stage completed entries h.1)
