-- ===== src/Configuration/Worker/Sending.antt =====
-- What the commands of a row of `device_worker` say of the row when they end.
use orbit_flow_evo.Base.{
  ℕ, ◌+◌, ◌≡◌, refl, sym, Bool, true, false, not, ◌&&◌, Option, none, some, List, [], ◌∷◌, ◌++◌,
  Result, ok, err,
}
use mathlib.Core.Bool.{true≢false}
use orbit_flow_evo.Base.Equality.{list_eq, nat_eq}
use orbit_flow_evo.Base.Texts.{Text}
use orbit_flow_evo.Configuration.Stages.{Entry}
use orbit_flow_evo.Configuration.Worker.Outcomes.{is_present}
use orbit_flow_evo.Configuration.Worker.{
  command, Failure, Raises, Event, Device, Status, Response, raised, rejected, returned,
  is_verified,
}
use orbit_flow_evo.Configuration.Worker.Rows.{
  Sent, Applied, send_command, send_commands, row_failed, sent_all, returned_to_exec,
  return_to_exec, after_commands, apply_commands, apply_row,
}

abbrev pub is_returned : Response → Bool
is_returned returned = true
is_returned _ = false

-- Each command of a row, from an index on, came back without a rejection.
unfoldable pub all_returned : Device → Text → ℕ → List Text → Bool
all_returned d rid index [] = true
all_returned d rid index (_ ∷ commands) =
    is_returned (d.respond rid index) && all_returned d rid (index + 1) commands

-- The status of the commands is never Verified, and when they end without a rejection they all came back.
record SentWell (d : Device) (rid : Text) (index : ℕ) (commands : List Text) (s : Sent)
    : Type 0 where
  status : is_verified s.status ≡ false
  sent :
      not (is_present s.failure) && not s.rejected ≡ true → all_returned d rid index commands ≡ true

send_command-SentWell :
    (d : Device) (rid : Text) (index : ℕ) (c : Text) (commands : List Text) (mode : Raises)
    (r : Response) (status : Status) (sent : Event) (rest : Sent)
    → d.respond rid index ≡ r
    → is_verified status ≡ false
    → SentWell d rid (index + 1) commands rest
    → SentWell d rid index (c ∷ commands) (send_command mode r status sent rest)
unfolding send_command all_returned
send_command-SentWell d rid index c commands (some f) r status sent rest e h w = record {
  status = h;
  sent = λ k. absurd (true≢false (sym k));
}
send_command-SentWell d rid index c commands none (raised f) status sent rest e h w = record {
  status = refl;
  sent = λ k. absurd (true≢false (sym k));
}
send_command-SentWell d rid index c commands none rejected status sent rest e h w = record {
  status = refl;
  sent = λ k. absurd (true≢false (sym k));
}
send_command-SentWell d rid index c commands none returned status sent rest e h w = record {
  status = w.status;
  sent = λ k. rw e (w.sent k);
}

send_commands-SentWell :
    (d : Device) (rid : Text) (index : ℕ) (status : Status) (commands : List Text)
    → is_verified status ≡ false
    → SentWell d rid index commands (send_commands d rid index status commands)
unfolding send_commands send_command all_returned
send_commands-SentWell d rid index status [] h = record { status = h; sent = λ k. refl }
send_commands-SentWell d rid index status (c ∷ commands) h =
    send_command-SentWell d rid index c commands (d.execution_mode rid index) (d.respond rid index)
      status (command rid index c) (send_commands d rid (index + 1) Status.unknown commands) refl h
      (send_commands-SentWell d rid (index + 1) Status.unknown commands refl)

-- What a row is after its commands, in the same terms.
pub record AppliedWell (d : Device) (e : Entry) (a : Applied) : Type 0 where
  pub status : is_verified a.status ≡ false
  pub sent : a.verify && not a.rejected ≡ true → all_returned d e.row_id 1 e.commands ≡ true

returned_to_exec-AppliedWell :
    (d : Device) (e : Entry) (s : Sent) (f : Option Failure) (usable : Bool)
    → s.failure ≡ none
    → SentWell d e.row_id 1 e.commands s
    → AppliedWell d e (returned_to_exec d e.row_id s f usable)
unfolding returned_to_exec row_failed sent_all
returned_to_exec-AppliedWell d e s (some f) usable h w = record {
  status = w.status;
  sent = λ k. absurd (true≢false (sym k));
}
returned_to_exec-AppliedWell d e s none usable h w = record {
  status = w.status;
  sent = λ k. w.sent (rw h k);
}

after_commands-AppliedWell :
    (d : Device) (e : Entry) (s : Sent) (f : Option Failure) (at_exec : Bool)
    → s.failure ≡ f
    → SentWell d e.row_id 1 e.commands s
    → AppliedWell d e (after_commands d e.row_id s f at_exec)
unfolding after_commands row_failed sent_all
after_commands-AppliedWell d e s (some f) at_exec h w = record {
  status = w.status;
  sent = λ k. absurd (true≢false (sym k));
}
after_commands-AppliedWell d e s none true h w = record {
  status = w.status;
  sent = λ k. w.sent (rw h k);
}
after_commands-AppliedWell d e s none false h w =
    let r = return_to_exec d e.row_id 0 2 in
    returned_to_exec-AppliedWell d e (record s { log = s.log ++ r.log }) r.failure r.usable h
      (record { status = w.status; sent = w.sent })

pub apply_row-AppliedWell :
    (d : Device) (usable : Bool) (gate : Result Failure (Unit {0})) (e : Entry)
    → AppliedWell d e (apply_row d usable gate e)
unfolding apply_row apply_commands
apply_row-AppliedWell d usable (err f) e = record {
  status = refl;
  sent = λ k. absurd (true≢false (sym k));
}
apply_row-AppliedWell d false (ok _) e = record {
  status = refl;
  sent = λ k. absurd (true≢false (sym k));
}
apply_row-AppliedWell d true (ok _) e =
    let s = send_commands d e.row_id 1 Status.not_executed e.commands in
    after_commands-AppliedWell d e s s.failure (d.exec_after_commands e.row_id) refl
      (send_commands-SentWell d e.row_id 1 Status.not_executed e.commands refl)
