-- ===== src/Configuration/Worker/Run.antt =====
-- The stages of `device_worker`, the save after them, what the worker reports, and how `worker` and `persist`
-- judge the report.
use orbit_flow_evo.Base.{
  ℕ, ◌+◌, Bool, true, false, ◌&&◌, Option, none, some, List, [], ◌∷◌, ◌++◌, any, if◌then◌else◌,
  Result, ok, err, ◌>>◌, guard,
}
use orbit_flow_evo.Base.Equality.{contains, list_eq, list_beq, nat_eq}
use orbit_flow_evo.Base.Texts.{Text}
use orbit_flow_evo.Configuration.Stages.{Entry, template_stages}
use orbit_flow_evo.Configuration.Worker.{
  fresh_identity_mismatch, Failure, blocked, plan_error, not_executed, Event, backup, save,
  not_required, save_unknown, Save, Device, Row, State, raises, is_command, is_verified,
}
use orbit_flow_evo.Configuration.Worker.Rows.{
  stage_gate, row_gate, Applied, apply_row, post_gate, finish_row,
}

-- The rows of a stage after their commands, in order, with what the gates answered before the first command.
unfoldable pub apply_rows :
    Device → Bool → Result Failure (Unit {0}) → List Text → List Entry → List (Entry × Applied)
unfolding row_gate apply_row
apply_rows d usable stage completed [] = []
apply_rows d usable stage completed (e ∷ entries) =
    let a = apply_row d usable (row_gate d stage completed e) e in
    (e, a) ∷ apply_rows d a.usable stage completed entries

-- `usable` after the rows.
unfoldable pub usable_after : Bool → List (Entry × Applied) → Bool
usable_after usable [] = usable
usable_after usable (row ∷ rows) = usable_after row.1.usable rows

unfoldable pub log_of : List (Entry × Applied) → List Event
log_of [] = []
log_of (row ∷ rows) = row.1.log ++ log_of rows

unfoldable pub finish_rows : Device → Result Failure (Unit {0}) → List (Entry × Applied) → List Row
unfolding finish_row
finish_rows d post [] = []
finish_rows d post (row ∷ rows) = finish_row d post row.0 row.1 ∷ finish_rows d post rows

-- The ids of the verified rows.
unfoldable pub verified_ids : List Row → List Text
verified_ids [] = []
verified_ids (row ∷ rows) =
    let rest = verified_ids rows in if is_verified row.status then row.row_id ∷ rest else rest

unfoldable pub finish_stage : Device → ℕ → State → List (Entry × Applied) → State
unfolding usable_after log_of finish_rows verified_ids post_gate
finish_stage d number s applied =
    let usable = usable_after s.usable applied in
    let rows = finish_rows d (post_gate d usable number) applied in
    record {
      usable = usable;
      completed = s.completed ++ verified_ids rows;
      rows = s.rows ++ rows;
      log = s.log ++ log_of applied;
    }

unfoldable pub run_stage : Device → ℕ → State → List Entry → State
unfolding finish_stage apply_rows stage_gate
run_stage d number s entries =
    finish_stage d number s
      (apply_rows d s.usable (stage_gate d s.usable number) s.completed entries)

unfoldable pub run_stages : Device → ℕ → State → List (List Entry) → State
unfolding run_stage
run_stages d number s [] = s
run_stages d number s (stage ∷ stages) =
    run_stages d (number + 1) (run_stage d number s stage) stages

-- `require` and `connect_device`.
unfoldable pub connection : Device → Result Failure (Unit {0})
connection d = guard d.has_credentials plan_error >> raises d.connect

-- From the open session to the written backup.
unfoldable pub preparation : Device → Result Failure (Unit {0})
preparation d =
    raises d.open_shell
    >> raises d.identify
    >> guard d.identities_match (blocked fresh_identity_mismatch)
    >> raises d.preflight
    >> guard d.exec_at_start plan_error
    >> raises d.collect_backup
    >> raises d.write_backup

-- The save, what it raises, and whether it was begun.
pub record Saving : Type 0 where
  pub result : Save
  pub failure : Option Failure
  pub log : List Event

abbrev pub no_save : Save
no_save = record { status = not_required; explicit_error = false }

abbrev pub incomplete_save : Save
incomplete_save = record { status = save_unknown; explicit_error = false }

unfoldable pub saving : Result Failure Save → Saving
saving (ok s) = record { result = s; failure = none; log = save ∷ [] }
saving (err f) = record { result = incomplete_save; failure = some f; log = save ∷ [] }

-- The `finally` after the stages.
unfoldable pub final_save : Device → State → Saving
unfolding saving
final_save d s =
    if any is_command s.log
    then (if s.usable && d.session_at_end && d.exec_at_end
        then saving d.save_configuration
        else record { result = incomplete_save; failure = none; log = [] })
    else record { result = no_save; failure = none; log = [] }

pub record Report : Type 0 where
  pub rows : List Row
  pub save : Save
  pub failure : Option Failure
  pub log : List Event

abbrev pub row_ids : List Row → List Text
row_ids [] = []
row_ids (row ∷ rows) = row.row_id ∷ row_ids rows

-- The handler of the worker: every entry without a row gets one, and `done` stays as it was.
unfoldable pub rows_left : Failure → List Text → List Entry → List Row
unfolding list_beq
rows_left f done [] = []
rows_left f done (e ∷ entries) =
    let rest = rows_left f done entries in
    if contains done e.row_id
    then rest
    else record { row_id = e.row_id; status = not_executed; failure = some f } ∷ rest

-- What the worker returns, over what was raised.
unfoldable pub report : List Entry → Option Failure → List Row → Save → List Event → Report
unfolding rows_left
report entries none rows s log = record { rows = rows; save = s; failure = none; log = log }
report entries (some f) rows s log = record {
  rows = rows ++ rows_left f (row_ids rows) entries;
  save = s;
  failure = some f;
  log = log;
}

-- An error on leaving the session takes the place of an earlier one.
abbrev pub close_over : Device → Option Failure → Option Failure
close_over d earlier = elim d.close_session [ none ↦ earlier | some f ↦ some f ]

unfoldable pub start : State
start = record { usable = true; completed = []; rows = []; log = backup ∷ [] }

unfoldable pub run_prepared : Device → List Entry → Report
unfolding run_stages final_save report start
run_prepared d entries =
    let s = run_stages d 1 start (template_stages entries) in
    let saving = final_save d s in
    report entries (close_over d saving.failure) s.rows saving.result (s.log ++ saving.log)

unfoldable pub run_connected : Device → List Entry → Result Failure (Unit {0}) → Report
unfolding report run_prepared
run_connected d entries (err f) = report entries (close_over d (some f)) [] no_save []
run_connected d entries (ok _) = run_prepared d entries

unfoldable pub run_opened : Device → List Entry → Result Failure (Unit {0}) → Report
unfolding report run_connected preparation
run_opened d entries (err f) = report entries (some f) [] no_save []
run_opened d entries (ok _) = run_connected d entries (preparation d)

unfoldable pub device_worker : Device → List Entry → Report
unfolding run_opened connection
device_worker d entries = run_opened d entries (connection d)
