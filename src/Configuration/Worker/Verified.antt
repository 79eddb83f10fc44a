-- ===== src/Configuration/Worker/Verified.antt =====
-- What stands behind a row that `device_worker` of src/orbitflow/configuration/execution.py reports as Verified.
use orbit_flow_evo.Base.{
  ℕ, ◌+◌, ◌≡◌, refl, sym, Bool, true, false, Option, none, some, List, [], ◌∷◌, ◌++◌, arith, inl,
  inr, Bool-cases, Result, ok, err, All, All-append, All-split,
}
use mathlib.Core.Path.{subst}
use mathlib.Core.Bool.{true≢false}
use mathlib.Core.List.{Mem}
use orbit_flow_evo.Base.Equality.{contains, list_eq, nat_eq}
use orbit_flow_evo.Base.Texts.{Text}
use orbit_flow_evo.Configuration.Stages.{Entry, template_stages}
use orbit_flow_evo.Configuration.Stages.Laws.{flatten, template_stages-flatten}
use orbit_flow_evo.Configuration.Worker.{
  Failure, Event, Device, Row, State, Save, Status, is_verified,
}
use orbit_flow_evo.Configuration.Worker.Rows.{
  stage_gate, row_gate, Applied, apply_row, post_gate, verification, verified_row, finish_row,
}
use orbit_flow_evo.Configuration.Worker.Run.{
  apply_rows, usable_after, finish_rows, finish_stage, run_stage, run_stages, no_save, final_save,
  start, report, rows_left, row_ids, close_over, connection, preparation, run_prepared,
  run_connected, run_opened, device_worker,
}
use orbit_flow_evo.Configuration.Worker.Order.{member_of_itself}
use orbit_flow_evo.Configuration.Worker.Sending.{all_returned, AppliedWell, apply_row-AppliedWell}

-- What stands behind the status of a row: a Verified row is the row of an entry whose commands all came back
-- without a rejection, and whose verification answered Verified.
pub record Checked (d : Device) (entries : List Entry) (rid : Text) : Type 0 where
  pub entry : Entry
  pub member : Mem entry entries
  pub row : entry.row_id ≡ rid
  pub sent : all_returned d rid 1 entry.commands ≡ true
  pub read : d.verify rid ≡ ok Status.verified

unfoldable pub Proved : Device → List Entry → Text → Status → Type 0
Proved d entries rid Status.verified = Checked d entries rid
Proved _ _ _ _ = Unit

abbrev pub RowProved : Device → List Entry → Row → Type 0
RowProved d entries row = Proved d entries row.row_id row.status

is_not_verified :
    (d : Device) (entries : List Entry) (rid : Text) (s : Status)
    → is_verified s ≡ false
    → Proved d entries rid s
unfolding Proved
is_not_verified d entries rid Status.verified h = absurd (true≢false h)
is_not_verified d entries rid Status.unknown h = tt
is_not_verified d entries rid Status.failed h = tt
is_not_verified d entries rid Status.not_executed h = tt

verify-verification :
    (d : Device) (post : Result Failure (Unit {0})) (e : Entry) (s : Status)
    → verification d post e ≡ ok s
    → d.verify e.row_id ≡ ok s
unfolding verification
verify-verification d (ok _) e s h = h
verify-verification d (err f) e s h = ground arith

module _ (d : Device) (entries : List Entry) where
  verified_row-RowProved :
      (e : Entry) (a : Applied) (r : Result Failure Status)
      → Mem e entries
      → AppliedWell d e a
      → a.verify ≡ true
      → ((s : Status) → r ≡ ok s → d.verify e.row_id ≡ ok s)
      → RowProved d entries (verified_row e a r)
  unfolding verified_row Proved
  verified_row-RowProved e a (err f) m w v h = elim (Bool-cases a.rejected) [
    | inl t ↦ rw t tt
    | inr u ↦ rw u tt
  ]
  verified_row-RowProved e a (ok Status.verified) m w v h = elim (Bool-cases a.rejected) [
    | inl t ↦ rw t tt
    | inr u ↦ rw u (record {
      entry = e;
      member = m;
      row = refl;
      sent = w.sent (rw (v, u) refl);
      read = h Status.verified refl;
    })
  ]
  verified_row-RowProved e a (ok s) m w v h = elim (Bool-cases a.rejected) [
    | inl t ↦ rw t tt
    | inr u ↦ rw u tt
  ]

  finish_row-RowProved :
      (post : Result Failure (Unit {0})) (e : Entry) (a : Applied)
      → Mem e entries
      → AppliedWell d e a
      → RowProved d entries (finish_row d post e a)
  unfolding finish_row
  finish_row-RowProved post e a m w = elim (Bool-cases a.verify) [
    | inl t ↦ rw t (
        verified_row-RowProved e a (verification d post e) m w t
          (λ s k. verify-verification d post e s k))
    | inr u ↦ rw u (is_not_verified d entries e.row_id a.status w.status)
  ]

  finish_rows-RowProved :
      (usable : Bool) (stage post : Result Failure (Unit {0})) (completed : List Text)
      (es : List Entry)
      → All (λ e. Mem e entries) es
      → All (RowProved d entries) (finish_rows d post (apply_rows d usable stage completed es))
  unfolding finish_rows apply_rows
  finish_rows-RowProved usable stage post completed [] m = tt
  finish_rows-RowProved usable stage post completed (e ∷ es) m =
      let gate = row_gate d stage completed e in
      let a = apply_row d usable gate e in
      (
        finish_row-RowProved post e a m.0 (apply_row-AppliedWell d usable gate e),
        finish_rows-RowProved a.usable stage post completed es m.1,
      )

  run_stages-RowProved :
      (number : ℕ) (s : State) (stages : List (List Entry))
      → All (λ e. Mem e entries) (flatten stages)
      → All (RowProved d entries) s.rows
      → All (RowProved d entries) (run_stages d number s stages).rows
  unfolding run_stages run_stage finish_stage flatten
  run_stages-RowProved number s [] m h = h
  run_stages-RowProved number s (stage ∷ stages) m h =
      let parts = All-split (λ e. Mem e entries) stage (flatten stages) m in
      let gate = stage_gate d s.usable number in
      let applied = apply_rows d s.usable gate s.completed stage in
      let post = post_gate d (usable_after s.usable applied) number in
      run_stages-RowProved (number + 1) (run_stage d number s stage) stages parts.1 (
        All-append (RowProved d entries) s.rows (finish_rows d post applied) h
          (finish_rows-RowProved s.usable gate post s.completed stage parts.0))

  rows_left-RowProved :
      (f : Failure) (done : List Text) (es : List Entry)
      → All (RowProved d entries) (rows_left f done es)
  unfolding rows_left Proved
  rows_left-RowProved f done [] = tt
  rows_left-RowProved f done (e ∷ es) = elim (Bool-cases (contains done e.row_id)) [
    | inl t ↦ rw t (rows_left-RowProved f done es)
    | inr u ↦ rw u (tt, rows_left-RowProved f done es)
  ]

  report-RowProved :
      (f : Option Failure) (rows : List Row) (s : Save) (log : List Event)
      → All (RowProved d entries) rows
      → All (RowProved d entries) (report entries f rows s log).rows
  unfolding report
  report-RowProved none rows s log h = h
  report-RowProved (some f) rows s log h =
      All-append (RowProved d entries) rows (rows_left f (row_ids rows) entries) h
        (rows_left-RowProved f (row_ids rows) entries)

  run_prepared-RowProved : All (RowProved d entries) (run_prepared d entries).rows
  unfolding run_prepared start
  run_prepared-RowProved =
      let s = run_stages d 1 start (template_stages entries) in
      let end = final_save d s in
      report-RowProved (close_over d end.failure) s.rows end.result (s.log ++ end.log) (
        run_stages-RowProved 1 start (template_stages entries)
          (subst (All (λ e. Mem e entries)) (sym (template_stages-flatten entries))
            (member_of_itself entries))
          tt)

  run_connected-RowProved :
      (r : Result Failure (Unit {0})) → All (RowProved d entries) (run_connected d entries r).rows
  unfolding run_connected
  run_connected-RowProved (ok _) = run_prepared-RowProved
  run_connected-RowProved (err f) = report-RowProved (close_over d (some f)) [] no_save [] tt

  run_opened-RowProved :
      (r : Result Failure (Unit {0})) → All (RowProved d entries) (run_opened d entries r).rows
  unfolding run_opened
  run_opened-RowProved (ok _) = run_connected-RowProved (preparation d)
  run_opened-RowProved (err f) = report-RowProved (some f) [] no_save [] tt

-- A row is reported as Verified only when it is the row of an entry of the plan whose approved commands all came
-- back without a rejection, and the verification of the row answered Verified.
pub device_worker-RowProved :
    (d : Device) (entries : List Entry) → All (RowProved d entries) (device_worker d entries).rows
unfolding device_worker
device_worker-RowProved d entries = run_opened-RowProved d entries (connection d)
