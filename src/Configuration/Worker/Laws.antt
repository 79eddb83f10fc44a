-- ===== src/Configuration/Worker/Laws.antt =====
-- Which rows `device_worker` reports, and what it does on an unusable session.
use orbit_flow_evo.Base.{
  ℕ, ◌+◌, ◌≡◌, refl, sym, ap, ◌∙◌, Bool, true, false, Option, none, some, List, [], ◌∷◌, ◌++◌,
  arith, inl, inr, Option-cases, Result, ok, err,
}
use mathlib.Core.Bool.{true≢false}
use mathlib.Core.List.{append_assoc, append-nil}
use orbit_flow_evo.Base.Equality.{contains, contains-append, list_eq, nat_eq, eq_self}
use orbit_flow_evo.Base.Texts.{Text}
use orbit_flow_evo.Configuration.Stages.{Entry, template_stages}
use orbit_flow_evo.Configuration.Stages.Laws.{flatten, template_stages-flatten}
use orbit_flow_evo.Configuration.Worker.{Failure, Device, Row, State, Save, Event}
use orbit_flow_evo.Configuration.Worker.Rows.{
  stage_gate, row_gate, apply_row, Applied, verification, verified_row, finish_row, post_gate,
}
use orbit_flow_evo.Configuration.Worker.Run.{
  apply_rows, log_of, usable_after, finish_rows, finish_stage, run_stage, run_stages, row_ids,
  rows_left, report, connection, preparation, start, run_prepared, run_connected, run_opened,
  device_worker,
}

abbrev pub entry_ids : List Entry → List Text
entry_ids [] = []
entry_ids (e ∷ entries) = e.row_id ∷ entry_ids entries

pub entry_ids-append : (xs ys : List Entry) → entry_ids (xs ++ ys) ≡ entry_ids xs ++ entry_ids ys
entry_ids-append [] ys = refl
entry_ids-append (e ∷ xs) ys = ap (λ r. e.row_id ∷ r) (entry_ids-append xs ys)

row_ids-append : (xs ys : List Row) → row_ids (xs ++ ys) ≡ row_ids xs ++ row_ids ys
row_ids-append [] ys = refl
row_ids-append (r ∷ xs) ys = ap (λ l. r.row_id ∷ l) (row_ids-append xs ys)

pub row_id-finish_row :
    (d : Device) (post : Result Failure (Unit {0})) (e : Entry) (a : Applied)
    → (finish_row d post e a).row_id ≡ e.row_id
unfolding finish_row verified_row verification
row_id-finish_row d (err f) e a = ground arith
row_id-finish_row d (ok _) e a = ground arith

row_ids-finish_rows :
    (d : Device) (post stage : Result Failure (Unit {0})) (usable : Bool) (completed : List Text)
    (entries : List Entry)
    → row_ids (finish_rows d post (apply_rows d usable stage completed entries)) ≡ entry_ids entries
unfolding finish_rows apply_rows
row_ids-finish_rows d post stage usable completed [] = refl
row_ids-finish_rows d post stage usable completed (e ∷ entries) =
    let a = apply_row d usable (row_gate d stage completed e) e in
    rw (row_id-finish_row d post e a, row_ids-finish_rows d post stage a.usable completed entries)
      refl

row_ids-run_stage :
    (d : Device) (number : ℕ) (s : State) (stage : List Entry)
    → row_ids (run_stage d number s stage).rows ≡ row_ids s.rows ++ entry_ids stage
unfolding run_stage finish_stage
row_ids-run_stage d number s stage =
    let gate = stage_gate d s.usable number in
    let applied = apply_rows d s.usable gate s.completed stage in
    let post = post_gate d (usable_after s.usable applied) number in
    row_ids-append s.rows (finish_rows d post applied)
    ∙ ap (λ r. row_ids s.rows ++ r) (row_ids-finish_rows d post gate s.usable s.completed stage)

row_ids-run_stages :
    (d : Device) (number : ℕ) (s : State) (stages : List (List Entry))
    → row_ids (run_stages d number s stages).rows ≡ row_ids s.rows ++ entry_ids (flatten stages)
unfolding run_stages flatten
row_ids-run_stages d number s [] = sym (append-nil (row_ids s.rows))
row_ids-run_stages d number s (stage ∷ stages) =
    row_ids-run_stages d (number + 1) (run_stage d number s stage) stages
    ∙ ap (λ r. r ++ entry_ids (flatten stages)) (row_ids-run_stage d number s stage)
    ∙ append_assoc (row_ids s.rows) (entry_ids stage) (entry_ids (flatten stages))
    ∙ ap (λ r. row_ids s.rows ++ r) (sym (entry_ids-append stage (flatten stages)))

contains-present : (pre ids : List Text) (a : Text) → contains (pre ++ a ∷ ids) a ≡ true
contains-present pre ids a = ground (arith, contains-append pre (a ∷ ids) a, eq_self a)

-- No row is left when every entry was reported.
rows_left-reported :
    (f : Failure) (pre : List Text) (entries : List Entry)
    → rows_left f (pre ++ entry_ids entries) entries ≡ []
unfolding rows_left
rows_left-reported f pre [] = refl
rows_left-reported f pre (e ∷ entries) = rw (contains-present pre (entry_ids entries) e.row_id) (
    ap (λ done. rows_left f done entries)
      (sym (append_assoc pre (e.row_id ∷ []) (entry_ids entries)))
    ∙ rows_left-reported f (pre ++ e.row_id ∷ []) entries)

row_ids-rows_left :
    (f : Failure) (entries : List Entry) → row_ids (rows_left f [] entries) ≡ entry_ids entries
unfolding rows_left
row_ids-rows_left f [] = refl
row_ids-rows_left f (e ∷ entries) = ap (λ r. e.row_id ∷ r) (row_ids-rows_left f entries)

row_ids-report :
    (entries : List Entry) (f : Option Failure) (rows : List Row) (s : Save) (log : List Event)
    → row_ids rows ≡ entry_ids entries
    → row_ids (report entries f rows s log).rows ≡ entry_ids entries
unfolding report
row_ids-report entries none rows s log h = h
row_ids-report entries (some f) rows s log h =
    row_ids-append rows (rows_left f (row_ids rows) entries)
    ∙ ap (λ ids. row_ids rows ++ row_ids (rows_left f ids entries)) h
    ∙ ap (λ l. row_ids rows ++ row_ids l) (rows_left-reported f [] entries)
    ∙ append-nil (row_ids rows)
    ∙ h

row_ids-run_prepared :
    (d : Device) (entries : List Entry) → row_ids (run_prepared d entries).rows ≡ entry_ids entries
unfolding run_prepared start
row_ids-run_prepared d entries =
    row_ids-report entries _ (run_stages d 1 start (template_stages entries)).rows _ _ (
      row_ids-run_stages d 1 start (template_stages entries)
      ∙ ap entry_ids (template_stages-flatten entries))

row_ids-run_connected :
    (d : Device) (entries : List Entry) (r : Result Failure (Unit {0}))
    → row_ids (run_connected d entries r).rows ≡ entry_ids entries
unfolding run_connected report
row_ids-run_connected d entries (ok _) = row_ids-run_prepared d entries
row_ids-run_connected d entries (err f) = elim (Option-cases d.close_session) [
  | inl h ↦ rw h (row_ids-rows_left f entries)
  | inr h ↦ rw h.1 (row_ids-rows_left h.0 entries)
]

row_ids-run_opened :
    (d : Device) (entries : List Entry) (r : Result Failure (Unit {0}))
    → row_ids (run_opened d entries r).rows ≡ entry_ids entries
unfolding run_opened report
row_ids-run_opened d entries (ok _) = row_ids-run_connected d entries (preparation d)
row_ids-run_opened d entries (err f) = row_ids-rows_left f entries

-- Whatever the device answers and wherever the worker fails, its report has one row for each approved entry,
-- in the approved order.
pub row_ids-device_worker :
    (d : Device) (entries : List Entry) → row_ids (device_worker d entries).rows ≡ entry_ids entries
unfolding device_worker
row_ids-device_worker d entries = row_ids-run_opened d entries (connection d)

-- A row on an unusable session.
apply_row-unusable :
    (d : Device) (usable : Bool) (gate : Result Failure (Unit {0})) (e : Entry)
    → usable ≡ false
    → ((apply_row d usable gate e).log ≡ []) × ((apply_row d usable gate e).usable ≡ false)
unfolding apply_row
apply_row-unusable d usable (err f) e h = (refl, h)
apply_row-unusable d false (ok _) e h = (refl, refl)
apply_row-unusable d true (ok _) e h = absurd (true≢false h)

apply_rows-unusable :
    (d : Device) (usable : Bool) (gate : Result Failure (Unit {0})) (completed : List Text)
    (entries : List Entry)
    → usable ≡ false
    → (log_of (apply_rows d usable gate completed entries) ≡ [])
      × (usable_after usable (apply_rows d usable gate completed entries) ≡ false)
unfolding apply_rows log_of usable_after
apply_rows-unusable d usable gate completed [] h = (refl, h)
apply_rows-unusable d usable gate completed (e ∷ entries) h =
    let a = apply_row-unusable d usable (row_gate d gate completed e) e h in
    let next = (apply_row d usable (row_gate d gate completed e) e).usable in
    let rest = apply_rows-unusable d next gate completed entries a.1 in
    (ap (λ l. l ++ log_of (apply_rows d next gate completed entries)) a.0 ∙ rest.0, rest.1)

run_stage-unusable :
    (d : Device) (number : ℕ) (s : State) (stage : List Entry)
    → s.usable ≡ false
    → ((run_stage d number s stage).log ≡ s.log) × ((run_stage d number s stage).usable ≡ false)
unfolding run_stage finish_stage
run_stage-unusable d number s stage h =
    let quiet = apply_rows-unusable d s.usable (stage_gate d s.usable number) s.completed stage h in
    (ap (λ l. s.log ++ l) quiet.0 ∙ append-nil s.log, quiet.1)

-- Once the session is unusable, the later stages send nothing to the device, and it stays unusable.
pub run_stages-unusable :
    (d : Device) (number : ℕ) (s : State) (stages : List (List Entry))
    → s.usable ≡ false
    → ((run_stages d number s stages).log ≡ s.log) × ((run_stages d number s stages).usable ≡ false)
unfolding run_stages
run_stages-unusable d number s [] h = (refl, h)
run_stages-unusable d number s (stage ∷ stages) h =
    let first = run_stage-unusable d number s stage h in
    let rest = run_stages-unusable d (number + 1) (run_stage d number s stage) stages first.1 in
    (rest.0 ∙ first.0, rest.1)
