-- ===== src/Configuration/Worker/Order.antt =====
-- What stands behind a command that `device_worker` sends, and behind a row that it reports as Verified.
use orbit_flow_evo.Base.{
  ℕ, ◌+◌, ◌≡◌, refl, sym, ap, ◌∙◌, Bool, true, ◌&&◌, Option, none, some, List, [], ◌∷◌, ◌++◌, any,
  all, arith, inl, inr, Bool-cases, Result, ok, err, All, All-append, All-map, All-split,
}
use mathlib.Core.Path.{subst}
use mathlib.Core.List.{Mem, mem-cons_self, mem-cons_of_mem, append-nil}
use orbit_flow_evo.Base.Equality.{contains, contains-append, list_eq, nat_eq}
use orbit_flow_evo.Base.Texts.{Text}
use orbit_flow_evo.Configuration.Stages.{Entry, template_stages}
use orbit_flow_evo.Configuration.Worker.{
  Failure, Event, backup, command, recovery, save, Device, Row, State, Save, is_command,
}
use orbit_flow_evo.Configuration.Worker.Rows.{stage_gate, post_gate, dependencies_met}
use orbit_flow_evo.Configuration.Stages.Laws.{flatten, template_stages-flatten}
use orbit_flow_evo.Configuration.Worker.Logs.{log-apply_rows}
use orbit_flow_evo.Configuration.Worker.Run.{
  close_over, finish_rows, usable_after, row_ids, rows_left, apply_rows, log_of, verified_ids,
  finish_stage, run_stage, run_stages, no_save, saving, final_save, start, report, Report,
  connection, preparation, run_prepared, run_connected, run_opened, device_worker,
}

-- An entry of the plan stands behind a command of a row: the row is the entry's, the command is one that was
-- approved for it, and the rows that it depends on are among the verified.
pub record Approved (entries : List Entry) (verified : List Text) (rid sent : Text) : Type 0 where
  pub entry : Entry
  pub member : Mem entry entries
  pub row : entry.row_id ≡ rid
  pub command : contains entry.commands sent ≡ true
  pub dependencies : dependencies_met verified entry ≡ true

unfoldable pub Justified : List Entry → List Text → Event → Type 0
Justified entries verified (command rid _ sent) = Approved entries verified rid sent
Justified _ _ _ = Unit

all-append :
    (p : Text → Bool) (completed more xs : List Text)
    → all (contains completed) xs ≡ true
    → all (contains (completed ++ more)) xs ≡ true
all-append p completed more [] h = refl
all-append p completed more (x ∷ xs) h =
    ground (arith, contains-append completed more x, all-append p completed more xs)

dependencies_met-append :
    (completed more : List Text) (e : Entry)
    → dependencies_met completed e ≡ true
    → dependencies_met (completed ++ more) e ≡ true
unfolding dependencies_met
dependencies_met-append completed more e h =
    all-append (contains completed) completed more e.dependencies h

-- More verified rows justify no less.
Justified-append :
    (entries : List Entry) (verified more : List Text) (x : Event)
    → Justified entries verified x
    → Justified entries (verified ++ more) x
unfolding Justified
Justified-append entries verified more (command rid i sent) h = record {
  entry = h.entry;
  member = h.member;
  row = h.row;
  command = h.command;
  dependencies = dependencies_met-append verified more h.entry h.dependencies;
}
Justified-append entries verified more backup h = tt
Justified-append entries verified more (recovery _) h = tt
Justified-append entries verified more save h = tt

apply_rows-Justified :
    (all_entries : List Entry) (d : Device) (usable : Bool) (stage : Result Failure (Unit {0}))
    (completed : List Text) (entries : List Entry)
    → All (λ e. Mem e all_entries) entries
    → All (Justified all_entries completed) (log_of (apply_rows d usable stage completed entries))
unfolding Justified
apply_rows-Justified all_entries d usable stage completed entries h =
    log-apply_rows (Justified all_entries completed) (λ rid. tt) d usable stage completed entries
      (All-map
        (λ e member met i c approved. record {
          entry = e;
          member = member;
          row = refl;
          command = approved;
          dependencies = met;
        })
        entries h)

-- What holds of the worker between two stages: what was done is justified by the rows that are completed, and
-- these are the verified rows.
pub record Sound (entries : List Entry) (s : State) : Type 0 where
  pub justified : All (Justified entries s.completed) s.log
  pub completed : s.completed ≡ verified_ids s.rows

verified_ids-append :
    (xs ys : List Row) → verified_ids (xs ++ ys) ≡ verified_ids xs ++ verified_ids ys
unfolding verified_ids
verified_ids-append [] ys = refl
verified_ids-append (r ∷ xs) ys = ground (arith, verified_ids-append xs ys)

run_stage-Sound :
    (entries : List Entry) (d : Device) (number : ℕ) (s : State) (stage : List Entry)
    → All (λ e. Mem e entries) stage
    → Sound entries s
    → Sound entries (run_stage d number s stage)
unfolding run_stage finish_stage
run_stage-Sound entries d number s stage m h =
    let applied = apply_rows d s.usable (stage_gate d s.usable number) s.completed stage in
    let rows = finish_rows d (post_gate d (usable_after s.usable applied) number) applied in
    record {
      justified =
          All-map (Justified-append entries s.completed (verified_ids rows))
            (s.log ++ log_of applied)
            (All-append (Justified entries s.completed) s.log (log_of applied) h.justified (
              apply_rows-Justified entries d s.usable (stage_gate d s.usable number) s.completed
                stage m));
      completed =
          ap (λ ids. ids ++ verified_ids rows) h.completed ∙ sym (verified_ids-append s.rows rows);
    }

run_stages-Sound :
    (entries : List Entry) (d : Device) (number : ℕ) (s : State) (stages : List (List Entry))
    → All (λ e. Mem e entries) (flatten stages)
    → Sound entries s
    → Sound entries (run_stages d number s stages)
unfolding run_stages flatten
run_stages-Sound entries d number s [] m h = h
run_stages-Sound entries d number s (stage ∷ stages) m h =
    let parts = All-split (λ e. Mem e entries) stage (flatten stages) m in
    run_stages-Sound entries d (number + 1) (run_stage d number s stage) stages parts.1
      (run_stage-Sound entries d number s stage parts.0 h)

saving-Justified :
    (entries : List Entry) (verified : List Text) (r : Result Failure Save)
    → All (Justified entries verified) (saving r).log
unfolding saving Justified
saving-Justified entries verified (ok _) = (tt, tt)
saving-Justified entries verified (err _) = (tt, tt)

final_save-Justified :
    (entries : List Entry) (d : Device) (s : State)
    → All (Justified entries s.completed) (final_save d s).log
unfolding final_save
final_save-Justified entries d s = elim (Bool-cases (any is_command s.log)) [
  | inr unsent ↦ rw unsent tt
  | inl sent ↦ elim (Bool-cases (s.usable && d.session_at_end && d.exec_at_end)) [
    | inl t ↦ rw (sent, t) (saving-Justified entries s.completed d.save_configuration)
    | inr u ↦ rw (sent, u) tt
  ]
]

verified_ids-rows_left :
    (f : Failure) (done : List Text) (entries : List Entry)
    → verified_ids (rows_left f done entries) ≡ []
unfolding verified_ids rows_left
verified_ids-rows_left f done [] = refl
verified_ids-rows_left f done (e ∷ entries) = ground (arith, verified_ids-rows_left f done entries)

pub verified_ids-report :
    (entries : List Entry) (f : Option Failure) (rows : List Row) (s : Save) (log : List Event)
    → verified_ids (report entries f rows s log).rows ≡ verified_ids rows
unfolding report
verified_ids-report entries none rows s log = refl
verified_ids-report entries (some f) rows s log =
    verified_ids-append rows (rows_left f (row_ids rows) entries)
    ∙ ap (λ ids. verified_ids rows ++ ids) (verified_ids-rows_left f (row_ids rows) entries)
    ∙ append-nil (verified_ids rows)

log-report :
    (entries : List Entry) (f : Option Failure) (rows : List Row) (s : Save) (log : List Event)
    → (report entries f rows s log).log ≡ log
unfolding report
log-report entries none rows s log = refl
log-report entries (some f) rows s log = refl

abbrev pub IsJustified : List Entry → Report → Type 0
IsJustified entries r = All (Justified entries (verified_ids r.rows)) r.log

report-IsJustified :
    (entries : List Entry) (f : Option Failure) (rows : List Row) (s : Save) (log : List Event)
    → All (Justified entries (verified_ids rows)) log
    → IsJustified entries (report entries f rows s log)
report-IsJustified entries f rows s log h =
    rw (verified_ids-report entries f rows s log, log-report entries f rows s log) h

pub member_of_itself : (entries : List Entry) → All (λ e. Mem e entries) entries
member_of_itself [] = tt
member_of_itself (e ∷ entries) =
    (mem-cons_self, All-map (λ x m. mem-cons_of_mem e m) entries (member_of_itself entries))

-- After the last stage of a device.
pub run_stages-IsSound :
    (d : Device) (entries : List Entry)
    → Sound entries (run_stages d 1 start (template_stages entries))
unfolding start Justified verified_ids
run_stages-IsSound d entries =
    run_stages-Sound entries d 1 start (template_stages entries)
      (subst (All (λ e. Mem e entries)) (sym (template_stages-flatten entries))
        (member_of_itself entries))
      (record { justified = (tt, tt); completed = refl })

run_prepared-IsJustified :
    (d : Device) (entries : List Entry) → IsJustified entries (run_prepared d entries)
unfolding run_prepared start Justified
run_prepared-IsJustified d entries =
    let s = run_stages d 1 start (template_stages entries) in
    let end = final_save d s in
    let sound = run_stages-IsSound d entries in
    report-IsJustified entries (close_over d end.failure) s.rows end.result (s.log ++ end.log) (
      subst (λ ids. All (Justified entries ids) (s.log ++ end.log)) sound.completed
        (All-append (Justified entries s.completed) s.log end.log sound.justified
          (final_save-Justified entries d s)))

run_connected-IsJustified :
    (d : Device) (entries : List Entry) (r : Result Failure (Unit {0}))
    → IsJustified entries (run_connected d entries r)
unfolding run_connected
run_connected-IsJustified d entries (ok _) = run_prepared-IsJustified d entries
run_connected-IsJustified d entries (err f) =
    report-IsJustified entries (close_over d (some f)) [] no_save [] tt

run_opened-IsJustified :
    (d : Device) (entries : List Entry) (r : Result Failure (Unit {0}))
    → IsJustified entries (run_opened d entries r)
unfolding run_opened
run_opened-IsJustified d entries (ok _) = run_connected-IsJustified d entries (preparation d)
run_opened-IsJustified d entries (err f) = report-IsJustified entries (some f) [] no_save [] tt

-- Every command that the worker sends for a row was approved for an entry of the plan with that row's id, and
-- every row that the entry depends on is reported as Verified.
pub device_worker-IsJustified :
    (d : Device) (entries : List Entry) → IsJustified entries (device_worker d entries)
unfolding device_worker
device_worker-IsJustified d entries = run_opened-IsJustified d entries (connection d)
