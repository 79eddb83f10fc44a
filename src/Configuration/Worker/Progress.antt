-- ===== src/Configuration/Worker/Progress.antt =====
-- What becomes of the rows on a device on which every step goes well.
use orbit_flow_evo.Base.{
  ℕ, ◌+◌, ◌≡◌, refl, sym, ap, ◌∙◌, Bool, true, false, ◌&&◌, Option, none, some, List, [], ◌∷◌, ◌++◌,
  inl, inr, Bool-cases, ok, nat_beq, All, All-intro,
}
use mathlib.Core.Path.{subst, ap₂}
use mathlib.Core.Bool.{true≢false}
use mathlib.Core.Option.{none-ne-some}
use mathlib.Core.List.{append_assoc, append-nil}
use orbit_flow_evo.Base.Equality.{list_eq, nat_eq}
use orbit_flow_evo.Base.Texts.{Text, is_nil}
use orbit_flow_evo.Configuration.Stages.{Entry, template_stages}
use orbit_flow_evo.Configuration.Stages.Laws.{
  IsIndependent, flatten, template_stages-flatten, template_stages-IsIndependent,
}
use orbit_flow_evo.Configuration.Worker.{Failure, Device, State, Status, returned}
use orbit_flow_evo.Configuration.Worker.Rows.{
  stage_gate, row_gate, dependencies_met, Sent, Applied, send_command, send_commands, sent_all,
  after_commands, apply_commands, apply_row, post_gate, verification, verified_row, finish_row,
}
use orbit_flow_evo.Configuration.Worker.Run.{
  close_over, apply_rows, usable_after, verified_ids, finish_rows, finish_stage, run_stage,
  run_stages, final_save, start, connection, preparation, run_prepared, run_connected, run_opened,
  device_worker,
}
use orbit_flow_evo.Configuration.Worker.Order.{run_stages-IsSound, verified_ids-report}
use orbit_flow_evo.Configuration.Worker.Laws.{entry_ids-append, entry_ids, row_id-finish_row}
use orbit_flow_evo.Configuration.Worker.Closure.{IsClosed, avoids, earlier_stages}

-- Every step of the device goes well.
pub record Favourable (d : Device) : Type 0 where
  pub credentials : d.has_credentials ≡ true
  pub connect : d.connect ≡ none
  pub shell : d.open_shell ≡ none
  pub identify : d.identify ≡ none
  pub identity : d.identities_match ≡ true
  pub preflight : d.preflight ≡ none
  pub exec : d.exec_at_start ≡ true
  pub collected : d.collect_backup ≡ none
  pub written : d.write_backup ≡ none
  pub session : (n : ℕ) → d.stage_session n ≡ none
  pub stage_exec : (n : ℕ) → d.stage_exec n ≡ true
  pub observed : (n : ℕ) → d.stage_observe n ≡ none
  pub reliable : (n : ℕ) → d.stage_reliable n ≡ true
  pub evidence : (rid : Text) → d.evidence rid ≡ none
  pub target : (rid : Text) → d.check_target rid ≡ none
  pub vlans : (rid : Text) → d.lacks_vlans rid ≡ false
  pub mode : (rid : Text) (i : ℕ) → d.execution_mode rid i ≡ none
  pub response : (rid : Text) (i : ℕ) → d.respond rid i ≡ returned
  pub back : (rid : Text) → d.exec_after_commands rid ≡ true
  pub post_session : (n : ℕ) → d.post_session n ≡ none
  pub post_exec : (n : ℕ) → d.post_exec n ≡ true
  pub post_observed : (n : ℕ) → d.post_observe n ≡ none
  pub post_reliable : (n : ℕ) → d.post_reliable n ≡ true
  pub verified : (rid : Text) → d.verify rid ≡ ok Status.verified
  pub at_end : d.session_at_end && d.exec_at_end ≡ true
  pub closed : d.close_session ≡ none

module _ (d : Device) (g : Favourable d) where
  stage_gate-passes : (n : ℕ) → stage_gate d true n ≡ ok tt
  unfolding stage_gate
  stage_gate-passes n = elim (Bool-cases (nat_beq n 1)) [
    | inl y ↦ rw (g.session n, g.stage_exec n, g.observed n, g.reliable n, y) refl
    | inr m ↦ rw (g.session n, g.stage_exec n, g.observed n, g.reliable n, m) refl
  ]

  row_gate-passes :
      (completed : List Text) (e : Entry)
      → dependencies_met completed e ≡ true
      → row_gate d (ok tt) completed e ≡ ok tt
  unfolding row_gate
  row_gate-passes completed e h =
      rw (h, g.evidence e.row_id, g.target e.row_id, g.vlans e.row_id) refl

  post_gate-passes : (n : ℕ) → post_gate d true n ≡ ok tt
  unfolding post_gate
  post_gate-passes n =
      rw (g.post_session n, g.post_exec n, g.post_observed n, g.post_reliable n) refl

  -- The commands all come back.
  sent_well :
      (rid : Text) (i : ℕ) (status : Status) (commands : List Text)
      → ((send_commands d rid i status commands).failure ≡ none)
        × ((send_commands d rid i status commands).rejected ≡ false)
  unfolding send_commands send_command
  sent_well rid i status [] = (refl, refl)
  sent_well rid i status (c ∷ commands) =
      rw (g.mode rid i, g.response rid i) (sent_well rid (i + 1) Status.unknown commands)

  -- What a row comes to.
  record Fine (a : Applied) : Type 0 where
    verify : a.verify ≡ true
    rejected : a.rejected ≡ false
    usable : a.usable ≡ true

  after_commands-Fine :
      (rid : Text) (s : Sent) (f : Option Failure) (at_exec : Bool)
      → f ≡ none
      → at_exec ≡ true
      → s.rejected ≡ false
      → Fine (after_commands d rid s f at_exec)
  unfolding after_commands sent_all
  after_commands-Fine rid s none true h k r = record { verify = refl; rejected = r; usable = refl }
  after_commands-Fine rid s none false h k r = absurd (true≢false (sym k))
  after_commands-Fine rid s (some f) at_exec h k r = absurd (none-ne-some f (sym h))

  apply_row-Fine : (e : Entry) → Fine (apply_row d true (ok tt) e)
  unfolding apply_row apply_commands
  apply_row-Fine e =
      let s = sent_well e.row_id 1 Status.not_executed e.commands in
      let sent = send_commands d e.row_id 1 Status.not_executed e.commands in
      after_commands-Fine e.row_id sent sent.failure (d.exec_after_commands e.row_id) s.0
        (g.back e.row_id) s.1

  finish_row-verified :
      (e : Entry) (a : Applied) → Fine a → (finish_row d (ok tt) e a).status ≡ Status.verified
  unfolding finish_row verified_row verification
  finish_row-verified e a w = rw (w.verify, g.verified e.row_id, w.rejected) refl

  -- A stage whose rows all depend on completed rows.
  stage_well :
      (completed : List Text) (entries : List Entry)
      → All (λ e. dependencies_met completed e ≡ true) entries
      → (usable_after true (apply_rows d true (ok tt) completed entries) ≡ true)
        × (verified_ids (finish_rows d (ok tt) (apply_rows d true (ok tt) completed entries))
            ≡ entry_ids entries)
  unfolding apply_rows usable_after finish_rows verified_ids
  stage_well completed [] h = (refl, refl)
  stage_well completed (e ∷ entries) h =
      let a = apply_row-Fine e in
      let rest = stage_well completed entries h.1 in
      rw (row_gate-passes completed e h.0) (
        rw (a.usable, finish_row-verified e (apply_row d true (ok tt) e) a)
          (
            rest.0,
            ap₂ (λ x y. x ∷ y) (row_id-finish_row d (ok tt) e (apply_row d true (ok tt) e)) rest.1,
          ))

  run_stage-well :
      (n : ℕ) (s : State) (stage : List Entry)
      → s.usable ≡ true
      → All (λ e. dependencies_met s.completed e ≡ true) stage
      → ((run_stage d n s stage).usable ≡ true)
        × ((run_stage d n s stage).completed ≡ s.completed ++ entry_ids stage)
  unfolding run_stage finish_stage
  run_stage-well n s stage u h =
      let w = stage_well s.completed stage h in
      rw (u, stage_gate-passes n)
        (rw (w.0) (refl, rw (post_gate-passes n) (ap (λ l. s.completed ++ l) w.1)))

  run_stages-well :
      (n : ℕ) (s : State) (stages : List (List Entry))
      → s.usable ≡ true
      → All (λ stage. (is_nil stage ≡ false) × IsIndependent stage) stages
      → IsClosed s.completed (flatten stages)
      → (run_stages d n s stages).completed ≡ s.completed ++ entry_ids (flatten stages)
  unfolding run_stages flatten
  run_stages-well n s [] u i c = sym (append-nil s.completed)
  run_stages-well n s (stage ∷ stages) u i c =
      let closed =
        earlier_stages s.completed [] stage (flatten stages)
          (subst (λ l. IsClosed l (stage ++ flatten stages)) (sym (append-nil s.completed)) c) i.0.1
          (All-intro (λ f. avoids [] f ≡ true) (λ f. refl) stage) in
      let first = run_stage-well n s stage u closed.0 in
      run_stages-well (n + 1) (run_stage d n s stage) stages first.0 i.1
        (subst (λ l. IsClosed l (flatten stages)) (sym first.1) closed.1)
      ∙ ap (λ l. l ++ entry_ids (flatten stages)) first.1
      ∙ append_assoc s.completed (entry_ids stage) (entry_ids (flatten stages))
      ∙ ap (λ l. s.completed ++ l) (sym (entry_ids-append stage (flatten stages)))

  run_prepared-verified :
      (entries : List Entry)
      → IsClosed [] entries
      → verified_ids (run_prepared d entries).rows ≡ entry_ids entries
  unfolding run_prepared start
  run_prepared-verified entries c =
      let s = run_stages d 1 start (template_stages entries) in
      let end = final_save d s in
      verified_ids-report entries (close_over d end.failure) s.rows end.result (s.log ++ end.log)
      ∙ sym (run_stages-IsSound d entries).completed
      ∙ run_stages-well 1 start (template_stages entries) refl
          (template_stages-IsIndependent entries)
          (subst (IsClosed []) (sym (template_stages-flatten entries)) c)
      ∙ ap entry_ids (template_stages-flatten entries)

  -- When every step of the device goes well, and each entry depends only on entries before it, every approved row
  -- is reported as Verified, in the approved order.
  pub verified_ids-device_worker :
      (entries : List Entry)
      → IsClosed [] entries
      → verified_ids (device_worker d entries).rows ≡ entry_ids entries
  unfolding device_worker run_opened run_connected connection preparation
  verified_ids-device_worker entries c =
      rw
        (
          g.credentials, g.connect, g.shell, g.identify, g.identity, g.preflight, g.exec,
          g.collected, g.written,
        )
        (run_prepared-verified entries c)
