-- ===== src/Configuration/Confirmations/Replay.antt =====
-- What a replay of `confirm` and of `prepare` does.
use orbit_flow_evo.Base.{
  ℕ, ◌≡◌, refl, sym, ap, ◌∙◌, Bool, true, false, Option, none, some, List, [], ◌∷◌, ◌++◌, arith,
  inl, inr, Bool-cases, Option-cases, if◌then◌else◌, Result, ok, err, ◌>>◌, guard, ok_second,
}
use mathlib.Core.Bool.{true≢false}
use mathlib.Core.Option.{none-ne-some}
use orbit_flow_evo.Base.Equality.{list_eq, list_beq_iff, nat_eq}
use orbit_flow_evo.Base.Texts.{Text}
use orbit_flow_evo.Configuration.Confirmations.{
  is_awaiting, Payload, Confirmation, Table, by_digest, consumed, of_digests, or_else, existing,
  conflicts, insert, prepare_onto, prepare, set_state, set_run, ConfirmError, Files, claim, Call,
  step, run, completed, interrupted, explicit_apply_required,
}
use orbit_flow_evo.Configuration.Confirmations.Confirming.{
  Execution, Confirmed, start_run, end_run, confirm_claimed, confirm, refused,
}
use orbit_flow_evo.Configuration.Confirmations.Laws.{
  is_spent, is_spent-update, claim-is_spent, is_spent-step,
}

is_spent-run :
    (f : Files) (q : Text) (table : Table) (calls : List Call)
    → is_spent q table ≡ true
    → is_spent q (run f table calls) ≡ true
unfolding run
is_spent-run f q table [] h = h
is_spent-run f q table (c ∷ calls) h =
    is_spent-run f q (step f table c) calls (is_spent-step f q table c h)

abbrev pub is_refused : Confirmed → Bool
is_refused (refused _) = true
is_refused _ = false

is_spent-start_run :
    (r : Text) (path : Option Text) (table : Table)
    → is_spent r table ≡ true
    → is_spent r (start_run r path table) ≡ true
unfolding start_run
is_spent-start_run r none table h = h
is_spent-start_run r (some path) table h =
    is_spent-update r r (set_run path) table (λ c. refl) (λ c w. w) h

is_spent-end_run :
    (r : Text) (e : Execution) (table : Table)
    → is_spent r table ≡ true
    → is_spent r (end_run r e table).1 ≡ true
unfolding end_run
is_spent-end_run r e table h = elim (Bool-cases e.returned) [
  | inl y ↦ rw y (
      is_spent-update r r (λ c. set_run e.path (set_state completed c)) table (λ c. refl)
        (λ c w. refl) h)
  | inr n ↦ rw n (is_spent-update r r (set_state interrupted) table (λ c. refl) (λ c w. refl) h)
]

is_spent-confirm_claimed :
    (f : Files) (r d : Text) (e : Execution) (table : Table)
    (o : Result ConfirmError (Payload × Table))
    → ((p : Payload × Table) → o ≡ ok p → is_spent r p.1 ≡ true)
    → is_refused (confirm_claimed r e table o).0 ≡ false
    → is_spent r (confirm_claimed r e table o).1 ≡ true
unfolding confirm_claimed
is_spent-confirm_claimed f r d e table (err x) k h = absurd (true≢false h)
is_spent-confirm_claimed f r d e table (ok p) k h =
    is_spent-end_run r e (start_run r e.started p.1) (is_spent-start_run r e.started p.1 (k p refl))

-- A claim that meets a spent reference is refused, and changes nothing.
confirm_claimed-refused :
    (f : Files) (r d : Text) (e : Execution) (table : Table)
    (o : Result ConfirmError (Payload × Table))
    → ((p : Payload × Table) → o ≡ ok p → is_spent r table ≡ false)
    → is_spent r table ≡ true
    → (is_refused (confirm_claimed r e table o).0 ≡ true)
      × ((confirm_claimed r e table o).1 ≡ table)
unfolding confirm_claimed
confirm_claimed-refused f r d e table (err x) k h = (refl, refl)
confirm_claimed-refused f r d e table (ok p) k h = absurd (true≢false (sym h ∙ k p refl))

-- Once a confirmation was not refused, whether its run returned or raised, every later one of that reference is
-- refused and changes nothing, whatever the processes on the database did in between.
pub confirm-is_refused :
    (f : Files) (apply again : Bool) (r d other : Text) (e more : Execution) (table : Table)
    (calls : List Call)
    → is_refused (confirm f apply r d e table).0 ≡ false
    → (is_refused (confirm f again r other more (run f (confirm f apply r d e table).1 calls)).0
        ≡ true)
      × ((confirm f again r other more (run f (confirm f apply r d e table).1 calls)).1
          ≡ run f (confirm f apply r d e table).1 calls)
unfolding confirm
confirm-is_refused f apply again r d other e more table calls h =
    let later = run f (confirm f apply r d e table).1 calls in
    confirm_claimed-refused f r other more later
      (guard again explicit_apply_required >> claim f r other later)
      (λ p k.
        (claim-is_spent f r other later p
          (ok_second (guard again explicit_apply_required) (claim f r other later) p k)).0)
      (is_spent-run f r (confirm f apply r d e table).1 calls (
        is_spent-confirm_claimed f r d e table
          (guard apply explicit_apply_required >> claim f r d table)
          (λ p k.
            (claim-is_spent f r d table p
              (ok_second (guard apply explicit_apply_required) (claim f r d table) p k)).1)
          h))

-- Of a digest that no row had, a row that is inserted is the one that is found.
found_after :
    (d legacy : Text) (table : Table) (c : Confirmation)
    → of_digests d legacy table ≡ none
    → c.digest ≡ d
    → is_awaiting c.state ≡ true
    → existing d legacy (table ++ c ∷ []) ≡ some c
unfolding existing consumed of_digests
found_after d legacy [] c h k w = ground (arith, (list_beq_iff {A = ℕ} c.digest d).1 k)
found_after d legacy (b ∷ table) c h k w = ground (arith, found_after d legacy table c)

unlisted_digests :
    (d legacy : Text) (table : Table)
    → existing d legacy table ≡ none
    → of_digests d legacy table ≡ none
unfolding existing
unlisted_digests d legacy table h = elim (Option-cases (consumed d legacy table)) [
  | inl n ↦ ap (λ o. or_else o (of_digests d legacy table)) (sym n) ∙ h
  | inr c ↦ absurd (none-ne-some c.0 (sym h ∙ ap (λ o. or_else o (of_digests d legacy table)) c.1))
]

unlisted_digest :
    (d legacy : Text) (table : Table) → of_digests d legacy table ≡ none → by_digest d table ≡ none
unfolding of_digests by_digest
unlisted_digest d legacy [] h = refl
unlisted_digest d legacy (b ∷ table) h = ground (arith, unlisted_digest d legacy table)

by_digest-snoc :
    (d : Text) (table : Table) (c : Confirmation)
    → by_digest d table ≡ none
    → c.digest ≡ d
    → by_digest d (table ++ c ∷ []) ≡ some c
unfolding by_digest
by_digest-snoc d [] c h k = ground (arith, (list_beq_iff {A = ℕ} c.digest d).1 k)
by_digest-snoc d (b ∷ table) c h k = ground (arith, by_digest-snoc d table c)

-- What `prepare` answers is what the next lookup finds.
settled :
    (d legacy : Text) (o : Option Confirmation) (fresh : Confirmation) (table : Table)
    (c : Confirmation)
    → existing d legacy table ≡ o
    → fresh.digest ≡ d
    → is_awaiting fresh.state ≡ true
    → (prepare_onto o fresh table).row ≡ some c
    → existing d legacy (prepare_onto o fresh table).table ≡ some c
unfolding prepare_onto insert
settled d legacy (some b) fresh table c e k w h = e ∙ h
settled d legacy none fresh table c e k w h =
    let absent = unlisted_digests d legacy table e in
    let unlisted = unlisted_digest d legacy table absent in
    let row : Bool → Option Confirmation =
      λ taken. by_digest fresh.digest (if taken then table else table ++ fresh ∷ []) in
    elim (Bool-cases (conflicts fresh.reference fresh.digest table)) [
      | inl t ↦
          absurd (
            none-ne-some c
              (sym unlisted ∙ ap (λ x. by_digest x table) (sym k) ∙ ap row (sym t) ∙ h))
      | inr u ↦ rw u (
          found_after d legacy table fresh absent k w
          ∙ sym (by_digest-snoc d table fresh unlisted k)
          ∙ ap (λ x. by_digest x (table ++ fresh ∷ [])) (sym k)
          ∙ ap row (sym u)
          ∙ h)
    ]

prepare_found :
    (other d legacy : Text) (q : Payload) (table : Table) (c : Confirmation)
    → existing d legacy table ≡ some c
    → prepare other d legacy q table ≡ record { table = table; row = some c }
unfolding prepare prepare_onto
prepare_found other d legacy q table c h = rw h refl

prepare_settled :
    (r d legacy : Text) (p : Payload) (table : Table) (c : Confirmation)
    → (prepare r d legacy p table).row ≡ some c
    → existing d legacy (prepare r d legacy p table).table ≡ some c
unfolding prepare
prepare_settled r d legacy p table c h =
    settled d legacy (existing d legacy table) _ table c refl refl refl h

-- The row that `prepare` returned is returned again, under any other fresh reference, and nothing is inserted.
pub prepare-prepare :
    (r other d legacy : Text) (p q : Payload) (table : Table) (c : Confirmation)
    → (prepare r d legacy p table).row ≡ some c
    → prepare other d legacy q (prepare r d legacy p table).table
      ≡ record { table = (prepare r d legacy p table).table; row = some c }
prepare-prepare r other d legacy p q table c h =
    prepare_found other d legacy q (prepare r d legacy p table).table c
      (prepare_settled r d legacy p table c h)
