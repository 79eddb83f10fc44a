-- ===== src/Execution/Ordering.antt =====
-- src/orbitflow/execution.py: the outcomes of a concurrent run are those of the run on the caller, in the
-- order of the input, and no more work than the limit is in flight.
use mathlib.Core.Path.{ap, ap₂, sym, ◌∙◌}
use mathlib.Core.List.{Perm}
use mathlib.Core.List.Perm
use mathlib.Core.List.{append_assoc, append-nil}
use orbit_flow_evo.Base.{
  ℕ, zero, suc, ◌+◌, ◌≤◌, ◌≡◌, refl, List, [], ◌∷◌, ◌++◌, map, String, Result, arith, ltb, length,
  length-append, Bool-cases, inl, inr, ltb_iff,
}
use orbit_flow_evo.Execution.Defs.{
  DeviceOutcome, positions, sort_outcomes, State, initial, refill_from, refill, Removed, here,
  there, invoke, Deliver, deliver, Batch, one, more, Run, done, round, run_serially, Executes,
  serially, concurrently,
}
use orbit_flow_evo.Execution.Ascending.{Above-eq_of_perm, Above-positions}
use orbit_flow_evo.Execution.Sorting.{
  sort_positions, Perm-sort_positions, Above-sort_positions, sort_outcomes-invoke, run_serially-map,
}

-- What `refill` keeps: the positions not delivered yet, the outcomes, and the bound on work in flight; and
-- it leaves none in flight only when none is left.
pub record Refilled {V : Type 0} (limit : ℕ) (s t : State V) : Type 0 where
  pub same_positions : s.pending ++ positions s.next s.left ≡ t.pending ++ positions t.next t.left
  pub same_outcomes : t.outcomes ≡ s.outcomes
  pub bounded : length s.pending ≤ limit → length t.pending ≤ limit
  pub exhausted : 1 ≤ limit → t.pending ≡ [] → t.left ≡ zero

Refilled-refill_from :
    {V : Type 0} (limit : ℕ) (os : List (DeviceOutcome V)) (left next : ℕ) (pending : List ℕ)
    → Refilled limit
        (record { next = next; left = left; pending = pending; outcomes = os })
        (refill_from limit os left next pending)
unfolding refill_from positions
Refilled-refill_from limit os zero next pending = record {
  same_positions = refl;
  same_outcomes = refl;
  bounded = λ h. h;
  exhausted = λ _ _. refl;
}
Refilled-refill_from limit os (suc left) next pending =
    let rest = Refilled-refill_from limit os left (next + 1) (pending ++ next ∷ []) in
    elim (Bool-cases (ltb (length pending) limit)) [
      | inl below ↦ rw below (record {
        same_positions =
            sym (append_assoc pending (next ∷ []) (positions (next + 1) left))
            ∙ rest.same_positions;
        same_outcomes = rest.same_outcomes;
        bounded = λ _. rest.bounded (
            omega
              (arith, length-append pending (next ∷ []), (ltb_iff (length pending) limit).0 below));
        exhausted = rest.exhausted;
      })
      | inr full ↦ rw full (record {
        same_positions = refl;
        same_outcomes = refl;
        bounded = λ h. h;
        exhausted = λ positive empty. ground (arith, full, ap length empty);
      })
    ]

pub Refilled-refill : {V : Type 0} (limit : ℕ) (s : State V) → Refilled limit s (refill limit s)
unfolding refill
Refilled-refill limit s = Refilled-refill_from limit s.outcomes s.left s.next s.pending

Perm-of_eq : {xs ys : List ℕ} → xs ≡ ys → Perm xs ys
Perm-of_eq e = rw e Perm.rfl

Perm-Removed : {p : ℕ} {l m : List ℕ} → Removed p l m → Perm l (p ∷ m)
Perm-Removed here = Perm.rfl
Perm-Removed (there r) = Perm.trans (Perm.cons _ (Perm-Removed r)) (Perm.swap _ _ _)

module _ {V : Type 0} (work : ℕ → Result String V) where
  map-append :
      (xs ys : List ℕ) → map (invoke work) (xs ++ ys) ≡ map (invoke work) xs ++ map (invoke work) ys
  map-append [] ys = refl
  map-append (x ∷ xs) ys = ap (◌∷◌ (invoke work x)) (map-append xs ys)

  -- Every target is delivered, in flight or not submitted yet, exactly once.
  record Follows (count : ℕ) (s : State V) : Type 0 where
    delivered : List ℕ
    as_invoked : s.outcomes ≡ map (invoke work) delivered
    covered : Perm (delivered ++ (s.pending ++ positions s.next s.left)) (positions 1 count)

  Follows-initial : (count : ℕ) → Follows count (initial count)
  unfolding initial
  Follows-initial count = record { delivered = []; as_invoked = refl; covered = Perm.rfl }

  Follows-refill :
      (limit count : ℕ) (s : State V) → Follows count s → Follows count (refill limit s)
  Follows-refill limit count s f =
      let r = Refilled-refill limit s in
      record {
        delivered = f.delivered;
        as_invoked = r.same_outcomes ∙ f.as_invoked;
        covered = rw (sym r.same_positions) f.covered;
      }

  Follows-Deliver :
      {count : ℕ} {s t : State V} → Follows count s → Deliver work s t → Follows count t
  Follows-Deliver {s = s} f (deliver p {rest = rest} r) =
      let waiting = positions s.next s.left in
      record {
        delivered = f.delivered ++ p ∷ [];
        as_invoked =
            ap (λ os. os ++ invoke work p ∷ []) f.as_invoked
            ∙ sym (map-append f.delivered (p ∷ []));
        covered =
            Perm.trans
              (rw (append_assoc f.delivered (p ∷ []) (rest ++ waiting)) (
                Perm.append_left f.delivered
                  (Perm.append_right waiting (Perm.symm (Perm-Removed r)))))
              f.covered;
      }

  Follows-Batch : {count : ℕ} {s t : State V} → Follows count s → Batch work s t → Follows count t
  Follows-Batch f (one d) = Follows-Deliver f d
  Follows-Batch f (more b d) = Follows-Deliver (Follows-Batch f b) d

  Follows-Run :
      {limit count : ℕ} {s u : State V} → Follows count s → Run work limit s u → Follows count u
  Follows-Run f (done _) = f
  Follows-Run f (round _ b r) = Follows-Run (Follows-refill _ _ _ (Follows-Batch f b)) r

  -- Once nothing is in flight, nothing is left to submit.
  abbrev Exhausted : State V → Type 0
  Exhausted s = s.pending ≡ [] → s.left ≡ zero

  Exhausted-Run :
      {limit : ℕ} {s u : State V}
      → 1 ≤ limit
      → Exhausted s
      → Run work limit s u
      → (u.pending ≡ []) × (u.left ≡ zero)
  Exhausted-Run positive e (done empty) = (empty, e empty)
  Exhausted-Run positive e (round _ b r) =
      Exhausted-Run positive ((Refilled-refill _ _).exhausted positive) r

  sorted-positions :
      (count : ℕ) (u : State V)
      → u.pending ≡ []
      → u.left ≡ zero
      → Follows count u
      → sort_outcomes u.outcomes ≡ run_serially work (positions 1 count)
  unfolding positions
  sorted-positions count u empty finished f =
      let none_left : u.pending ++ positions u.next u.left ≡ [] =
        ap₂ (λ waiting left. waiting ++ positions u.next left) empty finished in
      let all_delivered : Perm f.delivered (positions 1 count) =
        Perm.trans (Perm-of_eq (sym (append-nil f.delivered)))
          (Perm.trans (Perm-of_eq (ap (λ l. f.delivered ++ l) (sym none_left))) f.covered) in
      let sorted : sort_positions f.delivered ≡ positions 1 count =
        Above-eq_of_perm 0 1 _ _ (Above-sort_positions f.delivered) (Above-positions 1 count)
          (Perm.trans (Perm-sort_positions f.delivered) all_delivered) in
      ap sort_outcomes f.as_invoked
      ∙ sort_outcomes-invoke work f.delivered
      ∙ ap (map (invoke work)) sorted
      ∙ sym (run_serially-map work (positions 1 count))

  -- For a limit of one or more, whatever the order in which work completes, the outcomes returned are those
  -- of the loop on the caller: one for each target, in the order of the input.
  pub Executes-run_serially :
      (limit count : ℕ) (os : List (DeviceOutcome V))
      → 1 ≤ limit
      → Executes work limit count os
      → os ≡ run_serially work (positions 1 count)
  Executes-run_serially limit count os positive (serially _) = refl
  Executes-run_serially limit count os positive (concurrently {u = u} _ r) =
      let first = Refilled-refill limit (initial {V = V} count) in
      let finished = Exhausted-Run positive (first.exhausted positive) r in
      sorted-positions count u finished.0 finished.1
        (Follows-Run (Follows-refill limit count (initial count) (Follows-initial count)) r)
