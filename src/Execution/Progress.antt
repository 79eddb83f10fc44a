-- ===== src/Execution/Progress.antt =====
-- src/orbitflow/execution.py: the limit on the work in flight, and the rounds of the loop.
use mathlib.Core.Path.{ap, sym, ◌∙◌}
use mathlib.Core.List.{nil≢cons}
use orbit_flow_evo.Base.{
  ℕ, zero, suc, ◌+◌, ◌≤◌, ◌<◌, ◌≡◌, ◌≢◌, refl, List, [], ◌∷◌, ◌++◌, String, Result, arith, length,
  length-append, inl, inr, ◌⊎◌,
}
use orbit_flow_evo.Execution.Defs.{
  positions, State, initial, refill, Removed, here, there, invoke, Deliver, deliver, Batch, one,
  more, Run, done, round,
}
use orbit_flow_evo.Execution.Ordering.{Refilled-refill}

-- The work that is in flight or not submitted yet.
abbrev pub remaining : {V : Type 0} → State V → ℕ
remaining s = length s.pending + s.left

length-positions : (first count : ℕ) → length (positions first count) ≡ count
unfolding positions
length-positions first zero = refl
length-positions first (suc count) = ap suc (length-positions (first + 1) count)

remaining-refill : {V : Type 0} (limit : ℕ) (s : State V) → remaining (refill limit s) ≡ remaining s
remaining-refill limit s =
    let r = Refilled-refill limit s in
    let t = refill limit s in
    omega (
      arith,
      ap length r.same_positions,
      length-append s.pending (positions s.next s.left),
      length-append t.pending (positions t.next t.left),
      length-positions s.next s.left,
      length-positions t.next t.left,
    )

length-zero : (l : List ℕ) → length l ≤ 0 → l ≡ []
length-zero [] h = refl
length-zero (x ∷ l) h = absurd (omega arith)

List-cases : (l : List ℕ) → (l ≡ []) ⊎ ((p : ℕ) × (ps : List ℕ) × (l ≡ p ∷ ps))
List-cases [] = inl refl
List-cases (p ∷ ps) = inr (p, ps, refl)

length-Removed : {p : ℕ} {l m : List ℕ} → Removed p l m → length l ≡ suc (length m)
length-Removed here = refl
length-Removed (there r) = ap suc (length-Removed r)

module _ {V : Type 0} (work : ℕ → Result String V) where
  Deliver-remaining :
      {s t : State V}
      → Deliver work s t
      → (length s.pending ≡ suc (length t.pending)) × (t.left ≡ s.left)
  Deliver-remaining (deliver p r) = (length-Removed r, refl)

  Batch-remaining :
      {s t : State V} → Batch work s t → (length t.pending < length s.pending) × (t.left ≡ s.left)
  Batch-remaining (one d) = let h = Deliver-remaining d in (omega arith, h.1)
  Batch-remaining (more b d) =
      let h = Deliver-remaining d in let k = Batch-remaining b in (omega arith, h.1 ∙ k.1)

  -- The states at the head of the loop.
  pub data Reached (limit count : ℕ) : State V → Type 0 where
    start : Reached limit count (refill limit (initial count))
    next_round :
        {s t : State V}
        → Reached limit count s
        → Batch work s t
        → Reached limit count (refill limit t)

  -- At the head of the loop, the work in flight is within the limit, and it never exceeds the targets.
  pub Reached-bounded :
      {limit count : ℕ} {s : State V}
      → Reached limit count s
      → (length s.pending ≤ limit) × (remaining s ≤ count)
  unfolding initial
  Reached-bounded {limit} {count} start = (
    (Refilled-refill limit (initial {V = V} count)).bounded (omega arith),
    omega (arith, remaining-refill limit (initial {V = V} count)),
  )
  Reached-bounded {limit} (next_round {s} {t} r b) =
      let h = Reached-bounded r in
      let k = Batch-remaining b in
      ((Refilled-refill limit t).bounded (omega arith), omega (arith, remaining-refill limit t))

  -- With enough fuel for the work remaining, the loop can be run to its end.
  Run-exists :
      (limit fuel : ℕ) (s : State V) → remaining s ≤ fuel → (u : State V) × Run work limit s u
  Run-exists limit zero s h = (s, done (length-zero s.pending (omega arith)))
  Run-exists limit (suc fuel) s h = elim (List-cases s.pending) [
    | inl empty ↦ (s, done empty)
    | inr (p, ps, e) ↦
        let t : State V = record s { pending = ps; outcomes = s.outcomes ++ invoke work p ∷ [] } in
        let step : Deliver work s t = deliver p (rw e here) in
        let fewer = Deliver-remaining step in
        let rest =
          Run-exists limit fuel (refill limit t) (omega (arith, remaining-refill limit t)) in
        (rest.0, round (λ empty. absurd (nil≢cons (sym empty ∙ e))) (one step) rest.1)
  ]

  -- Some rounds of the loop, whatever completes in each.
  pub data Rounds (limit : ℕ) : ℕ → State V → State V → Type 0 where
    no_round : {s : State V} → Rounds limit 0 s s
    then_round :
        {n : ℕ} {s t u : State V}
        → s.pending ≢ []
        → Batch work s t
        → Rounds limit n (refill limit t) u
        → Rounds limit (suc n) s u

  -- Every round delivers an outcome, so the rounds are at most the targets.
  Rounds-remaining :
      {limit n : ℕ} {s u : State V} → Rounds limit n s u → n + remaining u ≤ remaining s
  Rounds-remaining no_round = omega arith
  Rounds-remaining {limit} (then_round {t = t} busy b r) =
      let h = Batch-remaining b in
      let k = Rounds-remaining r in omega (arith, remaining-refill limit t)

  Rounds-Run :
      {limit n : ℕ} {s t u : State V} → Rounds limit n s t → Run work limit t u → Run work limit s u
  Rounds-Run no_round run = run
  Rounds-Run (then_round busy b r) run = round busy b (Rounds-Run r run)

  -- Where nothing is in flight, no target is left.
  abbrev pub IsDrained : State V → Type 0
  IsDrained s = s.pending ≡ [] → s.left ≡ 0

  refill-IsDrained : (limit : ℕ) (s : State V) → 1 ≤ limit → IsDrained (refill limit s)
  refill-IsDrained limit s positive e = (Refilled-refill limit s).exhausted positive e

  Rounds-IsDrained :
      {limit n : ℕ} {s u : State V} → 1 ≤ limit → IsDrained s → Rounds limit n s u → IsDrained u
  Rounds-IsDrained positive d no_round = d
  Rounds-IsDrained {limit} positive d (then_round {t = t} busy b r) =
      Rounds-IsDrained positive (refill-IsDrained limit t positive) r

  Run-finished :
      {limit : ℕ} {s u : State V}
      → 1 ≤ limit
      → IsDrained s
      → Run work limit s u
      → (u.pending ≡ []) × (u.left ≡ 0)
  Run-finished positive d (done empty) = (empty, d empty)
  Run-finished {limit} positive d (round {t = t} busy b r) =
      Run-finished positive (refill-IsDrained limit t positive) r

  -- For a limit of one or more: whatever completes in each round, the loop over the targets has made at most as many
  -- rounds as there are targets, less the targets in flight and not submitted; and from where it stands it can be run
  -- to its end, which is an end of the loop from its start, where nothing is in flight and no target is left.
  pub Rounds-Run-exists :
      (limit count n : ℕ) (s : State V)
      → 1 ≤ limit
      → Rounds limit n (refill limit (initial count)) s
      → (n + remaining s ≤ count)
        × (u : State V) × Run work limit s u
        × Run work limit (refill limit (initial count)) u
        × (u.pending ≡ [])
        × (u.left ≡ 0)
  unfolding initial
  Rounds-Run-exists limit count n s positive r =
      let begun = initial {V = V} count in
      let drained = Rounds-IsDrained positive (refill-IsDrained limit begun positive) r in
      let finished = Run-exists limit (remaining s) s (omega arith) in
      let ended = Run-finished positive drained finished.1 in
      (
        omega (arith, Rounds-remaining r, remaining-refill limit begun),
        finished.0,
        finished.1,
        Rounds-Run r finished.1,
        ended.0,
        ended.1,
      )
