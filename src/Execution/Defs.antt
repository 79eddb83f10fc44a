-- ===== src/Execution/Defs.antt =====
-- src/orbitflow/execution.py: the bounded scheduling of device work. A target is known by its input
-- position, and a worker is what it returns or raises there.
use orbit_flow_evo.Base.{
  ℕ, zero, suc, ◌+◌, ◌≡◌, ◌≢◌, Option, none, some, List, [], ◌∷◌, ◌++◌, String, Result, ok, err,
  ltb, leb, length, if◌then◌else◌,
}

pub record DeviceOutcome (V : Type 0) : Type 0 where
  pub position : ℕ
  pub value : Option V
  pub error_category : String

-- The input positions `first`, `first + 1`, … of `count` targets.
unfoldable pub positions : ℕ → ℕ → List ℕ
positions first zero = []
positions first (suc count) = first ∷ positions (first + 1) count

-- `sorted(outcomes, key=lambda outcome: outcome.position)`
unfoldable pub insert_outcome :
    {V : Type 0} → DeviceOutcome V → List (DeviceOutcome V) → List (DeviceOutcome V)
insert_outcome o [] = o ∷ []
insert_outcome o (x ∷ xs) =
    if leb o.position x.position then o ∷ x ∷ xs else x ∷ insert_outcome o xs

unfoldable pub sort_outcomes : {V : Type 0} → List (DeviceOutcome V) → List (DeviceOutcome V)
unfolding insert_outcome
sort_outcomes [] = []
sort_outcomes (o ∷ os) = insert_outcome o (sort_outcomes os)

-- The targets that are not submitted yet, as the position of the first and their number, those whose
-- work is in flight, and the outcomes that were delivered, in the order of their delivery.
pub record State (V : Type 0) : Type 0 where
  pub next : ℕ
  pub left : ℕ
  pub pending : List ℕ
  pub outcomes : List (DeviceOutcome V)

unfoldable pub initial : {V : Type 0} → ℕ → State V
initial count = record { next = 1; left = count; pending = []; outcomes = [] }

-- `refill`: targets are submitted until the limit is in flight or none is left.
unfoldable pub refill_from : {V : Type 0} → ℕ → List (DeviceOutcome V) → ℕ → ℕ → List ℕ → State V
refill_from limit outcomes zero next pending = record {
  next = next;
  left = 0;
  pending = pending;
  outcomes = outcomes;
}
refill_from limit outcomes (suc left) next pending =
    let more = refill_from limit outcomes left (next + 1) (pending ++ next ∷ []) in
    if ltb (length pending) limit
    then more
    else record { next = next; left = suc left; pending = pending; outcomes = outcomes }

unfoldable pub refill : {V : Type 0} → ℕ → State V → State V
unfolding refill_from
refill limit s = refill_from limit s.outcomes s.left s.next s.pending

-- The work in flight that `wait` finds completed: any one of it, taken out.
pub data Removed (p : ℕ) : List ℕ → List ℕ → Type 0 where
  here : {rest : List ℕ} → Removed p (p ∷ rest) rest
  there : {x : ℕ} {l m : List ℕ} → Removed p l m → Removed p (x ∷ l) (x ∷ m)

module _ {V : Type 0} (work : ℕ → Result String V) where
  -- `invoke`: an exception leaves the name of its class and no value.
  unfoldable pub invoke : ℕ → DeviceOutcome V
  invoke p = elim (work p) [
    | ok v ↦ record { position = p; value = some v; error_category = "" }
    | err c ↦ record { position = p; value = none; error_category = c }
  ]

  -- `deliver(future.result())` for one completed future.
  pub data Deliver (s : State V) : State V → Type 0 where
    deliver :
        (p : ℕ) {rest : List ℕ}
        → Removed p s.pending rest
        → Deliver s (record s { pending = rest; outcomes = s.outcomes ++ invoke p ∷ [] })

  -- The loop over the completed futures of one `wait`, of which there is at least one.
  pub data Batch (s : State V) : State V → Type 0 where
    one : {t : State V} → Deliver s t → Batch s t
    more : {t u : State V} → Batch s t → Deliver t u → Batch s u

  -- `while pending: …`
  pub data Run (limit : ℕ) : State V → State V → Type 0 where
    done : {s : State V} → s.pending ≡ [] → Run limit s s
    round :
        {s t u : State V}
        → s.pending ≢ []
        → Batch s t
        → Run limit (refill limit t) u
        → Run limit s u

  -- The loop on the caller, for a limit of one.
  unfoldable pub run_serially : List ℕ → List (DeviceOutcome V)
  unfolding invoke
  run_serially [] = []
  run_serially (p ∷ ps) = invoke p ∷ run_serially ps

  -- What a run over `count` targets returns: `outcomes` on the caller, and otherwise the outcomes of
  -- a finished loop, sorted by position.
  pub data Executes (limit count : ℕ) : List (DeviceOutcome V) → Type 0 where
    serially : limit ≡ 1 → Executes limit count (run_serially (positions 1 count))
    concurrently :
        {u : State V}
        → limit ≢ 1
        → Run limit (refill limit (initial count)) u
        → Executes limit count (sort_outcomes u.outcomes)
