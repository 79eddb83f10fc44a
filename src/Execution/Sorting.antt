-- ===== src/Execution/Sorting.antt =====
-- src/orbitflow/execution.py: sorting outcomes by position sorts the positions they stand for.
use mathlib.Core.Path.{ap, ◌∙◌}
use mathlib.Core.List.{Perm}
use mathlib.Core.List.Perm
use orbit_flow_evo.Base.{
  ℕ, ◌≤◌, ◌≡◌, refl, true, false, List, [], ◌∷◌, map, String, Result, arith, leb, Bool-cases, inl,
  inr, if◌then◌else◌, leb_iff,
}
use orbit_flow_evo.Execution.Defs.{insert_outcome, sort_outcomes, invoke, run_serially}
use orbit_flow_evo.Execution.Ascending.{Above}

unfoldable pub insert_position : ℕ → List ℕ → List ℕ
insert_position p [] = p ∷ []
insert_position p (x ∷ xs) = if leb p x then p ∷ x ∷ xs else x ∷ insert_position p xs

unfoldable pub sort_positions : List ℕ → List ℕ
unfolding insert_position
sort_positions [] = []
sort_positions (p ∷ ps) = insert_position p (sort_positions ps)

Perm-insert_position : (p : ℕ) (xs : List ℕ) → Perm (insert_position p xs) (p ∷ xs)
unfolding insert_position
Perm-insert_position p [] = Perm.rfl
Perm-insert_position p (x ∷ xs) =
    elim (leb p x)
      as (λ b. Perm (if b then p ∷ x ∷ xs else x ∷ insert_position p xs) (p ∷ x ∷ xs)) [
        | true ↦ Perm.rfl
        | false ↦ Perm.trans (Perm.cons x (Perm-insert_position p xs)) (Perm.swap p x xs)
      ]

pub Perm-sort_positions : (xs : List ℕ) → Perm (sort_positions xs) xs
unfolding sort_positions
Perm-sort_positions [] = Perm.rfl
Perm-sort_positions (x ∷ xs) =
    Perm.trans (Perm-insert_position x (sort_positions xs)) (Perm.cons x (Perm-sort_positions xs))

Above-insert_position :
    (lo p : ℕ) (xs : List ℕ) → lo ≤ p → Above lo xs → Above lo (insert_position p xs)
unfolding insert_position
Above-insert_position lo p [] h a = (h, tt)
Above-insert_position lo p (x ∷ xs) h a = elim (Bool-cases (leb p x)) [
  | inl e ↦ rw e (h, ((leb_iff p x).0 e, a.1))
  | inr e ↦
      let p-le-x : x ≤ p = ground (arith, e) in rw e (a.0, Above-insert_position x p xs p-le-x a.1)
]

pub Above-sort_positions : (xs : List ℕ) → Above 0 (sort_positions xs)
unfolding sort_positions
Above-sort_positions [] = tt
Above-sort_positions (x ∷ xs) =
    Above-insert_position 0 x (sort_positions xs) (omega arith) (Above-sort_positions xs)

invoke-position : {V : Type 0} (work : ℕ → Result String V) (p : ℕ) → (invoke work p).position ≡ p
unfolding invoke
invoke-position work p = ground arith

insert_outcome-invoke :
    {V : Type 0} (work : ℕ → Result String V) (p : ℕ) (xs : List ℕ)
    → insert_outcome (invoke work p) (map (invoke work) xs)
      ≡ map (invoke work) (insert_position p xs)
unfolding insert_outcome insert_position
insert_outcome-invoke work p [] = refl
insert_outcome-invoke work p (x ∷ xs) =
    let rest = insert_outcome-invoke work p xs in
    let at_p = invoke-position work p in let at_x = invoke-position work x in ground arith

pub sort_outcomes-invoke :
    {V : Type 0} (work : ℕ → Result String V) (xs : List ℕ)
    → sort_outcomes (map (invoke work) xs) ≡ map (invoke work) (sort_positions xs)
unfolding sort_outcomes sort_positions
sort_outcomes-invoke work [] = refl
sort_outcomes-invoke work (x ∷ xs) =
    ap (insert_outcome (invoke work x)) (sort_outcomes-invoke work xs)
    ∙ insert_outcome-invoke work x (sort_positions xs)

pub run_serially-map :
    {V : Type 0} (work : ℕ → Result String V) (xs : List ℕ)
    → run_serially work xs ≡ map (invoke work) xs
unfolding run_serially
run_serially-map work [] = refl
run_serially-map work (x ∷ xs) = ap (◌∷◌ (invoke work x)) (run_serially-map work xs)
