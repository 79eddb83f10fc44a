-- ===== src/Spool/Index/Paging.antt =====
-- src/orbitflow/result_spool.py: the batches of `records` against one query for all of the rows.
use orbit_flow_evo.Base.{
  ℕ, zero, suc, ◌+◌, ◌≤◌, ◌<◌, ◌≡◌, refl, sym, ◌∙◌, ap, Bool, true, false, some, Option, List, [],
  ◌∷◌, ◌++◌, arith, ltb, length, keep, if◌then◌else◌, Bool-cases, inl, inr,
}
use orbit_flow_evo.Spool.{Row}
use orbit_flow_evo.Spool.Append.{row_positions}
use orbit_flow_evo.Spool.Recorded.{Ascending, Ascending-down}
use orbit_flow_evo.Spool.Index.{Query, selects, take, fetch, last_of, next_batch, identifiers}

abbrev pub after : ℕ → List Row → List Row
after p = keep (λ r. ltb p r.position)

pub Ascending-keep :
    (f : Row → Bool) (lo hi : ℕ) (rows : List Row)
    → Ascending lo hi rows
    → Ascending lo hi (keep f rows)
Ascending-keep f lo hi [] a = tt
Ascending-keep f lo hi (r ∷ rows) a =
    let rest = Ascending-keep f (r.position + 1) hi rows a.2 in
    elim (f r) as (λ b. Ascending lo hi (if b then r ∷ keep f rows else keep f rows)) [
      | true ↦ (a.0, a.1, rest)
      | false ↦ Ascending-down lo (r.position + 1) hi (keep f rows) (omega arith) rest
    ]

-- All the rows lie after a position below the first.
after-all : (p hi : ℕ) (rows : List Row) → Ascending (p + 1) hi rows → after p rows ≡ rows
after-all p hi [] a = refl
after-all p hi (r ∷ rows) a =
    ground (
      arith,
      after-all p hi rows (Ascending-down (p + 1) (r.position + 1) hi rows (omega arith) a.2),
    )

after-after : (p q : ℕ) (rows : List Row) → p ≤ q → after q (after p rows) ≡ after q rows
after-after p q [] h = refl
after-after p q (r ∷ rows) h = ground (arith, after-after p q rows h)

last_of-lower :
    (n lo hi p : ℕ) (rows : List Row)
    → Ascending lo hi rows
    → p ≤ lo
    → p ≤ last_of p (row_positions (take n rows))
last_of-lower zero lo hi p rows a h = omega arith
last_of-lower (suc n) lo hi p [] a h = omega arith
last_of-lower (suc n) lo hi p (r ∷ rows) a h =
    let rest = last_of-lower n (r.position + 1) hi r.position rows a.2 (omega arith) in
    let b = a.0 in omega arith

-- A batch, and what lies after its last position, are all of the rows.
batch_split :
    (n lo hi p : ℕ) (rows : List Row)
    → Ascending lo hi rows
    → p < lo
    → row_positions (take n rows)
        ++ row_positions (after (last_of p (row_positions (take n rows))) rows)
      ≡ row_positions rows
batch_split zero lo hi p rows a h =
    ap row_positions (after-all p hi rows (Ascending-down (p + 1) lo hi rows (omega arith) a))
batch_split (suc n) lo hi p [] a h = refl
batch_split (suc n) lo hi p (r ∷ rows) a h =
    let rest = batch_split n (r.position + 1) hi r.position rows a.2 (omega arith) in
    let low = last_of-lower n (r.position + 1) hi r.position rows a.2 (omega arith) in
    let skip : ltb (last_of r.position (row_positions (take n rows))) r.position ≡ false =
      ground (arith, low) in
    rw skip (ap (◌∷◌ r.position) rest)

-- What lies after a batch that is not empty is shorter.
after-shorter : (p : ℕ) (rows : List Row) → length (after p rows) ≤ length rows
after-shorter p [] = omega arith
after-shorter p (r ∷ rows) = ground (arith, after-shorter p rows)

Ascending-after :
    (p lo hi : ℕ) (rows : List Row) → Ascending lo hi rows → Ascending (p + 1) hi (after p rows)
Ascending-after p lo hi [] a = tt
Ascending-after p lo hi (r ∷ rows) a =
    let rest = Ascending-after p (r.position + 1) hi rows a.2 in
    elim (Bool-cases (ltb p r.position)) [
      | inl e ↦
          let later : p + 1 ≤ r.position = ground (arith, e) in
          rw e (
            later,
            a.1,
            rw
                (after-all p hi rows
                  (Ascending-down (p + 1) (r.position + 1) hi rows (omega arith) a.2))
                a.2,
          )
      | inr e ↦ rw e rest
    ]

length-keep : (f : Row → Bool) (rows : List Row) → length (keep f rows) ≤ length rows
length-keep f [] = omega arith
length-keep f (r ∷ rows) = ground (arith, length-keep f rows)

-- One batch that is not empty, and the rest of the loop.
batch_step :
    (n p hi : ℕ) (r : Row) (rs : List Row) (rest : Option (List ℕ))
    → Ascending (p + 1) hi (r ∷ rs)
    → rest
      ≡ some (row_positions (after (last_of p (row_positions (take (suc n) (r ∷ rs)))) (r ∷ rs)))
    → next_batch (row_positions (take (suc n) (r ∷ rs))) rest ≡ some (row_positions (r ∷ rs))
batch_step n p hi r rs rest a e =
    rw e (ap some (batch_split (suc n) (p + 1) hi p (r ∷ rs) a (omega arith)))

identifiers_from :
    (n : ℕ) (q : Query) (rows : List Row) (hi fuel p : ℕ) (rest : List Row)
    → after p (keep (selects q) rows) ≡ rest
    → Ascending (p + 1) hi rest
    → length rest < fuel
    → identifiers (suc n) q rows fuel p ≡ some (row_positions rest)
unfolding identifiers fetch
identifiers_from n q rows hi zero p rest e a l = absurd (omega arith)
identifiers_from n q rows hi (suc fuel) p [] e a l = rw e refl
identifiers_from n q rows hi (suc fuel) p (r ∷ rs) e a l =
    let last = last_of p (row_positions (take (suc n) (r ∷ rs))) in
    let low = last_of-lower n (r.position + 1) hi r.position (rs) a.2 (omega arith) in
    let skip : after last (r ∷ rs) ≡ after last rs = ground (arith, low) in
    let same : after last (keep (selects q) rows) ≡ after last (r ∷ rs) =
      sym (after-after p last (keep (selects q) rows) (omega arith)) ∙ ap (after last) e in
    rw e (
      batch_step n p hi r rs _ a (
        identifiers_from n q rows hi fuel last (after last (r ∷ rs)) same
          (Ascending-after last (p + 1) hi (r ∷ rs) a)
          (rw skip (omega (arith, after-shorter last rs)))))

-- Over rows in the order of their keys, the loop over batches of any size from one on ends within one
-- more round than there are rows, and gives the position of every row that the query selects, once, in order.
pub identifiers_complete :
    (n : ℕ) (q : Query) (rows : List Row) (hi : ℕ)
    → Ascending 1 hi rows
    → identifiers (suc n) q rows (suc (length rows)) 0
      ≡ some (row_positions (keep (selects q) rows))
identifiers_complete n q rows hi a =
    let selected = Ascending-keep (selects q) 1 hi rows a in
    identifiers_from n q rows hi (suc (length rows)) 0 (keep (selects q) rows)
      (after-all 0 hi (keep (selects q) rows) selected) selected
      (omega (arith, length-keep (selects q) rows))
