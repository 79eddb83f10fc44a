-- ===== src/Configuration/Confirmations/Laws.antt =====
-- How often a confirmation is consumed, over the transactions of every process on the database.
use orbit_flow_evo.Base.{
  ℕ, ◌≡◌, refl, sym, ap, ◌∙◌, Bool, true, false, not, Option, none, some, List, [], ◌∷◌, ◌++◌,
  arith, inl, inr, Bool-cases, Option-cases, Result-cases, if◌then◌else◌, Result, ok, err, ◌>>=◌,
  ◌>>◌, guard, ok_first, ok_second, ok_guard, ok_bind, ok_injective,
}
use mathlib.Core.Path.{subst}
use mathlib.Core.Bool.{true≢false}
use mathlib.Core.Option.{none-ne-some}
use orbit_flow_evo.Base.Equality.{contains, list_eq, list_beq, list_beq_iff, nat_eq, ◌==◌, Distinct}
use orbit_flow_evo.Base.Texts.{Text}
use orbit_flow_evo.Configuration.Confirmations.{
  claimed, completed, interrupted, is_awaiting, Payload, Confirmation, Table, by_reference,
  existing, insert, conflicts, prepare_onto, prepare, update, set_state, set_run, ConfirmError,
  Files, bound_source, valid_row, claim, Call, prepares, confirms, starts, completes, interrupts,
  claimed_table, step,
}

-- The first row of a reference was consumed.
unfoldable pub is_spent : Text → Table → Bool
unfolding list_beq
is_spent r [] = false
is_spent r (c ∷ table) =
    let rest = is_spent r table in if c.reference == r then not (is_awaiting c.state) else rest

is_spent-append : (r : Text) (xs ys : Table) → is_spent r xs ≡ true → is_spent r (xs ++ ys) ≡ true
unfolding is_spent
is_spent-append r [] ys h = absurd (true≢false (sym h))
is_spent-append r (c ∷ xs) ys h = ground (arith, is_spent-append r xs ys)

pub is_spent-update :
    (q r : Text) (f : Confirmation → Confirmation) (table : Table)
    → ((c : Confirmation) → (f c).reference ≡ c.reference)
    → ((c : Confirmation) → is_awaiting c.state ≡ false → is_awaiting (f c).state ≡ false)
    → is_spent q table ≡ true
    → is_spent q (update r f table) ≡ true
unfolding is_spent update
is_spent-update q r f [] keep spent h = h
is_spent-update q r f (c ∷ table) keep spent h = elim (Bool-cases (c.reference == r)) [
  | inr n ↦ rw n (ground (arith, is_spent-update q r f table keep spent))
  | inl y ↦ rw (y, keep c) (ground (arith, is_spent-update q r f table keep spent, spent c))
]

is_spent-claimed :
    (r : Text) (table : Table) (c : Confirmation)
    → by_reference r table ≡ some c
    → is_spent r (update r (set_state claimed) table) ≡ true
unfolding is_spent update by_reference
is_spent-claimed r [] c h = absurd (none-ne-some c h)
is_spent-claimed r (b ∷ table) c h = elim (Bool-cases (b.reference == r)) [
  | inl y ↦ rw y (rw y refl)
  | inr n ↦ rw n (
      rw n (
        is_spent-claimed r table c
          (ap (λ same. if same then some b else by_reference r table) (sym n) ∙ h)))
]

is_spent-by_reference :
    (r : Text) (table : Table) (c : Confirmation)
    → by_reference r table ≡ some c
    → is_spent r table ≡ not (is_awaiting c.state)
unfolding is_spent by_reference
is_spent-by_reference r [] c h = absurd (none-ne-some c h)
is_spent-by_reference r (b ∷ table) c h = ground (arith, is_spent-by_reference r table c)

-- A row that passes was found, and waits.
valid_row-awaiting :
    (f : Files) (r d : Text) (o : Option Confirmation) (p : Payload)
    → valid_row f r d o ≡ ok p
    → (c : Confirmation) × (o ≡ some c) × (is_awaiting c.state ≡ true)
unfolding valid_row
valid_row-awaiting f r d none p h = ground arith
valid_row-awaiting f r d (some c) p h =
    let same = guard (c.digest == d) ConfirmError.summary_mismatch in
    let waits = guard (is_awaiting c.state) ConfirmError.already_consumed in
    let intact = guard (f.sha256 c.payload.summary == d) ConfirmError.corrupt_confirmation in
    let bound = bound_source f r c.payload c.payload.plan_file >>= λ source.
    guard (source == c.payload.source_digest) ConfirmError.source_mismatch in
    (
      c,
      refl,
      ok_guard (is_awaiting c.state) ConfirmError.already_consumed (
          ok_second same waits tt (
            ok_first (same >> waits) intact tt (
              ok_first (same >> waits >> intact) bound tt
                (ok_first (same >> waits >> intact >> bound) (ok c.payload) p h)))),
    )

-- A claim finds the row of its reference unspent, and spends it.
pub claim-is_spent :
    (f : Files) (r d : Text) (table : Table) (p : Payload × Table)
    → claim f r d table ≡ ok p
    → (is_spent r table ≡ false) × (is_spent r p.1 ≡ true)
unfolding claim
claim-is_spent f r d table p h =
    let v =
      ok_bind (valid_row f r d (by_reference r table))
        (λ payload. ok (payload, update r (set_state claimed) table)) p h in
    let w = valid_row-awaiting f r d (by_reference r table) v.0 v.1 in
    (
      is_spent-by_reference r table w.0 w.1 ∙ ap not w.2,
      subst (λ q. is_spent r q.1 ≡ true) (ok_injective {E = ConfirmError} v.2)
          (is_spent-claimed r table w.0 w.1),
    )

-- The references that the calls claim, in order.
unfoldable pub claimed_by : Call → Result ConfirmError (Payload × Table) → List Text
claimed_by (confirms r d) (ok _) = r ∷ []
claimed_by _ _ = []

unfoldable pub claims : Files → Table → List Call → List Text
unfolding claimed_by step
claims f table [] = []
claims f table (confirms r d ∷ calls) =
    claimed_by (confirms r d) (claim f r d table) ++ claims f (step f table (confirms r d)) calls
claims f table (c ∷ calls) = claims f (step f table c) calls

is_spent-prepare :
    (q r d legacy : Text) (payload : Payload) (table : Table)
    → is_spent q table ≡ true
    → is_spent q (prepare r d legacy payload table).table ≡ true
unfolding prepare prepare_onto insert
is_spent-prepare q r d legacy payload table h = elim (Option-cases (existing d legacy table)) [
  | inr c ↦ rw c.1 h
  | inl n ↦ elim (Bool-cases (conflicts r d table)) [
    | inl t ↦ rw (n, t) h
    | inr u ↦ rw (n, u) (is_spent-append q table _ h)
  ]
]

-- A spent reference stays spent.
pub is_spent-step :
    (f : Files) (q : Text) (table : Table) (c : Call)
    → is_spent q table ≡ true
    → is_spent q (step f table c) ≡ true
unfolding step claimed_table claim
is_spent-step f q table (prepares r d legacy p) h = is_spent-prepare q r d legacy p table h
is_spent-step f q table (starts r path) h =
    is_spent-update q r (set_run path) table (λ c. refl) (λ c w. w) h
is_spent-step f q table (completes r path) h =
    is_spent-update q r (λ c. set_run path (set_state completed c)) table (λ c. refl) (λ c w. refl)
      h
is_spent-step f q table (interrupts r) h =
    is_spent-update q r (set_state interrupted) table (λ c. refl) (λ c w. refl) h
is_spent-step f q table (confirms r d) h =
    elim (Result-cases (valid_row f r d (by_reference r table))) [
      | inr e ↦ rw e.1 h
      | inl v ↦ rw v.1 (is_spent-update q r (set_state claimed) table (λ c. refl) (λ c w. refl) h)
    ]

-- A reference that is claimed is not one that is spent.
not_spent :
    (f : Files) (r d q : Text) (table : Table)
    → is_spent q table ≡ true
    → (p : Payload × Table) → claim f r d table ≡ ok p
    → (r == q) ≡ false
not_spent f r d q table h p k = elim (Bool-cases (r == q)) [
  | inr n ↦ n
  | inl y ↦ absurd (
      true≢false (
        sym h
        ∙ ap (λ x. is_spent x table) (sym ((list_beq_iff {A = ℕ} r q).0 y))
        ∙ (claim-is_spent f r d table p k).0))
]

others_claimed :
    (r d q : Text) (o : Result ConfirmError (Payload × Table)) (rest : List Text)
    → ((p : Payload × Table) → o ≡ ok p → (r == q) ≡ false)
    → contains rest q ≡ false
    → contains (claimed_by (confirms r d) o ++ rest) q ≡ false
unfolding claimed_by
others_claimed r d q (err _) rest k h = h
others_claimed r d q (ok p) rest k h = rw (k p refl) h

-- A spent reference is claimed no more.
spent_claims :
    (f : Files) (q : Text) (table : Table) (calls : List Call)
    → is_spent q table ≡ true
    → contains (claims f table calls) q ≡ false
unfolding claims claimed_by
spent_claims f q table [] h = refl
spent_claims f q table (confirms r d ∷ calls) h =
    others_claimed r d q (claim f r d table) (claims f (step f table (confirms r d)) calls)
      (not_spent f r d q table h)
      (spent_claims f q (step f table (confirms r d)) calls
        (is_spent-step f q table (confirms r d) h))
spent_claims f q table (prepares r d legacy p ∷ calls) h =
    spent_claims f q (step f table (prepares r d legacy p)) calls
      (is_spent-step f q table (prepares r d legacy p) h)
spent_claims f q table (starts r path ∷ calls) h =
    spent_claims f q (step f table (starts r path)) calls
      (is_spent-step f q table (starts r path) h)
spent_claims f q table (completes r path ∷ calls) h =
    spent_claims f q (step f table (completes r path)) calls
      (is_spent-step f q table (completes r path) h)
spent_claims f q table (interrupts r ∷ calls) h =
    spent_claims f q (step f table (interrupts r)) calls (is_spent-step f q table (interrupts r) h)

first_claimed :
    (r d : Text) (o : Result ConfirmError (Payload × Table)) (rest : List Text)
    → ((p : Payload × Table) → o ≡ ok p → contains rest r ≡ false)
    → Distinct rest
    → Distinct (claimed_by (confirms r d) o ++ rest)
unfolding claimed_by
first_claimed r d (err _) rest k h = h
first_claimed r d (ok p) rest k h = (k p refl, h)

-- Whatever sequence of transactions the processes on the database make, each reference is claimed at most once.
pub claims-Distinct :
    (f : Files) (table : Table) (calls : List Call) → Distinct (claims f table calls)
unfolding claims step claimed_table
claims-Distinct f table [] = tt
claims-Distinct f table (confirms r d ∷ calls) =
    first_claimed r d (claim f r d table) (claims f (step f table (confirms r d)) calls)
      (λ p k.
        spent_claims f r (step f table (confirms r d)) calls
          (rw k (claim-is_spent f r d table p k).1))
      (claims-Distinct f (step f table (confirms r d)) calls)
claims-Distinct f table (prepares r d legacy p ∷ calls) =
    claims-Distinct f (step f table (prepares r d legacy p)) calls
claims-Distinct f table (starts r path ∷ calls) =
    claims-Distinct f (step f table (starts r path)) calls
claims-Distinct f table (completes r path ∷ calls) =
    claims-Distinct f (step f table (completes r path)) calls
claims-Distinct f table (interrupts r ∷ calls) =
    claims-Distinct f (step f table (interrupts r)) calls
