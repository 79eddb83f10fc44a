-- ===== src/Approvals/Chain.antt =====
-- src/orbitflow/configuration/approvals.py: the history that the decisions of a store make, and how it is read.
use orbit_flow_evo.Base.{
  ℕ, ◌+◌, ◌≤◌, ◌≡◌, refl, sym, ◌∙◌, ap, some, List, [], ◌∷◌, ◌++◌, ok, arith, map, length,
}
use orbit_flow_evo.Base.Equality.{list_eq, list_beq, nat_eq, eq_self}
use orbit_flow_evo.Base.Texts.{Text, codes}
use orbit_flow_evo.Json.{Json, get}
use orbit_flow_evo.Approvals.{Platform, Decision, to_json, Row, subscript, check_row, read_rows}
use orbit_flow_evo.Approvals.Store.{signed_row, last_of, check_clock}

-- What is documented of Python's `json`: what `canonical` writes of a decision `decode` reads back.
pub record IsFaithful (p : Platform) : Type 0 where
  pub reads : (d : Decision) → p.loads (p.dumps (to_json d)) ≡ some (to_json d)

module _ (p : Platform) (key : Text) where
  abbrev pub signature_of : Decision → Text
  signature_of d = p.sign key (p.dumps (to_json d))

  -- The rows of a history, after `count` rows.
  abbrev pub rows_of : ℕ → List Decision → List Row
  rows_of count [] = []
  rows_of count (d ∷ ds) = signed_row p key count d ∷ rows_of (count + 1) ds

  abbrev pub last_signature : Text → List Decision → Text
  last_signature previous [] = previous
  last_signature previous (d ∷ ds) = last_signature (signature_of d) ds

  -- Each decision names the signature of the one before it, and is not issued before it.
  abbrev pub IsChained : Text → ℕ → List Decision → Type 0
  IsChained previous now [] = Unit
  IsChained previous now (d ∷ ds) =
      (d.previous ≡ previous) × ((now ≤ d.issued_at) × IsChained (signature_of d) d.issued_at ds)

  check_row-signed :
      (f : IsFaithful p) (count : ℕ) (d : Decision)
      → check_row p key count d.previous (signed_row p key count d) ≡ ok (to_json d)
  unfolding check_row get to_json list_beq
  check_row-signed f count d =
      let same = eq_self (p.sign key (p.dumps (to_json d))) in
      let reads = f.reads d in let named = eq_self d.previous in ground arith

  pub read_rows-rows_of :
      (f : IsFaithful p) (count : ℕ) (previous : Text) (now : ℕ) (ds : List Decision)
      → IsChained previous now ds
      → read_rows p key count previous (rows_of count ds)
        ≡ ok (map to_json ds, last_signature previous ds)
  unfolding read_rows
  read_rows-rows_of f count previous now [] c = refl
  read_rows-rows_of f count previous now (d ∷ ds) c =
      rw
        (
          sym c.0,
          check_row-signed f count d,
          read_rows-rows_of f (count + 1) (signature_of d) d.issued_at ds c.1.1,
        )
        refl

  pub rows_of-snoc :
      (count : ℕ) (ds : List Decision) (d : Decision)
      → rows_of count (ds ++ d ∷ [])
        ≡ rows_of count ds ++ signed_row p key (count + length ds) d ∷ []
  rows_of-snoc count [] d = ap (λ n. signed_row p key n d ∷ []) (omega arith)
  rows_of-snoc count (e ∷ ds) d = ap (◌∷◌ (signed_row p key count e)) (
      rows_of-snoc (count + 1) ds d
      ∙ ap (λ n. rows_of (count + 1) ds ++ signed_row p key n d ∷ []) (omega arith))

  -- The time of the last decision, or `now` where there is none.
  abbrev pub last_issued : ℕ → List Decision → ℕ
  last_issued now [] = now
  last_issued now (d ∷ ds) = last_issued d.issued_at ds

  pub IsChained-snoc :
      (previous : Text) (now : ℕ) (ds : List Decision) (d : Decision)
      → IsChained previous now ds
      → d.previous ≡ last_signature previous ds
      → last_issued now ds ≤ d.issued_at
      → IsChained previous now (ds ++ d ∷ [])
  IsChained-snoc previous now [] d c e l = (e, (l, tt))
  IsChained-snoc previous now (x ∷ ds) d c e l =
      (c.0, (c.1.0, IsChained-snoc (signature_of x) x.issued_at ds d c.1.1 e l))

last_of-map :
    (d : Decision) (ds : List Decision)
    → (e : Decision) × (last_of (to_json d) (map to_json ds) ≡ to_json e)
      × ((p : Platform) (key : Text) (now : ℕ) → last_issued p key now (d ∷ ds) ≡ e.issued_at)
last_of-map d [] = (d, refl, λ p key now. refl)
last_of-map d (x ∷ ds) =
    let (e, f, g) = last_of-map x ds in (e, f, λ p key now. g p key d.issued_at)

issued-to_json :
    (e : Decision) → subscript (to_json e) (codes "issued_at") ≡ ok (Json.integer e.issued_at)
unfolding to_json get list_beq
issued-to_json e = refl

-- A clock that is accepted is not behind the last decision.
pub check_clock-last :
    (p : Platform) (key : Text) (now : ℕ) (ds : List Decision)
    → check_clock now (map to_json ds) ≡ ok tt
    → last_issued p key 0 ds ≤ now
unfolding check_clock
check_clock-last p key now [] h = omega arith
check_clock-last p key now (d ∷ ds) h =
    let (e, f, g) = last_of-map d ds in
    let read = ap (λ j. subscript j (codes "issued_at")) f ∙ issued-to_json e in
    rw (g p key 0) (ground (arith, rw read at h))
