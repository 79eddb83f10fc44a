-- ===== src/Spool/Recorded.antt =====
-- src/orbitflow/result_spool.py: what the store holds of the appended outcomes, whatever fails.
use orbit_flow_evo.Base.{
  ℕ, ◌+◌, ◌≤◌, ◌≡◌, refl, Bool, true, false, some, List, [], ◌∷◌, arith, leb, length, if◌then◌else◌,
}
use orbit_flow_evo.Base.Equality.{nat_eq, contains}
use orbit_flow_evo.Base.Texts.{Text}
use orbit_flow_evo.Spool.{created, collecting, Manifest, Row, insert_row}
use orbit_flow_evo.Spool.Append.{Codec, row_positions, checkpoint, max_record_bytes, envelope}
use orbit_flow_evo.Json.{Json}

-- The rows stand in ascending order of positions, from `lo` on and up to `hi`.
abbrev pub Ascending : ℕ → ℕ → List Row → Type 0
Ascending lo hi [] = Unit
Ascending lo hi (r ∷ rows) =
    (lo ≤ r.position) × (r.position ≤ hi) × Ascending (r.position + 1) hi rows

pub Ascending-down :
    (lo lo' hi : ℕ) (rows : List Row) → lo ≤ lo' → Ascending lo' hi rows → Ascending lo hi rows
Ascending-down lo lo' hi [] h a = tt
Ascending-down lo lo' hi (r ∷ rows) h a = (omega arith, a.1, a.2)

pub Ascending-insert_row :
    (lo hi : ℕ) (r : Row) (rows : List Row)
    → lo ≤ r.position
    → r.position ≤ hi
    → contains (row_positions rows) r.position ≡ false
    → Ascending lo hi rows
    → Ascending lo hi (insert_row r rows)
unfolding insert_row
Ascending-insert_row lo hi r [] l h n a = (l, h, tt)
Ascending-insert_row lo hi r (x ∷ rows) l h n a =
    ground (arith, Ascending-insert_row (x.position + 1) hi r rows)

pub contains-insert_row :
    (r : Row) (rows : List Row) (p : ℕ)
    → contains (row_positions (insert_row r rows)) p ≡ contains (r.position ∷ row_positions rows) p
unfolding insert_row
contains-insert_row r [] p = refl
contains-insert_row r (x ∷ rows) p = ground (arith, contains-insert_row r rows p)

pub length-insert_row : (r : Row) (rows : List Row) → length (insert_row r rows) ≡ length rows + 1
unfolding insert_row
length-insert_row r [] = refl
length-insert_row r (x ∷ rows) = ground (arith, length-insert_row r rows)

-- A row that decodes to its own envelope; `failed` is the status in it.
pub record IsEnvelope (codec : Codec) (run_id : Text) (row : Row) (failed : Bool) : Type 0 where
  pub completed_at : Text
  pub category : Text
  pub payload : Json
  pub bounded : length row.stored ≤ max_record_bytes
  pub decodes :
      codec.loads row.stored
      ≡ some (envelope run_id row.position row.target failed completed_at category payload)

-- The envelope of an outcome, from the equation that its text decodes to it.
abbrev pub as_envelope :
    (codec : Codec) (run_id : Text) (row : Row) (failed : Bool) (completed_at category : Text)
    (payload : Json)
    → (length row.stored ≤ max_record_bytes)
      × (codec.loads row.stored
          ≡ some (envelope run_id row.position row.target failed completed_at category payload))
    → IsEnvelope codec run_id row failed
as_envelope codec run_id row failed completed_at category payload (short, decodes) = record {
  completed_at = completed_at;
  category = category;
  payload = payload;
  bounded = short;
  decodes = decodes;
}

-- The number of the rows that failed, with an envelope in each.
abbrev pub Holds : Codec → Text → ℕ → List Row → Type 0
Holds codec run_id n [] = n ≡ 0
Holds codec run_id n (row ∷ rows) =
    (failed : Bool) × (m : ℕ) × IsEnvelope codec run_id row failed
    × (n ≡ m + (if failed then 1 else 0))
    × Holds codec run_id m rows

pub Holds-insert_row :
    (codec : Codec) (run_id : Text) (n : ℕ) (row : Row) (failed : Bool) (rows : List Row)
    → IsEnvelope codec run_id row failed
    → Holds codec run_id n rows
    → Holds codec run_id (n + (if failed then 1 else 0)) (insert_row row rows)
unfolding insert_row
Holds-insert_row codec run_id n row failed [] e h = (failed, 0, e, ground (arith, h), refl)
Holds-insert_row codec run_id n row failed (x ∷ rows) e (f, m, ex, c, h) =
    elim (leb row.position x.position)
      as (λ b.
        Holds codec run_id (n + (if failed then 1 else 0))
          (if b then row ∷ x ∷ rows else x ∷ insert_row row rows)) [
            | true ↦ (failed, n, e, refl, (f, m, ex, c, h))
            | false ↦ (
              f,
              m + (if failed then 1 else 0),
              ex,
              omega (arith, c),
              Holds-insert_row codec run_id m row failed rows e h,
            )
          ]

-- A manifest that accounts for the rows.
pub record IsAccount (codec : Codec) (m : Manifest) (rows : List Row) : Type 0 where
  pub ascending : Ascending 1 m.target_count rows
  pub completed : m.completed_count ≡ length rows
  pub failed : Holds codec m.run_id m.failed_count rows
  pub fresh : m.status ≡ created → (rows ≡ []) × (m.collection_complete ≡ false)
  pub complete : m.collection_complete ≡ true → length rows ≡ m.target_count

pub IsAccount-checkpoint :
    (codec : Codec) (m : Manifest) (row : Row) (failed : Bool) (rows : List Row)
    → IsAccount codec m rows
    → m.status ≡ collecting
    → m.collection_complete ≡ false
    → 1 ≤ row.position
    → row.position ≤ m.target_count
    → contains (row_positions rows) row.position ≡ false
    → IsEnvelope codec m.run_id row failed
    → IsAccount codec (checkpoint failed m) (insert_row row rows)
IsAccount-checkpoint codec m row failed rows a s c l h n e = record {
  ascending = Ascending-insert_row 1 m.target_count row rows l h n a.ascending;
  completed = rw (length-insert_row row rows) (omega (arith, a.completed));
  failed = Holds-insert_row codec m.run_id m.failed_count row failed rows e a.failed;
  fresh = λ created'. absurd (ground (arith, s, created'));
  complete = λ complete'. absurd (ground (arith, c, complete'));
}
