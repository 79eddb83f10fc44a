-- ===== src/Spool/Index/Laws.antt =====
-- src/orbitflow/result_spool.py: reading back what a collection has stored.
use orbit_flow_evo.Base.{
  ℕ, suc, ◌+◌, ◌≤◌, ◌≡◌, refl, sym, ◌∙◌, ap, Bool, true, false, some, List, [], ◌∷◌, Result, ok,
  arith, length, keep, if◌then◌else◌, All, All-map,
}
use orbit_flow_evo.Base.Equality.{nat_eq, list_eq, list_beq, eq_self}
use orbit_flow_evo.Base.Texts.{Text}
use orbit_flow_evo.Json.{Json, get}
use orbit_flow_evo.Spool.{Row, Run, SpoolError}
use orbit_flow_evo.Spool.Append.{Codec, row_positions, envelope}
use orbit_flow_evo.Spool.Recorded.{Ascending, Holds, IsEnvelope, IsAccount}
use orbit_flow_evo.Spool.Index.Paging.{identifiers_complete}
use orbit_flow_evo.Spool.Index.{
  is_envelope, has_failed, find_row, decoded, get_record, records, read_each, every_record,
  count_failed, selects,
}

is_envelope-envelope :
    (run_id : Text) (target_count : ℕ) (row : Row) (failed : Bool) (completed_at category : Text)
    (payload : Json)
    → 1 ≤ row.position
    → row.position ≤ target_count
    → is_envelope run_id target_count row
        (envelope run_id row.position row.target failed completed_at category payload)
      ≡ true
unfolding is_envelope envelope get list_beq
is_envelope-envelope run_id target_count row true at c payload l h =
    ground (arith, l, h, eq_self run_id, eq_self row.target)
is_envelope-envelope run_id target_count row false at c payload l h =
    ground (arith, l, h, eq_self run_id, eq_self row.target)

has_failed-envelope :
    (run_id target completed_at category : Text) (p : ℕ) (failed : Bool) (payload : Json)
    → has_failed (envelope run_id p target failed completed_at category payload) ≡ failed
unfolding has_failed envelope get list_beq
has_failed-envelope run_id target at c p true payload = refl
has_failed-envelope run_id target at c p false payload = refl

-- The rows decode to envelopes: those of the positions in them, with the number of failures.
pub decoded-envelope :
    (codec : Codec) (run : Run) (row : Row) (failed : Bool)
    (e : IsEnvelope codec run.manifest.run_id row failed)
    → 1 ≤ row.position
    → row.position ≤ run.manifest.target_count
    → decoded codec run (some row)
      ≡ ok (
          envelope run.manifest.run_id row.position row.target failed e.completed_at e.category
            e.payload)
decoded-envelope codec run row failed e l h = rw e.decodes (
    let valid =
      is_envelope-envelope run.manifest.run_id run.manifest.target_count row failed e.completed_at
        e.category e.payload l h in
    let short = e.bounded in ground arith)

-- A row that a lookup of its position finds in the store, and the range of that position.
abbrev Finds : ℕ → ℕ → List Row → Row → Type 0
Finds lo hi rows r = (lo ≤ r.position) × (r.position ≤ hi) × (find_row r.position rows ≡ some r)

Finds-cons :
    (lo hi : ℕ) (x : Row) (rows : List Row) (r : Row)
    → lo ≤ x.position
    → Finds (x.position + 1) hi rows r
    → Finds lo hi (x ∷ rows) r
unfolding find_row
Finds-cons lo hi x rows r l (low, high, found) = (omega arith, high, ground (arith, low, found))

find_row-All : (lo hi : ℕ) (rows : List Row) → Ascending lo hi rows → All (Finds lo hi rows) rows
unfolding find_row
find_row-All lo hi [] a = tt
find_row-All lo hi (x ∷ rows) a = (
  (a.0, a.1, ground arith),
  All-map (λ r f. Finds-cons lo hi x rows r a.0 f) rows (find_row-All (x.position + 1) hi rows a.2),
)

-- The records that are read, with the counts of them and of those that failed.
pub record Counts (read : Result SpoolError (List Json)) (n m : ℕ) : Type 0 where
  pub records : List Json
  pub returns : read ≡ ok records
  pub completed : length records ≡ n
  pub failed : count_failed records ≡ m

Counts-cons :
    (read : ℕ → Result SpoolError Json) (p : ℕ) (ps : List ℕ) (j : Json) (failed : Bool) (n m : ℕ)
    → read p ≡ ok j
    → has_failed j ≡ failed
    → Counts (read_each read ps) n m
    → Counts (read_each read (p ∷ ps)) (suc n) (m + (if failed then 1 else 0))
Counts-cons read p ps j failed n m e f c = record {
  records = j ∷ c.records;
  returns = rw (e, c.returns) refl;
  completed = omega (arith, c.completed);
  failed = rw (f, c.failed) refl;
}

read_each-Counts :
    (codec : Codec) (run : Run) (n : ℕ) (rows : List Row)
    → Holds codec run.manifest.run_id n rows
    → All (Finds 1 run.manifest.target_count run.rows) rows
    → Counts (read_each (get_record codec run) (row_positions rows)) (length rows) n
unfolding get_record
read_each-Counts codec run n [] h a = record {
  records = [];
  returns = refl;
  completed = refl;
  failed = sym h;
}
read_each-Counts codec run n (row ∷ rows) (failed, m, e, c, h) a =
    let (low, high, found) = a.0 in
    let rest = read_each-Counts codec run m rows h a.1 in
    rw c (
      Counts-cons (get_record codec run) row.position (row_positions rows) _ failed (length rows) m
        (rw found (decoded-envelope codec run row failed e low high))
        (has_failed-envelope run.manifest.run_id row.target e.completed_at e.category row.position
          failed e.payload)
        rest)

keep-every : (rows : List Row) → keep (selects every_record) rows ≡ rows
keep-every [] = refl
keep-every (r ∷ rows) = ap (◌∷◌ r) (keep-every rows)

-- Where the manifest accounts for the rows, reading all of the records returns; as many as the
-- manifest's completed count come back, and as many of them failed as its failed count says.
pub records-Counts :
    (codec : Codec) (run : Run)
    → IsAccount codec run.manifest run.rows
    → Counts (records codec run every_record) run.manifest.completed_count run.manifest.failed_count
unfolding records
records-Counts codec run a =
    let paged =
      identifiers_complete 255 every_record run.rows run.manifest.target_count a.ascending
      ∙ ap (λ rows. some (row_positions rows)) (keep-every run.rows) in
    rw (paged, a.completed)
      (read_each-Counts codec run run.manifest.failed_count run.rows a.failed
        (find_row-All 1 run.manifest.target_count run.rows a.ascending))
