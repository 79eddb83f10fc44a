-- ===== src/Spool/Readback.antt =====
-- src/orbitflow/result_spool.py: `append` and then `get`.
use mathlib.Core.Path.{subst}
use orbit_flow_evo.Base.{
  ℕ, ◌≤◌, ◌≡◌, ◌≢◌, refl, sym, ◌∙◌, ap, Bool, false, not, ◌&&◌, Option, none, some, List, [], ◌∷◌,
  Result, ok, err, arith, if◌then◌else◌, nat_beq, inl, inr, Bool-cases, Result-cases, guard, ◌>>◌,
  leb, length,
}
use orbit_flow_evo.Base.Equality.{nat_eq, contains}
use orbit_flow_evo.Base.Texts.{Text}
use orbit_flow_evo.Json.{Json}
use orbit_flow_evo.Spool.{Row, Run, SpoolError, insert_row, collecting}
use orbit_flow_evo.Spool.Safe.{safe}
use orbit_flow_evo.Spool.Retry.{Storing}
use orbit_flow_evo.Spool.Stored.{set_state-Stores}
use orbit_flow_evo.Spool.Append.{
  Codec, Append, row_positions, chosen, commit, latched, record_state, record_staged, stage,
  prepare, append, envelope, envelope_of, is_failed, max_record_bytes,
}
use orbit_flow_evo.Spool.Staged.{IsFaithful, prepare-Admits, stage-decodes}
use orbit_flow_evo.Spool.Recorded.{IsEnvelope, as_envelope}
use orbit_flow_evo.Spool.Index.{find_row, checked, decoded, get_record}
use orbit_flow_evo.Spool.Index.Laws.{decoded-envelope}

find_row-insert_row :
    (r : Row) (rows : List Row) (q : ℕ)
    → contains (row_positions rows) r.position ≡ false
    → find_row q (insert_row r rows) ≡ (if nat_beq r.position q then some r else find_row q rows)
unfolding find_row insert_row
find_row-insert_row r [] q h = refl
find_row-insert_row r (x ∷ rows) q h = ground (arith, find_row-insert_row r rows q)

latched_ok :
    (r : Result SpoolError (Unit {0})) (run : Run)
    → (latched (r, run)).0 ≡ ok tt
    → (r ≡ ok tt) × (latched (r, run) ≡ (r, run))
latched_ok (ok tt) run h = (refl, refl)
latched_ok (err e) run h = cc

-- A commit that returned, and what `_state` did after it.
record Commits (row : Row) (failed : Bool) (run run' : Run) : Type 0 where
  pub new : contains (row_positions run.rows) row.position ≡ false
  pub rows : run'.rows ≡ insert_row row run.rows
  pub run_id : run'.manifest.run_id ≡ run.manifest.run_id
  pub target_count : run'.manifest.target_count ≡ run.manifest.target_count

record_state-Commits :
    (s : Storing) (commits : Bool) (row : Row) (failed : Bool) (run : Run)
    → (record_state s (commit commits row failed run)).0 ≡ ok tt
    → Commits row failed run (record_state s (commit commits row failed run)).1
unfolding commit
record_state-Commits s commits row failed run h =
    elim (Bool-cases (commits && not (contains (row_positions run.rows) row.position))) [
      | inr out ↦ absurd (ground (arith, rw out at h))
      | inl in' ↦ rw in' (
          let t = set_state-Stores s collecting _ in
          record {
            new = ground (arith, in');
            rows = t.rows;
            run_id = rw t.manifest refl;
            target_count = rw t.manifest refl;
          })
    ]

record_staged-Commits :
    (a : Append) (p : ℕ) (t : Text) (failed : Bool) (staging : Result SpoolError Text) (run : Run)
    → (record_staged a p t failed staging run).0 ≡ ok tt
    → (stored : Text) × (staging ≡ ok stored)
      × Commits
          (record { position = p; target = t; stored = stored })
          failed
          run
          (record_staged a p t failed staging run).1
record_staged-Commits a p t failed (err e) run h = cc
record_staged-Commits a p t failed (ok stored) run h =
    let row : Row = record { position = p; target = t; stored = stored } in
    let z = record_state a.storing (commit a.commits row failed run) in
    let (done, same) = latched_ok z.0 z.1 h in
    (
      stored,
      refl,
      subst (λ y. Commits row failed run y.1) (sym same)
          (record_state-Commits a.storing a.commits row failed run done),
    )

checked-same :
    (run run' : Run) (row : Row) (o : Option Json)
    → run'.manifest.run_id ≡ run.manifest.run_id
    → run'.manifest.target_count ≡ run.manifest.target_count
    → checked run' row o ≡ checked run row o
checked-same run run' row none e f = refl
checked-same run run' row (some j) e f = rw (e, f) refl

decoded-same :
    (codec : Codec) (run run' : Run) (o : Option Row)
    → run'.manifest.run_id ≡ run.manifest.run_id
    → run'.manifest.target_count ≡ run.manifest.target_count
    → decoded codec run' o ≡ decoded codec run o
decoded-same codec run run' none e f = refl
decoded-same codec run run' (some row) e f =
    ap (λ r. guard (leb (length row.stored) max_record_bytes) SpoolError.record_size >> r)
      (checked-same run run' row (codec.loads row.stored) e f)

get_record-Commits :
    (codec : Codec) (row : Row) (failed : Bool) (run run' : Run)
    (e : IsEnvelope codec run.manifest.run_id row failed)
    → 1 ≤ row.position
    → row.position ≤ run.manifest.target_count
    → Commits row failed run run'
    → (get_record codec run' row.position
        ≡ ok (
            envelope run.manifest.run_id row.position row.target failed e.completed_at e.category
              e.payload))
      × ((q : ℕ) → row.position ≢ q → get_record codec run' q ≡ get_record codec run q)
unfolding get_record
get_record-Commits codec row failed run run' e l h c =
    let found : find_row row.position run'.rows ≡ some row =
      rw c.rows
        (let f = find_row-insert_row row run.rows row.position c.new in ground (arith, f)) in
    let others : (q : ℕ) → row.position ≢ q → find_row q run'.rows ≡ find_row q run.rows =
      λ q n. rw c.rows (let f = find_row-insert_row row run.rows q c.new in ground (arith, f, n)) in
    let moved : IsEnvelope codec run'.manifest.run_id row failed = record {
      completed_at = e.completed_at;
      category = e.category;
      payload = e.payload;
      bounded = e.bounded;
      decodes = rw c.run_id e.decodes;
    } in
    (
      rw found (
          decoded-envelope codec run' row failed moved l (rw c.target_count h)
          ∙ ap
              (λ id.
                ok (envelope id row.position row.target failed e.completed_at e.category e.payload))
              c.run_id),
      λ q n.
          rw (others q n)
            (decoded-same codec run run' (find_row q run.rows) c.run_id c.target_count),
    )

-- Where JSON reads back what it has written, after an append that returns, the position that it names reads back as the envelope of its
-- outcome, with the payload that `_safe` gave; every other position reads as before.
pub append-get_record :
    (codec : Codec) (clean : Text → Text) (a : Append) (run : Run)
    → IsFaithful codec
    → (append codec clean a run).0 ≡ ok tt
    → (p : ℕ) × (payload : Json) × (a.position ≡ Json.integer p)
      × (safe clean (chosen a.payload a.value) ≡ ok payload)
      × (get_record codec (append codec clean a run).1 p
          ≡ ok (envelope_of codec clean a run p payload))
      × ((q : ℕ) → p ≢ q → get_record codec (append codec clean a run).1 q ≡ get_record codec run q)
unfolding append
append-get_record codec clean a run f h = elim (Result-cases (prepare codec clean a run)) [
  | inr (e, bad) ↦ absurd (ground (arith, rw bad at h))
  | inl ((p, payload), good) ↦
      let (admitted, normal) = prepare-Admits clean codec a run p payload good in
      let staging = stage codec a (envelope_of codec clean a run p payload) in
      let (stored, e, c) =
        record_staged-Commits a p (clean a.target) (is_failed codec clean a) staging run
          (rw good at h) in
      let image =
        as_envelope codec run.manifest.run_id
          (record { position = p; target = clean a.target; stored = stored })
          (is_failed codec clean a) a.completed_at (clean a.error_category) payload
          (stage-decodes codec clean a run p payload stored f normal e) in
      let (here, elsewhere) =
        get_record-Commits codec _ (is_failed codec clean a) run _ image admitted.low admitted.high
          c in
      (p, payload, admitted.at, normal, rw good here, rw good elsewhere)
]
