-- ===== src/Spool/Staged.antt =====
-- src/orbitflow/result_spool.py: what `append` has checked and staged by the time it commits.
use orbit_flow_evo.Base.{
  ap, ℕ, ◌+◌, ◌≤◌, ◌≡◌, refl, sym, Bool, true, false, some, not, List, [], ◌∷◌, ok, arith, guard,
  length, length-append, ok_bind, ok_first, ok_second, ok_guard, ok_injective,
}
use orbit_flow_evo.Base.Equality.{nat_eq, list_eq, list_beq, contains}
use orbit_flow_evo.Base.Texts.{Text}
use orbit_flow_evo.Json.{Json}
use orbit_flow_evo.Spool.{Run, SpoolError}
use orbit_flow_evo.Spool.Safe.{safe}
use orbit_flow_evo.Spool.Append.{
  Codec, Append, owned_by, as_position, validate, stage_chunks, staged, stage, join,
  max_record_bytes, prepare, chosen, envelope, envelope_of, is_failed,
}
use orbit_flow_evo.Spool.Sanitized.{IsSanitized, HasDistinctNames, safe-HasDistinctNames}

stage_chunks-size :
    (start size n : ℕ) (chunks : List Text)
    → stage_chunks start size chunks ≡ ok n
    → size + 1 ≤ max_record_bytes
    → (n ≡ size + length (join chunks)) × (n + 1 ≤ max_record_bytes)
unfolding stage_chunks
stage_chunks-size start size n [] h l =
    let e = ok_injective h in (omega (arith, e), omega (arith, e))
stage_chunks-size start size n (chunk ∷ chunks) h l =
    let rest = stage_chunks-size start (size + length chunk) n chunks in
    (ground (arith, rest, length-append chunk (join chunks)), ground (arith, rest))

-- A record that is staged is its chunks and a line feed, within the limit of a record.
pub stage-bounds :
    (codec : Codec) (a : Append) (j : Json) (text : Text)
    → stage codec a j ≡ ok text
    → (text ≡ staged codec j) × (codec.completes j ≡ true) × (length text ≤ max_record_bytes)
unfolding stage staged
stage-bounds codec a j text h =
    let staging = ok_second (guard a.stages SpoolError.storage) _ text h in
    let (n, e, f) = ok_bind (stage_chunks a.start 0 (codec.iterencode j)) _ text staging in
    let g = ok_first (guard (codec.completes j) SpoolError.not_json) _ text f in
    let s = ok_injective (ok_second (guard (codec.completes j) SpoolError.not_json) _ text f) in
    let sizes = stage_chunks-size a.start 0 n (codec.iterencode j) e (omega arith) in
    (
      sym s,
      ok_guard (codec.completes j) SpoolError.not_json g,
      rw (sym s) (omega (arith, sizes, length-append (join (codec.iterencode j)) (10 ∷ []))),
    )

-- What the guards establish.
pub record Admits (a : Append) (run : Run) (position : ℕ) : Type 0 where
  pub owned : owned_by a.thread run.writer ≡ true
  pub going : run.append_failed ≡ false
  pub new : contains run.positions position ≡ false
  pub low : 1 ≤ position
  pub high : position ≤ run.manifest.target_count
  pub at : a.position ≡ Json.integer position

as_position-bounds :
    (run : Run) (j : Json) (p : ℕ)
    → as_position run j ≡ ok p
    → (contains run.positions p ≡ false)
      × (1 ≤ p)
      × (p ≤ run.manifest.target_count)
      × (j ≡ Json.integer p)
as_position-bounds run (Json.integer q) p h =
    let same = ok_injective (ok_second (guard _ _) (ok q) p h) in
    let test = ok_guard _ _ (ok_first (guard _ _) (ok q) p h) in
    rw (sym same) (ground (arith, test), ground (arith, test), ground (arith, test), refl)
as_position-bounds run Json.null p h = cc
as_position-bounds run (Json.boolean b) p h = cc
as_position-bounds run (Json.negative n) p h = cc
as_position-bounds run (Json.real t) p h = cc
as_position-bounds run (Json.text t) p h = cc
as_position-bounds run (Json.array xs) p h = cc
as_position-bounds run (Json.object fs) p h = cc

pub validate-Admits : (a : Append) (run : Run) (p : ℕ) → validate a run ≡ ok p → Admits a run p
unfolding validate
validate-Admits a run p h =
    let owner =
      ok_guard (owned_by a.thread run.writer) SpoolError.not_owner
        (ok_first (guard (owned_by a.thread run.writer) SpoolError.not_owner) _ p h) in
    let next = ok_second (guard (owned_by a.thread run.writer) SpoolError.not_owner) _ p h in
    let goes = ok_guard (not run.append_failed) SpoolError.stopped (
      ok_first (guard (not run.append_failed) SpoolError.stopped) (as_position run a.position) p
        next) in
    let at =
      as_position-bounds run a.position p
        (ok_second (guard (not run.append_failed) SpoolError.stopped) _ p next) in
    record {
      owned = owner;
      going = ground (arith, goes);
      new = at.0;
      low = at.1;
      high = at.2;
      at = at.3;
    }

pub prepare-Admits :
    (clean : Text → Text) (codec : Codec) (a : Append) (run : Run) (p : ℕ) (payload : Json)
    → prepare codec clean a run ≡ ok (p, payload)
    → Admits a run p × (safe clean (chosen a.payload a.value) ≡ ok payload)
unfolding prepare
prepare-Admits clean codec a run p payload h =
    let (q, e, f) = ok_bind (validate a run) _ (p, payload) h in
    let (j, g, k) = ok_bind (safe clean (chosen a.payload a.value)) _ (p, payload) f in
    let same = ok_injective k in
    let first : q ≡ p = ap (λ x. x.0) same in
    let second : j ≡ payload = ap (λ x. x.1) same in
    (validate-Admits a run p (rw (sym first) e), rw (sym second) g)

-- What is documented of Python's `json`: `loads` reads back what `iterencode` has written.
pub record IsFaithful (codec : Codec) : Type 0 where
  pub loads_staged :
      (j : Json)
      → HasDistinctNames j
      → codec.completes j ≡ true
      → codec.loads (staged codec j) ≡ some j

envelope-HasDistinctNames :
    (run_id target completed_at category : Text) (p : ℕ) (failed : Bool) (payload : Json)
    → HasDistinctNames payload
    → HasDistinctNames (envelope run_id p target failed completed_at category payload)
unfolding envelope IsSanitized list_beq
envelope-HasDistinctNames run_id target completed_at category p failed payload h = (
  (refl, (refl, (refl, (refl, (refl, (refl, (refl, tt))))))),
  (tt, tt, (tt, tt, (tt, tt, (tt, tt, (tt, tt, (tt, tt, (tt, h, tt))))))),
)

-- A staged envelope reads back from the text.
pub stage-decodes :
    (codec : Codec) (clean : Text → Text) (a : Append) (run : Run) (p : ℕ) (payload : Json)
    (stored : Text)
    → IsFaithful codec
    → safe clean (chosen a.payload a.value) ≡ ok payload
    → stage codec a (envelope_of codec clean a run p payload) ≡ ok stored
    → (length stored ≤ max_record_bytes)
      × (codec.loads stored ≡ some (envelope_of codec clean a run p payload))
stage-decodes codec clean a run p payload stored f h e =
    let (same, complete, short) = stage-bounds codec a _ stored e in
    (
      short,
      rw same (
          f.loads_staged _
            (envelope-HasDistinctNames run.manifest.run_id (clean a.target) a.completed_at
              (clean a.error_category) p (is_failed codec clean a) payload
              (safe-HasDistinctNames clean (chosen a.payload a.value) payload h))
            complete),
    )
