-- ===== src/Spool/Append.antt =====
-- src/orbitflow/result_spool.py: `append`, which stages an outcome and commits it with the counts.
use orbit_flow_evo.Base.{
  ℕ, ◌+◌, ◌*◌, Bool, true, false, not, ◌&&◌, ◌||◌, Option, none, some, List, [], ◌∷◌, ◌++◌, Result,
  ok, err, ◌>>=◌, ◌>>◌, guard, leb, ltb, length, map, if◌then◌else◌, nat_beq,
}
use orbit_flow_evo.Base.Equality.{nat_eq, contains}
use orbit_flow_evo.Base.Texts.{Text, codes, is_nil}
use orbit_flow_evo.Json.{Json, end, field}
use orbit_flow_evo.Spool.{
  collecting, Manifest, Row, Run, SpoolError, not_owner, stopped, invalid_position, record_size,
  spool_size, not_json, storage, insert_row,
}
use orbit_flow_evo.Spool.Safe.{Value, safe}
use orbit_flow_evo.Spool.Retry.{Storing, set_state}

-- `MAX_RECORD_BYTES` and `MAX_SPOOL_BYTES`
abbrev pub max_record_bytes : ℕ
max_record_bytes = 64 * 1024 * 1024

abbrev pub max_spool_bytes : ℕ
max_spool_bytes = 64 * 1024 * 1024 * 1024

-- Python's `json`: the chunks that `iterencode` gives, whether it ends without an error (it raises
-- on a number that is not finite), and `loads`.
pub record Codec : Type 0 where
  pub iterencode : Json → List Text
  pub completes : Json → Bool
  pub loads : Text → Option Json

-- The arguments of a call of `append`, and what it meets: its thread, the time, whether the staging
-- file opens, the size of the store, and whether the transaction commits.
pub record Append : Type 0 where
  pub thread : ℕ
  pub position : Json
  pub error_category : Text
  pub value : Value
  pub payload : Option Value
  pub target : Text
  pub failed : Bool
  pub completed_at : Text
  pub stages : Bool
  pub start : ℕ
  pub commits : Bool
  pub storing : Storing

abbrev pub owned_by : ℕ → Option ℕ → Bool
owned_by thread none = false
owned_by thread (some owner) = nat_beq thread owner

abbrev pub as_position : Run → Json → Result SpoolError ℕ
as_position run (Json.integer p) =
    guard (not (contains run.positions p) && (leb 1 p && leb p run.manifest.target_count))
      invalid_position
    >> ok p
as_position run _ = err invalid_position

-- The guards of `append`.
unfoldable pub validate : Append → Run → Result SpoolError ℕ
validate a run =
    guard (owned_by a.thread run.writer) not_owner
    >> (guard (not run.append_failed) stopped >> as_position run a.position)

abbrev pub status_name : Bool → Text
status_name true = codes "failed"
status_name false = codes "success"

abbrev pub chosen : Option Value → Value → Value
chosen none value = value
chosen (some payload) value = payload

-- The envelope of an outcome.
unfoldable pub envelope : Text → ℕ → Text → Bool → Text → Text → Json → Json
envelope run_id position target failed completed_at category payload = Json.object (
    field (codes "run_id") (Json.text run_id) (
      field (codes "input_position") (Json.integer position) (
        field (codes "target") (Json.text target) (
          field (codes "status") (Json.text (status_name failed)) (
            field (codes "completed_at") (Json.text completed_at) (
              field (codes "error_category") (Json.text category)
                (field (codes "payload") payload end)))))))

-- The loop over the chunks, after `size` bytes of them.
unfoldable pub stage_chunks : ℕ → ℕ → List Text → Result SpoolError ℕ
stage_chunks start size [] = ok size
stage_chunks start size (chunk ∷ chunks) =
    let size' = size + length chunk in
    let rest = stage_chunks start size' chunks in
    if ltb max_record_bytes (size' + 1)
    then err record_size
    else if ltb max_spool_bytes (start + size' + 1)
    then err spool_size
    else rest

abbrev pub join : List Text → Text
join [] = []
join (chunk ∷ chunks) = chunk ++ join chunks

-- The text that is staged: the chunks, and a line feed.
unfoldable pub staged : Codec → Json → Text
staged codec record' = join (codec.iterencode record') ++ 10 ∷ []

unfoldable pub stage : Codec → Append → Json → Result SpoolError Text
unfolding stage_chunks staged
stage codec a record' =
    guard a.stages storage
    >> (stage_chunks a.start 0 (codec.iterencode record') >>= λ _.
        guard (codec.completes record') not_json >> ok (staged codec record'))

-- `self.manifest` with the counts of one more record.
abbrev pub checkpoint : Bool → Manifest → Manifest
checkpoint failed m = record m {
  completed_count = m.completed_count + 1;
  failed_count = m.failed_count + (if failed then 1 else 0);
}

abbrev pub row_positions : List Row → List ℕ
row_positions = map (λ r. r.position)

-- The transaction: the insertion, which a present key fails, and the checkpoint.
unfoldable pub commit : Bool → Row → Bool → Run → Result SpoolError (Unit {0}) × Run
unfolding insert_row
commit commits row failed run =
    if commits && not (contains (row_positions run.rows) row.position)
    then (
      ok tt,
      record run {
        rows = insert_row row run.rows;
        metadata = checkpoint failed run.manifest;
        manifest = checkpoint failed run.manifest;
        positions = row.position ∷ run.positions;
      },
    )
    else (err storage, run)

-- The outcome of the `try` block: an exception of any kind stops the collection.
abbrev pub latched : Result SpoolError (Unit {0}) × Run → Result SpoolError (Unit {0}) × Run
latched (ok _, run) = (ok tt, run)
latched (err e, run) = (err e, record run { append_failed = true })

abbrev pub record_state :
    Storing → Result SpoolError (Unit {0}) × Run → Result SpoolError (Unit {0}) × Run
record_state s (ok _, run) = set_state s collecting run
record_state s (err e, run) = (err e, run)

-- The `try` block, once the text is staged.
abbrev pub record_staged :
    Append → ℕ → Text → Bool → Result SpoolError Text → Run → Result SpoolError (Unit {0}) × Run
record_staged a position target failed (err e) run = latched (err e, run)
record_staged a position target failed (ok stored) run = latched (
    record_state a.storing (
      commit a.commits (record { position = position; target = target; stored = stored }) failed
        run))

module _ (codec : Codec) (clean : Text → Text) where
  abbrev pub is_failed : Append → Bool
  is_failed a = a.failed || not (is_nil (clean a.error_category))

  abbrev pub envelope_of : Append → Run → ℕ → Json → Json
  envelope_of a run position payload =
      envelope run.manifest.run_id position (clean a.target) (is_failed a) a.completed_at
        (clean a.error_category) payload

  abbrev pub record_outcome :
      Append → Run → Result SpoolError (ℕ × Json) → Result SpoolError (Unit {0}) × Run
  record_outcome a run (err e) = (err e, run)
  record_outcome a run (ok (position, payload)) =
      record_staged a position (clean a.target) (is_failed a)
        (stage codec a (envelope_of a run position payload)) run

  -- What precedes the `try` block: an exception there stops nothing.
  unfoldable pub prepare : Append → Run → Result SpoolError (ℕ × Json)
  unfolding validate
  prepare a run = validate a run >>= λ position.
      safe clean (chosen a.payload a.value) >>= λ payload. ok (position, payload)

  -- `append`
  unfoldable pub append : Append → Run → Result SpoolError (Unit {0}) × Run
  unfolding commit set_state stage envelope prepare
  append a run = record_outcome a run (prepare a run)

  -- The calls of the body of a collection, which may handle what they raise.
  unfoldable pub append_all : List Append → Run → Run
  unfolding append
  append_all [] run = run
  append_all (a ∷ calls) run = append_all calls (append a run).1
