-- ===== src/Spool/Consumption.antt =====
-- src/orbitflow/result_spool.py: `_indexed` and `_consume`, the one output that a run is read for.
pub mod Complete
pub mod Laws
use orbit_flow_evo.Base.{
  ℕ, ◌<◌, Bool, true, false, not, ◌&&◌, ◌||◌, Option, none, some, List, [], ◌∷◌, Result, ok, err,
  ◌>>=◌, ◌>>◌, guard, leb, length, any, if◌then◌else◌, nat_beq,
}
use orbit_flow_evo.Json.{Json}
use orbit_flow_evo.Spool.{
  Status, created, collecting, interrupted, consuming, consumed, partial_consumed, output_failed,
  Row, Run, SpoolError, already_consumed, incomplete, leased, corrupt, load_manifest,
}
use orbit_flow_evo.Spool.Retry.{Storing, set_state}
use orbit_flow_evo.Spool.Append.{Codec}
use orbit_flow_evo.Spool.Index.{records, every_record, count_failed}

-- A call of `_consume` and what it meets: its options, whether the lease is free, whether the store
-- passes SQLite's check, the consumer, which reads the run, and the calls of `_state`.
pub record Consuming (A : Type 0) : Type 0 where
  pub cleanup : Bool
  pub allow_partial : Bool
  pub free : Bool
  pub healthy : Bool
  pub consumer : Run → Result SpoolError A
  pub starting : Storing
  pub finishing : Storing
  pub failing : Storing

abbrev pub is_unfinished : Status → Bool
is_unfinished created = true
is_unfinished collecting = true
is_unfinished interrupted = true
is_unfinished _ = false

abbrev pub out_of_range : Run → Row → Bool
out_of_range run r = not (leb 1 r.position && leb r.position run.manifest.target_count)

-- The checks of `_indexed`.
unfoldable pub index_checks : Bool → Run → Result SpoolError (Unit {0})
index_checks healthy run =
    guard healthy corrupt
    >> (guard (not (any (out_of_range run) run.rows)) corrupt
        >> guard
            (not run.manifest.collection_complete
              || nat_beq (length run.rows) run.manifest.target_count)
            incomplete)

abbrev pub with_counts : ℕ → ℕ → Run → Run
with_counts completed failed run =
    let m = run.manifest in
    record run { manifest = record m { completed_count = completed; failed_count = failed } }

abbrev pub finished_status : Bool → Status
finished_status true = consumed
finished_status false = partial_consumed

module _ {A : Type 0} where
  -- The `except` block.
  unfoldable pub fail_output : Storing → SpoolError → Run → Result SpoolError A × Run
  unfolding set_state
  fail_output failing e run = (err e, (set_state failing output_failed run).1)

  abbrev pub or_fail_output : Storing → Result SpoolError A × Run → Result SpoolError A × Run
  or_fail_output failing (ok a, run) = (ok a, run)
  or_fail_output failing (err e, run) = fail_output failing e run

  abbrev pub returning : A → Result SpoolError (Unit {0}) × Run → Result SpoolError A × Run
  returning a (ok _, run) = (ok a, run)
  returning a (err e, run) = (err e, run)

  -- The end of the `try` block, with what the consumer gave.
  abbrev pub finish : Consuming A → Run → Result SpoolError A → Result SpoolError A × Run
  finish c run (err e) = (err e, run)
  finish c run (ok a) =
      returning a (set_state c.finishing (finished_status run.manifest.collection_complete) run)

  -- The call of the consumer, once the state is stored as consuming.
  abbrev pub call_consumer :
      Consuming A → Result SpoolError (Unit {0}) × Run → Result SpoolError A × Run
  call_consumer c (err e, run) = (err e, run)
  call_consumer c (ok _, run) = finish c run (c.consumer run)

  abbrev pub consume_records :
      Consuming A → Run → Result SpoolError (List Json) → Result SpoolError A × Run
  consume_records c run (err e) = (err e, run)
  consume_records c run (ok rs) =
      call_consumer c
        (set_state c.starting consuming (with_counts (length rs) (count_failed rs) run))

  -- The `try` block.
  unfoldable pub output : Codec → Consuming A → Run → Result SpoolError A × Run
  unfolding set_state records index_checks
  output codec c run =
      consume_records c run (index_checks c.healthy run >>= λ _. records codec run every_record)

  -- Whether the run is removed in the end, after `_consume` has returned.
  abbrev pub removes : Consuming A → Run → Bool
  removes c run = c.cleanup && run.manifest.collection_complete

  -- `_consume`, up to the removal.
  unfoldable pub consume : Codec → Consuming A → Run → Result SpoolError A × Run
  unfolding output fail_output
  consume codec c run =
      let m = load_manifest run in
      let loaded = record run { manifest = m } in
      if not c.free
      then (err leased, run)
      else if m.cleanup_started
      then (err already_consumed, loaded)
      else if not c.allow_partial && (not m.collection_complete || is_unfinished m.status)
      then (err incomplete, loaded)
      else or_fail_output c.failing (output codec c loaded)
