-- ===== src/Spool/Consumption/Complete.antt =====
-- src/orbitflow/result_spool.py: the output of a run whose collection has returned.
use orbit_flow_evo.Base.{
  ℕ, ◌+◌, ◌≤◌, ◌≡◌, ◌≢◌, refl, sym, ◌∙◌, ap, Bool, true, false, not, ◌&&◌, ◌||◌, List, [], ◌∷◌,
  Result, ok, err, ◌>>=◌, guard, arith, any, length, if_elim, nat_beq,
}
use orbit_flow_evo.Json.{Json}
use orbit_flow_evo.Spool.{Status, collected, consuming, Manifest, Row, Run, SpoolError, incomplete}
use orbit_flow_evo.Spool.Retry.{Attempt, Storing, permission_retry, publish, set_state}
use orbit_flow_evo.Spool.Append.{Codec}
use orbit_flow_evo.Spool.Recorded.{Ascending, IsAccount}
use orbit_flow_evo.Spool.Stored.{load_manifest-stored, set_state-Stores}
use orbit_flow_evo.Spool.Index.{records, every_record, count_failed}
use orbit_flow_evo.Spool.Index.Laws.{records-Counts}
use orbit_flow_evo.Spool.Collection.Endings.{IsCollected}
use orbit_flow_evo.Spool.Consumption.{
  Consuming, is_unfinished, out_of_range, index_checks, finished_status, or_fail_output, returning,
  finish, call_consumer, consume_records, output, consume, with_counts, fail_output,
}

-- A call of `_state` that meets no fault which its retries do not overcome.
pub record Succeeds (s : Storing) : Type 0 where
  pub commits : s.commits ≡ true
  pub writes : s.writes ≡ true
  pub replaces : (permission_retry s.replaces).outcome ≡ Attempt.done

set_state-Succeeds :
    (s : Storing) (status : Status) (run : Run) → Succeeds s → (set_state s status run).0 ≡ ok tt
unfolding set_state publish
set_state-Succeeds s status run h = rw (h.commits, h.writes, h.replaces) refl

finished :
    (partial : Bool) (m : Manifest)
    → m.collection_complete ≡ true
    → m.status ≡ collected
    → (not partial && (not m.collection_complete || is_unfinished m.status)) ≢ true
finished partial m c s = rw (c, s) (λ h. ground (arith, h))

in_range :
    (lo : ℕ) (run : Run) (rows : List Row)
    → 1 ≤ lo
    → Ascending lo run.manifest.target_count rows
    → any (out_of_range run) rows ≡ false
in_range lo run [] l a = refl
in_range lo run (r ∷ rows) l a =
    let low = a.0 in
    let high = a.1 in
    let rest = in_range (r.position + 1) run rows (omega arith) a.2 in ground arith

any_test :
    (b : Bool) (r : Result SpoolError (List Json)) (rs : List Json)
    → r ≡ ok rs
    → (guard (not b || true) incomplete >>= λ _. r) ≡ ok rs
any_test true r rs h = h
any_test false r rs h = h

-- What the consumer of an output of a run is given: the run's rows, under a manifest that has its counts and is
-- stored as consuming.
pub record IsGiven (run shown : Run) : Type 0 where
  pub rows : shown.rows ≡ run.rows
  pub status : shown.manifest.status ≡ consuming
  pub counts :
      (shown.manifest.completed_count ≡ run.metadata.completed_count)
      × (shown.manifest.failed_count ≡ run.metadata.failed_count)
  pub published : (shown.metadata ≡ shown.manifest) × (shown.file ≡ shown.manifest)

module _ {A : Type 0} (codec : Codec) (c : Consuming A) (run : Run) where
  returning-ok :
      (a : A) (z : Result SpoolError (Unit {0}) × Run) → z.0 ≡ ok tt → (returning a z).0 ≡ ok a
  returning-ok a (ok _, run') h = refl
  returning-ok a (err e, run') h = cc

  finish_same :
      (shown : Run) (r : Result SpoolError A) → Succeeds c.finishing → (finish c shown r).0 ≡ r
  finish_same shown (err e) h = refl
  finish_same shown (ok a) h =
      returning-ok a _ (
        set_state-Succeeds c.finishing (finished_status shown.manifest.collection_complete) shown h)

  call_consumer_same :
      (z : Result SpoolError (Unit {0}) × Run)
      → z.0 ≡ ok tt
      → Succeeds c.finishing
      → (call_consumer c z).0 ≡ c.consumer z.1
  call_consumer_same (ok _, shown) h f = finish_same shown (c.consumer shown) f
  call_consumer_same (err e, shown) h f = cc

  or_fail_output_same : (z : Result SpoolError A × Run) → (or_fail_output c.failing z).0 ≡ z.0
  unfolding fail_output
  or_fail_output_same (ok b, run') = refl
  or_fail_output_same (err e, run') = refl

  -- The run that the consumer is given.
  abbrev pub shown_run : ℕ → ℕ → Run
  shown_run n m = (set_state c.starting consuming (with_counts n m run)).1

  consume_records_same :
      (r : Result SpoolError (List Json))
      → Succeeds c.starting
      → Succeeds c.finishing
      → (rs : List Json) → r ≡ ok rs
      → (consume_records c run r).0 ≡ c.consumer (shown_run (length rs) (count_failed rs))
  consume_records_same r s f rs e =
      rw e (call_consumer_same _ (set_state-Succeeds c.starting consuming _ s) f)

  shown_run-IsGiven :
      (n m : ℕ)
      → n ≡ run.metadata.completed_count
      → m ≡ run.metadata.failed_count
      → Succeeds c.starting
      → IsGiven run (shown_run n m)
  shown_run-IsGiven n m e f s =
      let stores = set_state-Stores c.starting consuming (with_counts n m run) in
      let stored = stores.done (set_state-Succeeds c.starting consuming (with_counts n m run) s) in
      record {
        rows = stores.rows;
        status = rw stores.manifest refl;
        counts = (rw stores.manifest e, rw stores.manifest f);
        published = stored;
      }

  output-IsGiven :
      run.manifest ≡ run.metadata
      → IsAccount codec run.manifest run.rows
      → length run.rows ≡ run.manifest.target_count
      → c.healthy ≡ true
      → Succeeds c.starting
      → Succeeds c.finishing
      → (shown : Run) × IsGiven run shown × ((output codec c run).0 ≡ c.consumer shown)
  unfolding output index_checks
  output-IsGiven same i l h s f =
      let read = records-Counts codec run i in
      let ranged = in_range 1 run run.rows (omega arith) i.ascending in
      let full : nat_beq (length run.rows) run.manifest.target_count ≡ true = ground (arith, l) in
      (
        shown_run (length read.records) (count_failed read.records),
        shown_run-IsGiven _ _ (read.completed ∙ ap (λ m. m.completed_count) same)
            (read.failed ∙ ap (λ m. m.failed_count) same) s,
        consume_records_same _ s f read.records (
            rw (h, ranged, full)
              (any_test run.manifest.collection_complete (records codec run every_record)
                read.records read.returns)),
      )

-- An output of a run whose collection has returned gives what its consumer gives on the run's rows and counts, where the
-- lease is free, the store is healthy, its cleanup has not started, and the manifest is stored within the retries.
pub consume-IsGiven :
    {A : Type 0} (codec : Codec) (target : ℕ) (c : Consuming A) (run : Run)
    → IsAccount codec run.metadata run.rows
    → IsCollected target run
    → run.file.cleanup_started ≡ false
    → c.free ≡ true
    → c.healthy ≡ true
    → Succeeds c.starting
    → Succeeds c.finishing
    → (shown : Run) × IsGiven run shown × ((consume codec c run).0 ≡ c.consumer shown)
unfolding consume
consume-IsGiven codec target c run i d cl fr he s f =
    let marked : run.metadata.cleanup_started ≡ false =
      ap (λ m. m.cleanup_started) (sym d.published) ∙ cl in
    let loaded = record run { manifest = run.metadata } in
    let (shown, given, gives) =
      output-IsGiven codec c loaded refl i (i.complete d.complete) he s f in
    let P = λ (z : Result SpoolError _ × Run). z.0 ≡ c.consumer shown in
    (
      shown,
      record {
        rows = given.rows;
        status = given.status;
        counts = given.counts;
        published = given.published;
      },
      rw (load_manifest-stored run cl) (
          if_elim P (not c.free) _ _ (λ h. absurd (ground (arith, h, fr)))
            (λ _.
              if_elim P run.metadata.cleanup_started _ _ (λ h. absurd (ground (arith, h, marked)))
                (λ _.
                  if_elim P
                    (not c.allow_partial
                      && (not run.metadata.collection_complete
                          || is_unfinished run.metadata.status))
                    _ _ (λ h. absurd (finished c.allow_partial run.metadata d.complete d.status h))
                    (λ _. or_fail_output_same codec c run _ ∙ gives)))),
    )
