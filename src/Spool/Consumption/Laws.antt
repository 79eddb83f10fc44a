-- ===== src/Spool/Consumption/Laws.antt =====
-- src/orbitflow/result_spool.py: a run after its output, whether the output returned or raised.
use orbit_flow_evo.Base.{
  ℕ, ◌≡◌, refl, sym, ◌∙◌, ap, false, not, ◌&&◌, ◌||◌, Result, ok, err, ◌>>=◌, arith, length,
  if_elim,
}
use orbit_flow_evo.Spool.{consuming, output_failed, Run, SpoolError}
use orbit_flow_evo.Spool.Append.{Codec}
use orbit_flow_evo.Spool.Recorded.{IsAccount}
use orbit_flow_evo.Spool.Stored.{load_manifest-stored, Stores, set_state-Stores}
use orbit_flow_evo.Spool.Index.{records, every_record, count_failed}
use orbit_flow_evo.Spool.Index.Laws.{Counts, records-Counts}
use orbit_flow_evo.Spool.Collection.Owned.{IsOwned, IsOwned-Stores}
use orbit_flow_evo.Spool.Consumption.{
  Consuming, is_unfinished, index_checks, with_counts, finished_status, fail_output, or_fail_output,
  returning, finish, call_consumer, consume_records, output, consume,
}

-- What a consumer has returned, and what it was given.
pub record IsOutput {A : Type 0} (c : Consuming A) (run run' : Run) (a : A) : Type 0 where
  pub shown : Run
  pub given : c.consumer shown ≡ ok a
  pub shown_rows : shown.rows ≡ run.rows
  pub shown_status : shown.manifest.status ≡ consuming
  pub shown_counts :
      (shown.manifest.completed_count ≡ run.manifest.completed_count)
      × (shown.manifest.failed_count ≡ run.manifest.failed_count)
  pub status : run'.metadata.status ≡ finished_status run.manifest.collection_complete
  pub published : run'.file ≡ run'.metadata

module _ {A : Type 0} (codec : Codec) (target : ℕ) (c : Consuming A) (run : Run) where
  record Closes (z : Result SpoolError A × Run) : Type 0 where
    pub owned : IsOwned codec target z.1
    pub rows : z.1.rows ≡ run.rows
    pub done : (a : A) → z.0 ≡ ok a → IsOutput c run z.1 a

  failed-Closes :
      (e : SpoolError) (run' : Run)
      → IsOwned codec target run'
      → run'.rows ≡ run.rows
      → Closes (err e, run')
  failed-Closes e run' o r = record { owned = o; rows = r; done = λ a h. cc }

  -- The run as the consumer has it: its state is stored as consuming.
  record IsShown (shown : Run) : Type 0 where
    pub owned : IsOwned codec target shown
    pub rows : shown.rows ≡ run.rows
    pub status : shown.manifest.status ≡ consuming
    pub counts :
        (shown.manifest.completed_count ≡ run.manifest.completed_count)
        × (shown.manifest.failed_count ≡ run.manifest.failed_count)
    pub complete : shown.manifest.collection_complete ≡ run.manifest.collection_complete

  returning-Closes :
      (a : A) (now : ℕ) (shown run' : Run) (r : Result SpoolError (Unit {0}))
      → IsShown shown
      → c.consumer shown ≡ ok a
      → Stores (finished_status shown.manifest.collection_complete) now shown r run'
      → Closes (returning a (r, run'))
  returning-Closes a now shown run' r i g s =
      let o =
        IsOwned-Stores codec target _ now shown run' r i.owned (λ h. absurd (ground (arith, h)))
          s in
      elim r
          as (λ r.
            (r ≡ ok tt → (run'.metadata ≡ run'.manifest) × (run'.file ≡ run'.manifest))
            → Closes (returning a (r, run'))) [
              | err e ↦ λ d. failed-Closes e run' o (s.rows ∙ i.rows)
              | ok tt ↦ λ d. record {
                owned = o;
                rows = s.rows ∙ i.rows;
                done = λ b h. record {
                  shown = shown;
                  given = g ∙ h;
                  shown_rows = i.rows;
                  shown_status = i.status;
                  shown_counts = i.counts;
                  status = rw ((d refl).0, s.manifest) (ap finished_status i.complete);
                  published = (d refl).1 ∙ sym (d refl).0;
                };
              }
            ]
        s.done

  finish-Closes :
      (shown : Run) (r : Result SpoolError A)
      → IsShown shown
      → c.consumer shown ≡ r
      → Closes (finish c shown r)
  finish-Closes shown (err e) i g = failed-Closes e shown i.owned i.rows
  finish-Closes shown (ok a) i g =
      returning-Closes a c.finishing.now shown _ _ i g
        (set_state-Stores c.finishing (finished_status shown.manifest.collection_complete) shown)

  call_consumer-Closes :
      (r : Result SpoolError (Unit {0})) (shown : Run)
      → IsShown shown
      → Closes (call_consumer c (r, shown))
  call_consumer-Closes (err e) shown i = failed-Closes e shown i.owned i.rows
  call_consumer-Closes (ok _) shown i = finish-Closes shown (c.consumer shown) i refl

  with_counts-IsOwned :
      (n m : ℕ)
      → n ≡ run.manifest.completed_count
      → m ≡ run.manifest.failed_count
      → IsOwned codec target run
      → IsOwned codec target (with_counts n m run)
  with_counts-IsOwned n m e f o = record {
    memory = record {
      ascending = o.memory.ascending;
      completed = e ∙ o.memory.completed;
      failed = rw f o.memory.failed;
      fresh = o.memory.fresh;
      complete = o.memory.complete;
    };
    store = o.store;
    sized = o.sized;
    uncleaned = o.uncleaned;
  }

  consume_records-Closes :
      IsOwned codec target run
      → Counts
          (records codec run every_record)
          run.manifest.completed_count
          run.manifest.failed_count
      → (checks : Result SpoolError (Unit {0}))
      → Closes (consume_records c run (checks >>= λ _. records codec run every_record))
  consume_records-Closes o k (err e) = failed-Closes e run o refl
  consume_records-Closes o k (ok _) =
      let n = length k.records in
      let m = count_failed k.records in
      let counted = with_counts-IsOwned n m k.completed k.failed o in
      let stores = set_state-Stores c.starting consuming (with_counts n m run) in
      rw k.returns (
        call_consumer-Closes _ _ (record {
          owned =
              IsOwned-Stores codec target consuming c.starting.now _ _ _ counted (λ h. cc) stores;
          rows = stores.rows;
          status = rw stores.manifest refl;
          counts = (rw stores.manifest k.completed, rw stores.manifest k.failed);
          complete = rw stores.manifest refl;
        }))

  output-Closes : IsOwned codec target run → Closes (output codec c run)
  unfolding output
  output-Closes o =
      consume_records-Closes o (records-Counts codec run o.memory) (index_checks c.healthy run)

  or_fail_output-Closes :
      (r : Result SpoolError A) (run' : Run)
      → Closes (r, run')
      → Closes (or_fail_output c.failing (r, run'))
  unfolding fail_output
  or_fail_output-Closes (ok a) run' z = z
  or_fail_output-Closes (err e) run' z =
      let s = set_state-Stores c.failing output_failed run' in
      failed-Closes e _
        (IsOwned-Stores codec target output_failed c.failing.now run' _ _ z.owned (λ h. cc) s)
        (s.rows ∙ z.rows)

abbrev Accounts : {A : Type 0} → Codec → ℕ → Consuming A → Run → Result SpoolError A × Run → Type 0
Accounts codec target c run (r, run') =
    IsAccount codec run'.metadata run'.rows
    × (run'.rows ≡ run.rows)
    × ((a : _)
        → r ≡ ok a
        → IsOutput c (record run { manifest = run.metadata }) run' a
          × (c.allow_partial ≡ false → length run.rows ≡ target))

-- An output of a run whose stored manifest accounts for its rows, and whose cleanup has not started, keeps the rows and
-- leaves a manifest that accounts for them, whether it returns or raises. If it returns, its consumer returned that on
-- the same rows and counts, and both stored manifests say so; and unless a partial output was
-- allowed, there was an outcome for each target.
pub consume-IsOutput :
    {A : Type 0} (codec : Codec) (target : ℕ) (c : Consuming A) (run : Run)
    → IsAccount codec run.metadata run.rows
    → run.metadata.target_count ≡ target
    → run.file.cleanup_started ≡ false
    → (let (r, run') = consume codec c run in
        IsAccount codec run'.metadata run'.rows
        × (run'.rows ≡ run.rows)
        × ((a : A)
            → r ≡ ok a
            → IsOutput c (record run { manifest = run.metadata }) run' a
              × (c.allow_partial ≡ false → length run.rows ≡ target)))
unfolding consume
consume-IsOutput codec target c run a t f =
    let loaded = record run { manifest = run.metadata } in
    rw (load_manifest-stored run f) (
      if_elim (Accounts codec target c run) (not c.free) _ _ (λ _. (a, refl, λ x h. cc))
        (λ _.
          if_elim (Accounts codec target c run) run.metadata.cleanup_started _ _
            (λ _. (a, refl, λ x h. cc))
            (λ new.
              if_elim (Accounts codec target c run)
                (not c.allow_partial
                  && (not run.metadata.collection_complete || is_unfinished run.metadata.status))
                _ _ (λ _. (a, refl, λ x h. cc))
                (λ allowed.
                  let owned : IsOwned codec target loaded = record {
                    memory = a;
                    store = a;
                    sized = (t, t);
                    uncleaned = (new, new, f);
                  } in
                  let z =
                    or_fail_output-Closes codec target c loaded _ _
                      (output-Closes codec target c loaded owned) in
                  (
                    z.owned.store,
                    z.rows,
                    λ x h. (z.done x h, λ whole. a.complete (ground (arith, allowed, whole)) ∙ t),
                  )))))
