-- ===== src/Spool/Lifecycle.antt =====
-- src/orbitflow/result_spool.py: `_consume` as a whole, with the removal of the run after its output.
use orbit_flow_evo.Base.{
  ℕ, ◌≡◌, refl, ◌∙◌, ap, Bool, true, false, ◌&&◌, none, List, Result, ok, err, if◌then◌else◌, arith,
}
use orbit_flow_evo.Spool.{consumed, Run, SpoolError, load_manifest}
use orbit_flow_evo.Spool.Append.{Codec}
use orbit_flow_evo.Spool.Recorded.{IsAccount}
use orbit_flow_evo.Spool.Stored.{load_manifest-stored}
use orbit_flow_evo.Spool.Collection.Endings.{IsCollected}
use orbit_flow_evo.Spool.Consumption.{Consuming, consume, removes, finished_status}
use orbit_flow_evo.Spool.Consumption.Laws.{consume-IsOutput}
use orbit_flow_evo.Spool.Consumption.Complete.{Succeeds, IsGiven, consume-IsGiven}
use orbit_flow_evo.Spool.Cleanup.{Entry, Item, Left, untouched, gone, Removing, survey, remove}
use orbit_flow_evo.Spool.Cleanup.Laws as Removal
use orbit_flow_evo.Spool.Cleanup.Laws.{remove-gone}

module _ {A : Type 0} where
  abbrev pub after_removal : A → Result SpoolError Bool × Left → Result SpoolError A × Left
  after_removal a (ok _, left) = (ok a, left)
  after_removal a (err e, left) = (err e, left)

  -- The end of `_consume`, on what its `try` statement came to; `complete` is that of the loaded manifest.
  abbrev pub remove_output :
      Consuming A
      → Removing
      → List Entry
      → Run
      → Result SpoolError A × Run
      → Result SpoolError A × Left
  remove_output c r entries loaded (err e, run') = (err e, untouched)
  remove_output c r entries loaded (ok a, run') =
      if removes c loaded then after_removal a (remove r entries run'.file) else (ok a, untouched)

  -- `_consume`, with what it leaves of the directory.
  unfoldable pub consume_run :
      Codec → Consuming A → Removing → List Entry → Run → Result SpoolError A × Left
  unfolding consume remove
  consume_run codec c r entries run =
      remove_output c r entries (record run { manifest = load_manifest run }) (consume codec c run)

  -- How a call ends by what its consumer gave: a result after the run is gone, or an error that leaves it.
  abbrev pub ending : Result SpoolError A → Result SpoolError A × Left
  ending (ok a) = (ok a, gone)
  ending (err e) = (err e, untouched)

  remove_output-ending :
      (c : Consuming A) (r : Removing) (entries : List Entry) (loaded : Run)
      (z : Result SpoolError A × Run)
      → removes c loaded ≡ true
      → ((a : A) → z.0 ≡ ok a → remove r entries z.1.file ≡ (ok true, gone))
      → remove_output c r entries loaded z ≡ ending z.0
  remove_output-ending c r entries loaded (ok a, run') t g = rw (t, g a refl) refl
  remove_output-ending c r entries loaded (err e, run') t g = refl

-- An output with cleanup of a run whose collection has returned gives what its consumer gives on the run's rows and
-- counts, and removes the run if that is a result, where the leases are free, the store is healthy, every entry of the
-- directory is recognized, and every step that stores or deletes succeeds within its retries; if the consumer raises,
-- its error is raised and the directory is left.
pub consume_run-gone :
    {A : Type 0} (codec : Codec) (target : ℕ) (c : Consuming A) (r : Removing)
    (entries : List Entry) (found : List Item × List Item) (run : Run)
    → IsAccount codec run.metadata run.rows
    → run.metadata.target_count ≡ target
    → IsCollected target run
    → run.file.cleanup_started ≡ false
    → c.cleanup ≡ true
    → c.free ≡ true
    → c.healthy ≡ true
    → Succeeds c.starting
    → Succeeds c.finishing
    → r.links ≡ false
    → r.free ≡ true
    → r.before ≡ none
    → survey entries ≡ ok found
    → Removal.Succeeds r.write
    → ((i : ℕ) → Removal.Succeeds (r.delete i))
    → Removal.Succeeds r.unlink
    → Removal.Succeeds r.rmdir
    → (shown : Run) × IsGiven run shown
      × (consume_run codec c r entries run ≡ ending (c.consumer shown))
unfolding consume_run
consume_run-gone codec target c r entries found run i t d cl cu fr he s f li rf b sv w del u g =
    let (shown, given, gives) = consume-IsGiven codec target c run i d cl fr he s f in
    let facts = consume-IsOutput codec target c run i t cl in
    let loaded = load_manifest-stored run cl in
    let status : (a : _)
        → (consume codec c run).0 ≡ ok a
        → (consume codec c run).1.file.status ≡ consumed =
      λ a h.
        let output = (facts.2 a h).0 in
        ap (λ m. m.status) output.published ∙ output.status ∙ ap finished_status d.complete in
    (
      shown,
      given,
      remove_output-ending c r entries (record run { manifest = load_manifest run })
            (consume codec c run)
            (ap (λ m. c.cleanup && m.collection_complete) loaded ∙ ground (arith, cu, d.complete))
            (λ a h.
              remove-gone r entries (consume codec c run).1.file found li rf b (status a h) sv w del
                u g)
          ∙ ap ending gives,
    )
