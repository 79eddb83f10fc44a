-- ===== src/Spool/Collection/Laws.antt =====
-- src/orbitflow/result_spool.py: a run after its collection, whether it returned or raised.
use orbit_flow_evo.Base.{
  ℕ, ◌≡◌, refl, sym, ◌∙◌, ap, false, not, some, [], Result, ok, err, arith, if_elim,
}
use mathlib.Core.Path.{subst}
use orbit_flow_evo.Base.Texts.{Text}
use orbit_flow_evo.Spool.{Status, created, collecting, Run, SpoolError, load_manifest}
use orbit_flow_evo.Spool.Append.{Codec}
use orbit_flow_evo.Spool.Recorded.{IsAccount}
use orbit_flow_evo.Spool.Stored.{load_manifest-stored, Stores, set_state-Stores}
use orbit_flow_evo.Spool.Staged.{IsFaithful}
use orbit_flow_evo.Spool.Collection.{Collecting, is_created, run_body, closed, collect, collection}
use orbit_flow_evo.Spool.Collection.Owned.{IsOwned, IsOwned-Stores}
use orbit_flow_evo.Spool.Collection.Appending.{IsCollecting, append_all-IsCollecting}
use orbit_flow_evo.Spool.Collection.Endings.{
  IsCollected, Ended, failed-Ended, branch-Ended, leave-Ended, interrupt-Ended,
}

abbrev Keeps : Codec → ℕ → Result SpoolError (Unit {0}) × Run → Type 0
Keeps codec target (r, run) =
    IsAccount codec run.metadata run.rows
    × (run.metadata.target_count ≡ target)
    × (run.metadata.cleanup_started ≡ false)
    × (run.file.cleanup_started ≡ false)
    × (r ≡ ok tt → IsCollected target run)

created_of : (s : Status) → not (is_created s) ≡ false → s ≡ created
created_of s h = ground (arith, h)

module _ (codec : Codec) (clean : Text → Text) (target : ℕ) (faithful : IsFaithful codec) where
  run_body-Ended :
      (c : Collecting) (r : Result SpoolError (Unit {0})) (run : Run)
      → IsOwned codec target run
      → (r ≡ ok tt → IsCollecting codec target run)
      → Ended codec target (run_body codec clean c (r, run)).0 (run_body codec clean c (r, run)).1
  run_body-Ended c (err e) run o i = failed-Ended codec target e run o
  run_body-Ended c (ok tt) run o i =
      let open' = i refl in
      let opened : IsCollecting codec target (record run { writer = some c.thread }) = record {
        owned = record {
          memory = o.memory;
          store = o.store;
          sized = o.sized;
          uncleaned = o.uncleaned;
        };
        status = open'.status;
        incomplete = open'.incomplete;
        known = open'.known;
        counted = open'.counted;
      } in
      branch-Ended codec target c.connects _ _
        (λ _.
          leave-Ended codec target c _
            (append_all-IsCollecting codec clean target faithful c.appends _ opened))
        (λ _. failed-Ended codec target SpoolError.storage run o)

  closed-Ended :
      (r : Result SpoolError (Unit {0})) (run : Run)
      → Ended codec target r run
      → Ended codec target (closed codec clean (r, run)).0 (closed codec clean (r, run)).1
  closed-Ended r run e = record {
    owned = record {
      memory = e.owned.memory;
      store = e.owned.store;
      sized = e.owned.sized;
      uncleaned = e.owned.uncleaned;
    };
    done = λ h.
        let d = e.done h in
        record {
          status = d.status;
          complete = d.complete;
          counted = d.counted;
          each = d.each;
          published = d.published;
        };
  }

  enter-IsOwned :
      (run : Run)
      → IsAccount codec run.metadata run.rows
      → run.metadata.target_count ≡ target
      → (run.metadata.cleanup_started ≡ false) × (run.file.cleanup_started ≡ false)
      → IsOwned codec target
          (record run { manifest = run.metadata; positions = []; append_failed = false })
  enter-IsOwned run a t u = record {
    memory = a;
    store = a;
    sized = (t, t);
    uncleaned = (u.0, u.0, u.1);
  }

  enter-IsCollecting :
      (now : ℕ) (run run' : Run) (r : Result SpoolError (Unit {0}))
      → IsAccount codec run.metadata run.rows
      → run.metadata.target_count ≡ target
      → (run.metadata.cleanup_started ≡ false) × (run.file.cleanup_started ≡ false)
      → run.metadata.status ≡ created
      → Stores collecting now
          (record run { manifest = run.metadata; positions = []; append_failed = false })
          r
          run'
      → IsCollecting codec target run'
  enter-IsCollecting now run run' r a t u c s =
      let (empty, incomplete) = a.fresh c in
      record {
        owned =
            IsOwned-Stores codec target collecting now _ run' r (enter-IsOwned run a t u) (λ h. cc)
              s;
        status = rw s.manifest refl;
        incomplete = rw s.manifest incomplete;
        known = λ p. rw (s.positions, s.rows, empty) refl;
        counted = rw (s.positions, s.rows, empty) refl;
      }

  collect-Ended :
      (c : Collecting) (run : Run)
      → IsAccount codec run.metadata run.rows
      → run.metadata.target_count ≡ target
      → (run.metadata.cleanup_started ≡ false) × (run.file.cleanup_started ≡ false)
      → run.metadata.status ≡ created
      → (let (r, run') = collect codec clean c (record run { manifest = run.metadata }) in
          Ended codec target r run')
  unfolding collect
  collect-Ended c run a t u s =
      let entered =
        set_state-Stores c.entering collecting
          (record run { manifest = run.metadata; positions = []; append_failed = false }) in
      closed-Ended _ _ (
        interrupt-Ended codec target c.failing _ _ (
          run_body-Ended c _ _
            (IsOwned-Stores codec target collecting c.entering.now _ _ _ (enter-IsOwned run a t u)
              (λ h. cc) entered)
            (λ h. enter-IsCollecting c.entering.now run _ _ a t u s entered)))

  -- Where JSON reads back what it has written, a collection of a run whose stored manifest accounts for the store's
  -- rows, and whose cleanup neither the store nor manifest.json says has started, leaves such a run with the same
  -- number of targets, whatever is appended and whatever fails; it returns only if there is exactly one outcome for
  -- each target, and the store and manifest.json both say that all were collected.
  pub collection-IsCollected :
      (c : Collecting) (run : Run)
      → IsAccount codec run.metadata run.rows
      → run.metadata.target_count ≡ target
      → run.metadata.cleanup_started ≡ false
      → run.file.cleanup_started ≡ false
      → (let (r, run') = collection codec clean c run in
          IsAccount codec run'.metadata run'.rows
          × (run'.metadata.target_count ≡ target)
          × (run'.metadata.cleanup_started ≡ false)
          × (run'.file.cleanup_started ≡ false)
          × (r ≡ ok tt → IsCollected target run'))
  unfolding collection
  collection-IsCollected c run a t g f =
      if_elim (Keeps codec target) (not c.free) _ _ (λ _. (a, t, g, f, λ h. cc))
        (λ _.
          if_elim (Keeps codec target) (not (is_created (load_manifest run).status)) _ _
            (λ _. (a, t, g, f, λ h. cc))
            (λ new.
              let stored = load_manifest-stored run f in
              let e =
                collect-Ended c run a t (g, f)
                  (created_of run.metadata.status
                    (ap (λ m. not (is_created m.status)) (sym stored) ∙ new)) in
              subst (λ m. Keeps codec target (collect codec clean c (record run { manifest = m })))
                (sym stored)
                (e.owned.store, e.owned.sized.1, e.owned.uncleaned.1, e.owned.uncleaned.2, e.done)))
