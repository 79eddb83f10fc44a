-- ===== src/Spool/Collection/Endings.antt =====
-- src/orbitflow/result_spool.py: the steps of `_collection` after its body, and what it means that all was collected.
use orbit_flow_evo.Base.{
  ℕ, zero, suc, ◌+◌, ◌≤◌, ◌≡◌, refl, sym, ◌∙◌, Bool, true, false, not, List, [], ◌∷◌, Result, ok,
  err, arith, length, if◌then◌else◌, if_elim, nat_beq,
}
use mathlib.Core.Path.{ap₂}
use orbit_flow_evo.Execution.Defs.{positions}
use orbit_flow_evo.Spool.{collecting, collected, interrupted, Row, Run, SpoolError}
use orbit_flow_evo.Spool.Retry.{Storing}
use orbit_flow_evo.Spool.Append.{Codec, row_positions}
use orbit_flow_evo.Spool.Recorded.{Ascending}
use orbit_flow_evo.Spool.Stored.{Stores, set_state-Stores}
use orbit_flow_evo.Spool.Collection.{Collecting, set_complete, interrupt, or_interrupt, leave}
use orbit_flow_evo.Spool.Collection.Owned.{IsOwned, IsOwned-Stores}
use orbit_flow_evo.Spool.Collection.Appending.{IsCollecting}

Ascending-length :
    (lo hi : ℕ) (rows : List Row) → Ascending lo hi rows → lo ≤ hi + 1 → length rows + lo ≤ hi + 1
Ascending-length lo hi [] a h = omega arith
Ascending-length lo hi (r ∷ rows) a h =
    let low = a.0 in
    let high = a.1 in
    let rest = Ascending-length (r.position + 1) hi rows a.2 (omega arith) in omega arith

-- Distinct positions that fill the range are all of them.
pub Ascending-positions :
    (n lo hi : ℕ) (rows : List Row)
    → Ascending lo hi rows
    → length rows ≡ n
    → lo + n ≡ hi + 1
    → row_positions rows ≡ positions lo n
unfolding positions
Ascending-positions zero lo hi [] a l h = refl
Ascending-positions zero lo hi (r ∷ rows) a l h = absurd (omega arith)
Ascending-positions (suc n) lo hi [] a l h = absurd (omega arith)
Ascending-positions (suc n) lo hi (r ∷ rows) a l h =
    let low = a.0 in
    let high = a.1 in
    let few = Ascending-length (r.position + 1) hi rows a.2 (omega arith) in
    let first : r.position ≡ lo = omega arith in
    let more : Ascending (lo + 1) hi rows = rw (sym first) a.2 in
    ap₂ ◌∷◌ first (Ascending-positions n (lo + 1) hi rows more (omega arith) (omega arith))

-- The run has an outcome for each of its targets, and both of its stored manifests say so.
pub record IsCollected (target : ℕ) (run : Run) : Type 0 where
  pub status : run.metadata.status ≡ collected
  pub complete : run.metadata.collection_complete ≡ true
  pub counted : run.metadata.completed_count ≡ target
  pub each : row_positions run.rows ≡ positions 1 target
  pub published : run.file ≡ run.metadata

pub record Ended (codec : Codec) (target : ℕ) (r : Result SpoolError (Unit {0})) (run : Run)
    : Type 0 where
  pub owned : IsOwned codec target run
  pub done : r ≡ ok tt → IsCollected target run

module _ (codec : Codec) (target : ℕ) where
  pub failed-Ended :
      (e : SpoolError) (run : Run) → IsOwned codec target run → Ended codec target (err e) run
  failed-Ended e run o = record { owned = o; done = λ h. cc }

  set_complete-IsOwned :
      (run : Run)
      → IsOwned codec target run
      → run.manifest.status ≡ collecting
      → length run.rows ≡ run.manifest.target_count
      → IsOwned codec target (set_complete true run)
  set_complete-IsOwned run o s l = record {
    memory = record {
      ascending = o.memory.ascending;
      completed = o.memory.completed;
      failed = o.memory.failed;
      fresh = λ h. absurd (ground (arith, s, h));
      complete = λ h. l;
    };
    store = o.store;
    sized = o.sized;
    uncleaned = o.uncleaned;
  }

  unset_complete-IsOwned :
      (run : Run) → IsOwned codec target run → IsOwned codec target (set_complete false run)
  unset_complete-IsOwned run o = record {
    memory = record {
      ascending = o.memory.ascending;
      completed = o.memory.completed;
      failed = o.memory.failed;
      fresh = λ h. ((o.memory.fresh h).0, refl);
      complete = λ h. cc;
    };
    store = o.store;
    sized = o.sized;
    uncleaned = o.uncleaned;
  }

  collected-Ended :
      (now : ℕ) (run run' : Run) (r : Result SpoolError (Unit {0}))
      → IsOwned codec target run
      → run.manifest.status ≡ collecting
      → length run.rows ≡ target
      → Stores collected now (set_complete true run) r run'
      → Ended codec target r run'
  collected-Ended now run run' r o c l s =
      let complete = set_complete-IsOwned run o c (l ∙ sym o.sized.0) in
      record {
        owned =
            IsOwned-Stores codec target collected now (set_complete true run) run' r complete
              (λ h. cc) s;
        done = λ h.
            let stored = (s.done h).0 in
            record {
              status = rw (stored, s.manifest) refl;
              complete = rw (stored, s.manifest) refl;
              counted = rw (stored, s.manifest) (o.memory.completed ∙ l);
              each = rw s.rows (
                  Ascending-positions target 1 run.manifest.target_count run.rows o.memory.ascending
                    l (omega (arith, o.sized.0)));
              published = rw stored (s.done h).1;
            };
      }

  pub branch-Ended :
      (b : Bool) (x y : Result SpoolError (Unit {0}) × Run)
      → (b ≡ true → Ended codec target x.0 x.1)
      → (b ≡ false → Ended codec target y.0 y.1)
      → (let z = if b then x else y in Ended codec target z.0 z.1)
  branch-Ended = if_elim (λ z. Ended codec target z.0 z.1)

  pub leave-Ended :
      (c : Collecting) (run : Run)
      → IsCollecting codec target run
      → Ended codec target (leave c run).0 (leave c run).1
  unfolding leave
  leave-Ended c run i =
      branch-Ended c.body_raises _ _ (λ _. failed-Ended SpoolError.raised run i.owned)
        (λ _.
          branch-Ended run.append_failed _ _ (λ _. failed-Ended SpoolError.stopped run i.owned)
            (λ _.
              branch-Ended (not (nat_beq (length run.positions) run.manifest.target_count)) _ _
                (λ _. failed-Ended SpoolError.incomplete run i.owned)
                (λ full.
                  collected-Ended c.leaving.now run _ _ i.owned i.status
                    (ground (arith, full, i.counted, i.owned.sized.0))
                    (set_state-Stores c.leaving collected (set_complete true run)))))

  pub interrupt-Ended :
      (failing : Storing) (r : Result SpoolError (Unit {0})) (run : Run)
      → Ended codec target r run
      → Ended codec target (or_interrupt failing (r, run)).0 (or_interrupt failing (r, run)).1
  unfolding interrupt
  interrupt-Ended failing (ok tt) run e = e
  interrupt-Ended failing (err x) run e = failed-Ended x _ (
      IsOwned-Stores codec target interrupted failing.now (set_complete false run) _ _
        (unset_complete-IsOwned run e.owned) (λ h. cc)
        (set_state-Stores failing interrupted (set_complete false run)))
