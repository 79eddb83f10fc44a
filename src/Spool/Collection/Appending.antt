-- ===== src/Spool/Collection/Appending.antt =====
-- src/orbitflow/result_spool.py: the store and the counts of a run through the calls of `append`.
use orbit_flow_evo.Base.{
  ℕ, ◌≤◌, ◌≡◌, refl, Bool, true, false, not, ◌&&◌, List, [], ◌∷◌, Result, ok, err, arith, length,
  inl, inr, Bool-cases, Result-cases,
}
use orbit_flow_evo.Base.Equality.{nat_eq, contains}
use orbit_flow_evo.Base.Texts.{Text}
use orbit_flow_evo.Spool.{collecting, Row, Run, SpoolError}
use orbit_flow_evo.Spool.Retry.{Storing}
use orbit_flow_evo.Spool.Collection.Owned.{IsOwned, IsOwned-Stores}
use orbit_flow_evo.Spool.Stored.{Stores, set_state-Stores}
use orbit_flow_evo.Spool.Append.{
  Codec, Append, row_positions, commit, latched, record_state, record_staged, append, append_all,
  prepare, envelope_of, is_failed, stage,
}
use orbit_flow_evo.Spool.Staged.{IsFaithful, prepare-Admits, stage-decodes}
use orbit_flow_evo.Spool.Recorded.{
  IsEnvelope, as_envelope, IsAccount-checkpoint, contains-insert_row, length-insert_row,
}

-- The run while its collection is open.
pub record IsCollecting (codec : Codec) (target : ℕ) (run : Run) : Type 0 where
  pub owned : IsOwned codec target run
  pub status : run.manifest.status ≡ collecting
  pub incomplete : run.manifest.collection_complete ≡ false
  pub known : (p : ℕ) → contains run.positions p ≡ contains (row_positions run.rows) p
  pub counted : length run.positions ≡ length run.rows

module _ (codec : Codec) (target : ℕ) where
  IsCollecting-Stores :
      (now : ℕ) (run run' : Run) (r : Result SpoolError (Unit {0}))
      → IsCollecting codec target run
      → Stores collecting now run r run'
      → IsCollecting codec target run'
  IsCollecting-Stores now run run' r c s = record {
    owned = IsOwned-Stores codec target collecting now run run' r c.owned (λ h. cc) s;
    status = rw s.manifest refl;
    incomplete = rw s.manifest c.incomplete;
    known = λ p. rw (s.positions, s.rows) (c.known p);
    counted = rw (s.positions, s.rows) c.counted;
  }

  IsCollecting-commit :
      (run : Run) (commits : Bool) (row : Row) (failed : Bool)
      → IsCollecting codec target run
      → 1 ≤ row.position
      → row.position ≤ run.manifest.target_count
      → IsEnvelope codec run.manifest.run_id row failed
      → IsCollecting codec target (commit commits row failed run).1
  unfolding commit
  IsCollecting-commit run commits row failed c l h e =
      elim (Bool-cases (commits && not (contains (row_positions run.rows) row.position))) [
        | inr out ↦ rw out c
        | inl in' ↦
            let new : contains (row_positions run.rows) row.position ≡ false =
              ground (arith, in') in
            let account =
              IsAccount-checkpoint codec run.manifest row failed run.rows c.owned.memory c.status
                c.incomplete l h new e in
            rw in' (record {
              owned = record {
                memory = account;
                store = account;
                sized = (c.owned.sized.0, c.owned.sized.0);
                uncleaned = (c.owned.uncleaned.0, c.owned.uncleaned.0, c.owned.uncleaned.2);
              };
              status = c.status;
              incomplete = c.incomplete;
              known = λ p. ground (arith, c.known p, contains-insert_row row run.rows p);
              counted = rw (length-insert_row row run.rows) (omega (arith, c.counted));
            })
      ]

  IsCollecting-stopped :
      (run : Run)
      → IsCollecting codec target run
      → IsCollecting codec target (record run { append_failed = true })
  IsCollecting-stopped run c = record {
    owned = record {
      memory = c.owned.memory;
      store = c.owned.store;
      sized = c.owned.sized;
      uncleaned = c.owned.uncleaned;
    };
    status = c.status;
    incomplete = c.incomplete;
    known = c.known;
    counted = c.counted;
  }

  IsCollecting-latched :
      (r : Result SpoolError (Unit {0})) (run : Run)
      → IsCollecting codec target run
      → IsCollecting codec target (latched (r, run)).1
  IsCollecting-latched (ok _) run c = c
  IsCollecting-latched (err e) run c = IsCollecting-stopped run c

  IsCollecting-record_state :
      (s : Storing) (r : Result SpoolError (Unit {0})) (run : Run)
      → IsCollecting codec target run
      → IsCollecting codec target (record_state s (r, run)).1
  IsCollecting-record_state s (err e) run c = c
  IsCollecting-record_state s (ok _) run c =
      IsCollecting-Stores s.now run _ _ c (set_state-Stores s collecting run)

  IsCollecting-record_staged :
      (a : Append) (p : ℕ) (t : Text) (failed : Bool) (staging : Result SpoolError Text) (run : Run)
      → IsCollecting codec target run
      → 1 ≤ p
      → p ≤ run.manifest.target_count
      → ((stored : Text)
          → staging ≡ ok stored
          → IsEnvelope codec run.manifest.run_id
              (record { position = p; target = t; stored = stored })
              failed)
      → IsCollecting codec target (record_staged a p t failed staging run).1
  IsCollecting-record_staged a p t failed (err e) run c l h envelopes = IsCollecting-stopped run c
  IsCollecting-record_staged a p t failed (ok stored) run c l h envelopes =
      let row : Row = record { position = p; target = t; stored = stored } in
      let committed = IsCollecting-commit run a.commits row failed c l h (envelopes stored refl) in
      IsCollecting-latched _ _ (
        IsCollecting-record_state a.storing (commit a.commits row failed run).0
          (commit a.commits row failed run).1 committed)

module _ (codec : Codec) (clean : Text → Text) (target : ℕ) (faithful : IsFaithful codec) where
  pub append-IsCollecting :
      (a : Append) (run : Run)
      → IsCollecting codec target run
      → IsCollecting codec target (append codec clean a run).1
  unfolding append
  append-IsCollecting a run c = elim (Result-cases (prepare codec clean a run)) [
    | inr (e, h) ↦ rw h c
    | inl ((p, payload), h) ↦
        let (admitted, normal) = prepare-Admits clean codec a run p payload h in
        rw h (
          IsCollecting-record_staged codec target a p (clean a.target) (is_failed codec clean a)
            (stage codec a (envelope_of codec clean a run p payload)) run c admitted.low
            admitted.high
            (λ stored e.
              as_envelope codec run.manifest.run_id _ (is_failed codec clean a) a.completed_at
                (clean a.error_category) payload
                (stage-decodes codec clean a run p payload stored faithful normal e)))
  ]

  pub append_all-IsCollecting :
      (calls : List Append) (run : Run)
      → IsCollecting codec target run
      → IsCollecting codec target (append_all codec clean calls run)
  unfolding append_all
  append_all-IsCollecting [] run c = c
  append_all-IsCollecting (a ∷ calls) run c =
      append_all-IsCollecting calls _ (append-IsCollecting a run c)
