-- ===== src/Spool/Collection/Owned.antt =====
-- src/orbitflow/result_spool.py: what holds of a run that an owner works on, whatever its status.
use orbit_flow_evo.Base.{ℕ, ◌≡◌, false, List, [], Result, inl, inr}
use orbit_flow_evo.Spool.{Status, created, Manifest, Row, Run, SpoolError}
use orbit_flow_evo.Spool.Append.{Codec}
use orbit_flow_evo.Spool.Recorded.{IsAccount}
use orbit_flow_evo.Spool.Stored.{Stores}

pub IsAccount-with_status :
    (codec : Codec) (m : Manifest) (rows : List Row) (status : Status) (now : ℕ)
    → IsAccount codec m rows
    → (status ≡ created → (rows ≡ []) × (m.collection_complete ≡ false))
    → IsAccount codec (record m { status = status; updated_at = now }) rows
IsAccount-with_status codec m rows status now a fresh = record {
  ascending = a.ascending;
  completed = a.completed;
  failed = a.failed;
  fresh = fresh;
  complete = a.complete;
}

-- Both manifests of a run of `target` targets account for its rows, and no cleanup of the run has started.
pub record IsOwned (codec : Codec) (target : ℕ) (run : Run) : Type 0 where
  pub memory : IsAccount codec run.manifest run.rows
  pub store : IsAccount codec run.metadata run.rows
  pub sized : (run.manifest.target_count ≡ target) × (run.metadata.target_count ≡ target)
  pub uncleaned :
      (run.manifest.cleanup_started ≡ false)
      × (run.metadata.cleanup_started ≡ false)
      × (run.file.cleanup_started ≡ false)

pub IsOwned-Stores :
    (codec : Codec) (target : ℕ) (status : Status) (now : ℕ) (run run' : Run)
    (r : Result SpoolError (Unit {0}))
    → IsOwned codec target run
    → (status ≡ created → (run.rows ≡ []) × (run.manifest.collection_complete ≡ false))
    → Stores status now run r run'
    → IsOwned codec target run'
IsOwned-Stores codec target status now run run' r c fresh s =
    let memory : IsAccount codec run'.manifest run'.rows =
      rw (s.manifest, s.rows)
        (IsAccount-with_status codec run.manifest run.rows status now c.memory fresh) in
    record {
      memory = memory;
      store = elim s.metadata [ inl same ↦ rw (same, s.rows) c.store | inr new ↦ rw new memory ];
      sized = elim s.metadata [
        | inl same ↦ (rw s.manifest c.sized.0, rw same c.sized.1)
        | inr new ↦ (rw s.manifest c.sized.0, rw (new, s.manifest) c.sized.0)
      ];
      uncleaned =
          let (kept, in_store, in_file) = c.uncleaned in
          let kept' : run'.manifest.cleanup_started ≡ false = rw s.manifest kept in
          (
            kept',
            elim s.metadata [ inl same ↦ rw same in_store | inr new ↦ rw new kept' ],
            elim s.file [ inl same ↦ rw same in_file | inr new ↦ rw new kept' ],
          );
    }
