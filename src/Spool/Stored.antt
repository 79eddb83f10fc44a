-- ===== src/Spool/Stored.antt =====
-- src/orbitflow/result_spool.py: what a call of `_state` does to the run and to its store.
use orbit_flow_evo.Base.{ℕ, ◌≡◌, refl, false, Result, ok, err, inl, inr, ◌⊎◌, Bool-cases}
use orbit_flow_evo.Spool.{Status, Run, SpoolError, load_manifest}
use orbit_flow_evo.Spool.Retry.{
  Attempt, Storing, raised_by, replaced, permission_retry, publish, set_state, with_status,
}

-- What `_state` does to a run, whatever it meets.
pub record Stores (status : Status) (now : ℕ) (run : Run) (r : Result SpoolError (Unit {0}))
    (run' : Run) : Type 0 where
  pub manifest : run'.manifest ≡ (with_status status now run).manifest
  pub rows : run'.rows ≡ run.rows
  pub positions : run'.positions ≡ run.positions
  pub append_failed : run'.append_failed ≡ run.append_failed
  pub writer : run'.writer ≡ run.writer
  pub metadata : (run'.metadata ≡ run.metadata) ⊎ (run'.metadata ≡ run'.manifest)
  pub file : (run'.file ≡ run.file) ⊎ (run'.file ≡ run'.manifest)
  pub done : r ≡ ok tt → (run'.metadata ≡ run'.manifest) × (run'.file ≡ run'.manifest)

-- The store has the manifest, and manifest.json does not.
unpublished-Stores :
    (e : SpoolError) (status : Status) (now : ℕ) (run : Run)
    → (let run1 = with_status status now run in
        Stores status now run (err e) (record run1 { metadata = run1.manifest }))
unpublished-Stores e status now run = record {
  manifest = refl;
  rows = refl;
  positions = refl;
  append_failed = refl;
  writer = refl;
  metadata = inr refl;
  file = inl refl;
  done = λ h. cc;
}

publish-Stores :
    (outcome : Attempt) (status : Status) (now : ℕ) (run : Run)
    → (let run1 = with_status status now run in
        Stores status now run
          (raised_by outcome)
          (replaced outcome (record run1 { metadata = run1.manifest })))
publish-Stores Attempt.done status now run = record {
  manifest = refl;
  rows = refl;
  positions = refl;
  append_failed = refl;
  writer = refl;
  metadata = inr refl;
  file = inr refl;
  done = λ h. (refl, refl);
}
publish-Stores Attempt.denied status now run =
    unpublished-Stores SpoolError.permission status now run
publish-Stores Attempt.broken status now run = unpublished-Stores SpoolError.storage status now run

pub set_state-Stores :
    (s : Storing) (status : Status) (run : Run)
    → Stores status s.now run (set_state s status run).0 (set_state s status run).1
unfolding set_state publish
set_state-Stores s status run = elim (Bool-cases s.commits) [
  | inr e ↦ rw e (record {
    manifest = refl;
    rows = refl;
    positions = refl;
    append_failed = refl;
    writer = refl;
    metadata = inl refl;
    file = inl refl;
    done = λ h. cc;
  })
  | inl e ↦ rw e (elim (Bool-cases s.writes) [
    | inl w ↦ rw w (publish-Stores (permission_retry s.replaces).outcome status s.now run)
    | inr w ↦ rw w (unpublished-Stores SpoolError.storage status s.now run)
  ])
]

-- The store has the manifest until the cleanup starts.
pub load_manifest-stored :
    (run : Run) → run.file.cleanup_started ≡ false → load_manifest run ≡ run.metadata
load_manifest-stored run h = rw h refl
