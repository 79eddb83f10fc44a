-- ===== src/Spool/Retry.antt =====
-- src/orbitflow/result_spool.py: `_permission_retry`, and `_state`, which stores the manifest.
pub mod Laws
use orbit_flow_evo.Base.{ℕ, ◌+◌, Bool, List, [], ◌∷◌, Result, ok, err, if◌then◌else◌}
use orbit_flow_evo.Spool.{Status, Run, SpoolError, storage, permission}

-- One call of the operation: it returns, raises `PermissionError`, or raises another exception.
pub data Attempt : Type 0 where
  done denied broken : Attempt

-- What a retried operation comes to: how it ended, the calls that were made, and the pauses, in
-- milliseconds.
pub record Retried : Type 0 where
  pub outcome : Attempt
  pub calls : ℕ
  pub slept : List ℕ

-- The first call, before a delay and what the further calls would come to.
abbrev pub first_attempt : ℕ → ℕ → Attempt → Retried → Retried
first_attempt delay call Attempt.denied rest = record rest { slept = delay ∷ rest.slept }
first_attempt delay call outcome rest = record { outcome = outcome; calls = call + 1; slept = [] }

-- The loop over the delays that are left; the last call has none.
unfoldable pub retry_from : List ℕ → (ℕ → Attempt) → ℕ → Retried
retry_from [] operation call = record { outcome = operation call; calls = call + 1; slept = [] }
retry_from (delay ∷ delays) operation call =
    first_attempt delay call (operation call) (retry_from delays operation (call + 1))

abbrev pub delays : List ℕ
delays = 100 ∷ 200 ∷ 400 ∷ []

-- `_permission_retry`
unfoldable pub permission_retry : (ℕ → Attempt) → Retried
unfolding retry_from
permission_retry operation = retry_from delays operation 0

abbrev pub raised_by : Attempt → Result SpoolError (Unit {0})
raised_by Attempt.done = ok tt
raised_by Attempt.denied = err permission
raised_by Attempt.broken = err storage

-- What one call of `_state` meets: whether the store commits the manifest, whether the temporary
-- file is written and synced, and each attempt to move it over manifest.json.
pub record Storing : Type 0 where
  pub now : ℕ
  pub commits : Bool
  pub writes : Bool
  pub replaces : ℕ → Attempt

abbrev pub replaced : Attempt → Run → Run
replaced Attempt.done run = record run { file = run.manifest }
replaced _ run = run

-- `_state`, from the temporary file on.
unfoldable pub publish : Storing → Run → Result SpoolError (Unit {0}) × Run
unfolding permission_retry
publish s run =
    let outcome = (permission_retry s.replaces).outcome in
    if s.writes then (raised_by outcome, replaced outcome run) else (err storage, run)

abbrev pub with_status : Status → ℕ → Run → Run
with_status status now run =
    let m = run.manifest in record run { manifest = record m { status = status; updated_at = now } }

-- `_state`
unfoldable pub set_state : Storing → Status → Run → Result SpoolError (Unit {0}) × Run
unfolding publish
set_state s status run =
    let run1 = with_status status s.now run in
    if s.commits then publish s (record run1 { metadata = run1.manifest }) else (err storage, run1)
