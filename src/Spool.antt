-- ===== src/Spool.antt =====
-- src/orbitflow/result_spool.py: a run of collected outcomes. Its manifest, the committed rows of its
-- SQLite store, and the handles that the owner of a collection holds. An instant is a number.
pub mod Retry
pub mod Stored
pub mod Safe
pub mod Sanitized
pub mod Append
pub mod Staged
pub mod Index
pub mod Collection
pub mod Consumption
pub mod Journal
pub mod Cleanup
pub mod Readback
pub mod Lifecycle
pub mod Recorded
use orbit_flow_evo.Base.{leb, ℕ, Bool, true, false, Option, none, List, [], ◌∷◌, if◌then◌else◌}
use orbit_flow_evo.Base.Texts.{Text}

pub data Status : Type 0 where
  created collecting collected interrupted : Status
  consuming consumed partial_consumed output_failed : Status

pub record Manifest : Type 0 where
  pub run_id : Text
  pub target_count : ℕ
  pub completed_count : ℕ
  pub failed_count : ℕ
  pub status : Status
  pub collection_complete : Bool
  pub cleanup_started : Bool
  pub updated_at : ℕ

-- A row of the table `results`: the key, the target, and the text of the JSON record.
pub record Row : Type 0 where
  pub position : ℕ
  pub target : Text
  pub stored : Text

-- The object (`manifest` to `writer`), the store (`rows` and the manifest in `metadata`), and
-- manifest.json. The writer is the thread that owns the collection, while one is open.
pub record Run : Type 0 where
  pub manifest : Manifest
  pub positions : List ℕ
  pub append_failed : Bool
  pub writer : Option ℕ
  pub rows : List Row
  pub metadata : Manifest
  pub file : Manifest

pub data SpoolError : Type 0 where
  not_owner stopped invalid_position not_normalized record_size spool_size not_json : SpoolError
  storage permission leased repeated incomplete already_consumed corrupt missing : SpoolError
  invalid_envelope refused raised : SpoolError

abbrev pub new_manifest : Text → ℕ → ℕ → Manifest
new_manifest run_id target_count now = record {
  run_id = run_id;
  target_count = target_count;
  completed_count = 0;
  failed_count = 0;
  status = Status.created;
  collection_complete = false;
  cleanup_started = false;
  updated_at = now;
}

-- `ResultSpool.create`, once its directory is allocated.
abbrev pub create : Text → ℕ → ℕ → Run
create run_id target_count now =
    let m = new_manifest run_id target_count now in
    record {
      manifest = m;
      positions = [];
      append_failed = false;
      writer = none;
      rows = [];
      metadata = m;
      file = m;
    }

-- `_load_manifest`, for a run whose storage is SQLite.
abbrev pub load_manifest : Run → Manifest
load_manifest run = if run.file.cleanup_started then run.file else run.metadata

-- The store keeps its rows in the order of their keys.
unfoldable pub insert_row : Row → List Row → List Row
insert_row r [] = r ∷ []
insert_row r (x ∷ rows) =
    let rest = insert_row r rows in if leb r.position x.position then r ∷ x ∷ rows else x ∷ rest
