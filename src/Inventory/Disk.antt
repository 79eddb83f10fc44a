-- ===== src/Inventory/Disk.antt =====
-- The file of the inventory: `_read`, and `_write`, which replaces the file by a complete temporary
-- one. What the operating system answers is a parameter, like Python's `json` and `datetime`.
use orbit_flow_evo.Base.{
  ℕ, zero, suc, ◌+◌, ◌*◌, Bool, true, false, not, ◌&&◌, ◌||◌, List, [], ◌∷◌, ◌++◌, ◌>>=◌, Result,
  ok, err, if◌then◌else◌, nat_beq,
}
use orbit_flow_evo.Base.Texts.{Text}
use orbit_flow_evo.Base.Equality.{list_eq, nat_eq}
use orbit_flow_evo.Inventory.Defs.{DeviceContext, Snapshot, items, reconcile, record_failure}
use orbit_flow_evo.Base.Texts.{codes}
use orbit_flow_evo.Json.{Json, Items, Fields}
use orbit_flow_evo.Inventory.Documents.{
  Formats, DiskError, document, sort_json, read_document, snapshot_of,
}

-- What stands at the path.
pub data File : Type 0 where
  absent : File
  contents : Text → File

-- `_read`
unfoldable pub read : Formats → File → Result DiskError Fields
unfolding read_document
read f absent = ok (
    Fields.field (codes "schema_version") (Json.integer 1) (
      Fields.field (codes "devices") (Json.object Fields.end)
        (Fields.field (codes "last_events") (Json.array Items.nil) Fields.end)))
read f (contents t) = read_document (f.loads t)

-- `_read`, with the entries as contexts, each of which the store wrote.
unfoldable pub load : Formats → File → Result DiskError Snapshot
unfolding read snapshot_of
load f file = read f file >>= snapshot_of f

-- `contexts`
unfoldable pub contexts : Formats → File → Result DiskError (List DeviceContext)
unfolding load
contexts f file = load f file >>= λ s. ok (items s.devices)

-- The answer to one `os.replace`: done, access denied, or another `OSError`.
pub data Replaced : Type 0 where
  done denied failed : Replaced

pub record Attempts : Type 0 where
  pub written : Bool
  -- The pauses between the attempts, in milliseconds.
  pub slept : List ℕ

-- The operating system during one write: its kind, whether the temporary file could be written,
-- and the answer to each attempt to replace.
pub record System : Type 0 where
  pub windows : Bool
  pub dumped : Bool
  pub answer : ℕ → Replaced

-- `for attempt in range(4)`, from `attempt` on with `left` attempts left.
unfoldable pub replace_from : System → ℕ → ℕ → Attempts
replace_from os attempt zero = record { written = true; slept = [] }
replace_from os attempt (suc left) =
    let again =
      (let rest = replace_from os (attempt + 1) left in
        record rest { slept = (50 * (attempt + 1)) ∷ rest.slept }) in
    elim (os.answer attempt) [
      | done ↦ record { written = true; slept = [] }
      | denied ↦
          if not os.windows || nat_beq attempt 3
          then record { written = false; slept = [] }
          else again
      | failed ↦ record { written = false; slept = [] }
    ]

-- What `_write` stores: `json.dump(data, handle, …, sort_keys=True)` and a line feed.
unfoldable pub written_text : Formats → Snapshot → Text
unfolding document sort_json
written_text f s = f.dumps (sort_json (document f s)) ++ 10 ∷ []

unfoldable pub write : Formats → System → Snapshot → File → Result DiskError (Unit {0}) × File
unfolding written_text replace_from
write f os s file =
    if os.dumped && (replace_from os 0 4).written
    then (ok tt, contents (written_text f s))
    else (err DiskError.os_error, file)

-- `JsonInventoryStore.reconcile`
unfoldable pub reconcile_stored :
    Formats → System → Text → DeviceContext → File → Result DiskError DeviceContext × File
unfolding load write reconcile
reconcile_stored f os fresh observed file = elim (load f file) [
  | err e ↦ (err e, file)
  | ok s ↦
      let (context, s') = reconcile fresh observed s in
      let (written, file') = write f os s' file in
      elim written [ ok _ ↦ (ok context, file') | err e ↦ (err e, file') ]
]

-- `JsonInventoryStore.record_failure`
unfoldable pub record_failure_stored :
    Formats → System → Text → ℕ → Text → File → Result DiskError (Unit {0}) × File
unfolding load write record_failure
record_failure_stored f os ip attempted_at error file = elim (load f file) [
  | err e ↦ (err e, file)
  | ok s ↦ write f os (record_failure ip attempted_at error s) file
]

abbrev pub sum : List ℕ → ℕ
sum [] = 0
sum (x ∷ xs) = x + sum xs
