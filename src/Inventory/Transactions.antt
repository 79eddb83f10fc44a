-- ===== src/Inventory/Transactions.antt =====
-- src/orbitflow/inventory/store.py: what a transaction of the inventory's store stores, and how long a write may retry.
use orbit_flow_evo.Base.{
  ℕ, ◌≤◌, ◌≡◌, sym, ◌∙◌, ap, ◌++◌, some, [], ◌∷◌, ok, arith, if◌then◌else◌, length,
}
use orbit_flow_evo.Base.Texts.{Text}
use orbit_flow_evo.Base.Equality.{list_eq, nat_eq, ◌==◌}
use orbit_flow_evo.Inventory.Defs.{
  DeviceContext, Devices, Snapshot, lookup, reconcile, record_failure,
}
use orbit_flow_evo.Inventory.Devices.{NodupKeys}
use orbit_flow_evo.Inventory.Identity.{IsConsistent, reconcile-IsConsistent, reconcile-lookup}
use orbit_flow_evo.Inventory.Documents.{Formats, document, sort_json}
use orbit_flow_evo.Inventory.Sorting.{sort_entries, lookup-sort_entries, NodupKeys-sort_entries}
use orbit_flow_evo.Inventory.Readback.{
  ReadsInstants, snapshot_of-document, document-HasDistinctNames,
}
use orbit_flow_evo.Inventory.Disk.{
  File, System, load, replace_from, written_text, write, reconcile_stored, record_failure_stored,
  sum,
}
use orbit_flow_evo.Inventory.Failure.{record_failure-IsConsistent}
use orbit_flow_evo.Json.{Json}
use orbit_flow_evo.Spool.Sanitized.{HasDistinctNames}

sort_entries-IsConsistent :
    (devices : Devices) → IsConsistent devices → IsConsistent (sort_entries devices)
sort_entries-IsConsistent devices c = record {
  nodup = NodupKeys-sort_entries devices c.nodup;
  named = λ id d f. c.named id d (sym (lookup-sort_entries devices id c.nodup) ∙ f);
  unique = λ key i j d e f g.
      c.unique key i j d e (sym (lookup-sort_entries devices i c.nodup) ∙ f)
        (sym (lookup-sort_entries devices j c.nodup) ∙ g);
}

-- A write gives up after at most three pauses, of at most 300 milliseconds together.
pub replace_from_bounds :
    (os : System)
    → (length (replace_from os 0 4).slept ≤ 3) × (sum (replace_from os 0 4).slept ≤ 300)
unfolding replace_from
replace_from_bounds os = (ground arith, ground arith)

-- What the store relies on of `json` and `datetime`: a text that JSON wrote for a value in which no object has a name
-- twice is read as that value, also before a line feed, and an instant is read back from what it was written as.
pub record IsFaithful (f : Formats) : Type 0 where
  pub loads_dumps : (j : Json) → HasDistinctNames j → f.loads (f.dumps j ++ 10 ∷ []) ≡ some j
  pub instants : ReadsInstants f

abbrev stored : Snapshot → Snapshot
stored s = record s { devices = sort_entries s.devices }

pub load-written_text :
    (f : Formats) (s : Snapshot)
    → IsFaithful f
    → NodupKeys s.devices
    → load f (File.contents (written_text f s)) ≡ ok (stored s)
unfolding load written_text
load-written_text f s faithful u =
    rw (faithful.loads_dumps (sort_json (document f s)) (document-HasDistinctNames f s u))
      (snapshot_of-document f s faithful.instants)

stored_lem :
    (f : Formats) (os : System) (fresh : Text) (observed : DeviceContext) (file : File)
    (s : Snapshot) (context : DeviceContext)
    → load f file ≡ ok s
    → (reconcile_stored f os fresh observed file).0 ≡ ok context
    → ((reconcile fresh observed s).0 ≡ context)
      × ((reconcile_stored f os fresh observed file).1
          ≡ File.contents (written_text f (reconcile fresh observed s).1))
unfolding reconcile_stored write
stored_lem f os fresh observed file s context r h = (ground (arith, r, h), ground (arith, r, h))

-- Where JSON and `datetime` read back what they have written: after a reconciliation that returns, over a file whose
-- inventory was consistent, the file reads back as a consistent inventory in which the returned device stands under its
-- identifier with all its facts, and every other identifier finds what it found before.
pub reconcile_stored-load :
    (f : Formats) (os : System) (fresh : Text) (observed : DeviceContext) (file : File)
    (s : Snapshot) (context : DeviceContext)
    → IsFaithful f
    → load f file ≡ ok s
    → IsConsistent s.devices
    → (reconcile_stored f os fresh observed file).0 ≡ ok context
    → (s' : Snapshot) × (load f (reconcile_stored f os fresh observed file).1 ≡ ok s')
      × IsConsistent s'.devices
      × ((j : Text)
          → lookup j s'.devices
            ≡ (if context.device_id == j then some context else lookup j s.devices))
reconcile_stored-load f os fresh observed file s context faithful r c h =
    let (same, after) = stored_lem f os fresh observed file s context r h in
    let s' = (reconcile fresh observed s).1 in
    let c' = reconcile-IsConsistent fresh observed s c in
    (
      stored s',
      ap (load f) after ∙ load-written_text f s' faithful c'.nodup,
      sort_entries-IsConsistent s'.devices c',
      λ j.
          lookup-sort_entries s'.devices j c'.nodup
          ∙ ground (arith, same, (reconcile-lookup fresh observed s j).0),
    )

-- Where JSON and `datetime` read back what they have written, a failure that was recorded keeps the file's inventory
-- consistent, with what `record_failure` makes of each device.
record_failure_stored-load :
    (f : Formats) (os : System) (ip : Text) (attempted_at : ℕ) (error : Text) (file : File)
    (s : Snapshot)
    → IsFaithful f
    → load f file ≡ ok s
    → IsConsistent s.devices
    → (record_failure_stored f os ip attempted_at error file).0 ≡ ok tt
    → (s' : Snapshot) × (load f (record_failure_stored f os ip attempted_at error file).1 ≡ ok s')
      × IsConsistent s'.devices
      × ((j : Text)
          → lookup j s'.devices ≡ lookup j (record_failure ip attempted_at error s).devices)
unfolding record_failure_stored write
record_failure_stored-load f os ip attempted_at error file s faithful r c h =
    let marked = record_failure ip attempted_at error s in
    let c' = record_failure-IsConsistent ip attempted_at error s c in
    let after : (record_failure_stored f os ip attempted_at error file).1
        ≡ File.contents (written_text f marked) =
      ground (arith, r, h) in
    (
      stored marked,
      ap (load f) after ∙ load-written_text f marked faithful c'.nodup,
      sort_entries-IsConsistent marked.devices c',
      λ j. lookup-sort_entries marked.devices j c'.nodup,
    )
