-- ===== src/Tests/Inventory.antt =====
-- Tests of the model of src/orbitflow/inventory/store.py.
use mathlib.Core.Option.{none-ne-some}
use orbit_flow_evo.Base.{◌≡◌, refl, ap, true, some, [], ◌∷◌, ok, err, if◌then◌else◌}
use orbit_flow_evo.Base.Equality.{list_eq, nat_eq, list_beq, from_keys, ◌==◌}
use orbit_flow_evo.Base.Texts.{Text, codes, decimal}
use orbit_flow_evo.Inventory.Defs.{
  DeviceContext, Snapshot, lookup, reconcile, has_serial_key, serial_key,
}
use orbit_flow_evo.Inventory.Identity.{IsConsistent, reconcile-IsConsistent}
use orbit_flow_evo.Inventory.Documents.{Formats, DiskError}
use orbit_flow_evo.Inventory.Sorting.{sort_entries}
use orbit_flow_evo.Inventory.Disk.{
  File, done, denied, System, load, replace_from, written_text, reconcile_stored,
  record_failure_stored,
}
use orbit_flow_evo.Inventory.Transactions.{IsFaithful, load-written_text, reconcile_stored-load}
use orbit_flow_evo.Tests.Codec.{write_json, read_json, read_json-write_json}
use orbit_flow_evo.Base.Decimals.{str, decimal-str}

abbrev switch : DeviceContext
switch = record {
  device_id = codes "";
  management_ip = codes "10.0.0.1";
  observed_management_ips = [];
  hostname = codes "core-1";
  vendor = codes "Cisco ";
  platform = codes "ios";
  device_family = codes "catalyst";
  hardware_model = codes "C9300";
  capability_profile = codes "ios-xe";
  capability_flags = [];
  serial_number = codes "FOC1";
  software_version = codes "17.9";
  uptime = codes "1 day";
  last_successful_collection = 7;
  last_collection_attempt = 7;
  collection_status = codes "success";
  collection_error = codes "";
}

abbrev moved : DeviceContext
moved = record switch { management_ip = codes "10.0.0.2"; vendor = codes "cisco" }

abbrev empty : Snapshot
empty = record { devices = []; last_events = [] }

empty-IsConsistent : IsConsistent empty.devices
unfolding lookup
empty-IsConsistent = record {
  nodup = tt;
  named = λ id d found. absurd (none-ne-some d found);
  unique = λ key i j d e found _ _ _. absurd (none-ne-some d found);
}

abbrev stored_switch : DeviceContext
stored_switch = record switch {
  device_id = codes "d-1";
  observed_management_ips = (codes "10.0.0.1") ∷ [];
}

-- JSON by a stand-in, and an instant by its digits.
abbrev formats : Formats
formats = record {
  dumps = write_json;
  loads = read_json;
  isoformat = str;
  fromisoformat = λ t. some (decimal 0 t);
}

formats-IsFaithful : IsFaithful formats
formats-IsFaithful = record {
  loads_dumps = λ j h. read_json-write_json j (10 ∷ []);
  instants = λ t. ap some (decimal-str t);
}

abbrev one_device : Snapshot
one_device = record { devices = ((codes "d-1"), stored_switch) ∷ []; last_events = [] }

first_reconciled : reconcile (codes "d-1") switch empty ≡ (stored_switch, one_device)
unfolding reconcile
first_reconciled = refl

one_device-IsConsistent : IsConsistent one_device.devices
unfolding reconcile
one_device-IsConsistent = reconcile-IsConsistent (codes "d-1") switch empty empty-IsConsistent

abbrev known_switch : DeviceContext
known_switch = record moved {
  device_id = codes "d-1";
  observed_management_ips = (codes "10.0.0.1") ∷ (codes "10.0.0.2") ∷ [];
}

reconcile-IsConsistent_example : IsConsistent (reconcile (codes "d-2") moved one_device).1.devices
reconcile-IsConsistent_example =
    reconcile-IsConsistent (codes "d-2") moved one_device one_device-IsConsistent

found_switch : lookup (codes "d-1") one_device.devices ≡ some stored_switch
unfolding lookup list_beq
found_switch = refl

same_key : has_serial_key (serial_key moved.vendor moved.serial_number) stored_switch ≡ true
unfolding serial_key list_beq
same_key = refl

-- Windows denies the first attempt to replace the file, or all of them.
abbrev busy_once : System
busy_once = record { windows = true; dumped = true; answer = λ n. if n == 0 then denied else done }

abbrev busy : System
busy = record { windows = true; dumped = true; answer = λ n. denied }

busy_pauses : (replace_from busy 0 4).slept ≡ 50 ∷ 100 ∷ 150 ∷ []
unfolding replace_from
busy_pauses = refl

-- The file as a write of the one device leaves it.
abbrev one_file : File
one_file = File.contents (written_text formats one_device)

file_loads : load formats one_file ≡ ok one_device
unfolding sort_entries
file_loads = load-written_text formats one_device formats-IsFaithful one_device-IsConsistent.nodup

module _ (file : File) (r : load formats file ≡ ok one_device) where
  busy_fails : (reconcile_stored formats busy (codes "d-2") moved file).0 ≡ err DiskError.os_error
  unfolding reconcile_stored replace_from
  busy_fails = rw (reconcile_stored, r) refl

  known_stored : (reconcile_stored formats busy_once (codes "d-2") moved file).0 ≡ ok known_switch
  unfolding reconcile_stored list_beq from_keys
  known_stored = rw (reconcile_stored, r) refl

  failure_stored :
      (record_failure_stored formats busy_once (codes "10.0.0.1") 9 (codes "timeout") file).0
      ≡ ok tt
  unfolding record_failure_stored
  failure_stored = rw (record_failure_stored, r) refl

reconcile_stored-load_example :
    (s' : Snapshot) × (load formats
        (reconcile_stored formats busy_once (codes "d-2") moved one_file).1
      ≡ ok s')
    × IsConsistent s'.devices
    × ((j : Text)
        → lookup j s'.devices
          ≡ (if codes "d-1" == j then some known_switch else lookup j one_device.devices))
reconcile_stored-load_example =
    reconcile_stored-load formats busy_once (codes "d-2") moved one_file one_device known_switch
      formats-IsFaithful file_loads one_device-IsConsistent (known_stored one_file file_loads)
