-- ===== src/Inventory/Documents.antt =====
-- src/orbitflow/inventory/store.py: `_serialize` and `_deserialize`, and the JSON document that a snapshot is stored as.
-- Python's `json` and `datetime` are a parameter. An entry of a file that `_serialize` did not write, by a missing, a
-- further or an otherwise typed field, is outside the model: it is read as `foreign`, whatever Python does with it.
use orbit_flow_evo.Base.{
  ℕ, ◌+◌, Bool, true, false, Option, none, some, List, [], ◌∷◌, Result, ok, err, ◌>>=◌, ◌>>◌, guard,
  ltb, ◌&&◌, ◌||◌, nat_beq, if◌then◌else◌,
}
use orbit_flow_evo.Base.Texts.{Text, codes}
use orbit_flow_evo.Base.Equality.{list_eq, nat_eq, ◌==◌}
use orbit_flow_evo.Json.{Json, Items, Fields, get}
use orbit_flow_evo.Inventory.Defs.{
  DeviceContext, Devices, Event, management_ip_changed, serial_number_discovered,
  likely_replacement_or_ip_reassignment, hostname_collision, collection_failed,
  unresolved_collection_failed, Snapshot,
}

-- `json.dumps` and `json.loads`, `datetime.isoformat` and `datetime.fromisoformat`.
pub record Formats : Type 0 where
  pub dumps : Json → Text
  pub loads : Text → Option Json
  pub isoformat : ℕ → Text
  pub fromisoformat : Text → Option ℕ

pub data DiskError : Type 0 where
  invalid_json not_an_object invalid_snapshot foreign os_error : DiskError

abbrev pub texts : List Text → Items
texts [] = Items.nil
texts (t ∷ ts) = Items.cons (Json.text t) (texts ts)

-- `_serialize`
unfoldable pub serialize : Formats → DeviceContext → Json
serialize f d = Json.object (
    Fields.field (codes "device_id") (Json.text d.device_id) (
      Fields.field (codes "management_ip") (Json.text d.management_ip) (
        Fields.field (codes "observed_management_ips")
          (Json.array (texts d.observed_management_ips))
          (Fields.field (codes "hostname") (Json.text d.hostname) (
            Fields.field (codes "vendor") (Json.text d.vendor) (
              Fields.field (codes "platform") (Json.text d.platform) (
                Fields.field (codes "device_family") (Json.text d.device_family) (
                  Fields.field (codes "hardware_model") (Json.text d.hardware_model) (
                    Fields.field (codes "capability_profile") (Json.text d.capability_profile) (
                      Fields.field (codes "capability_flags")
                        (Json.array (texts d.capability_flags))
                        (Fields.field (codes "serial_number") (Json.text d.serial_number) (
                          Fields.field (codes "software_version") (Json.text d.software_version) (
                            Fields.field (codes "uptime") (Json.text d.uptime) (
                              Fields.field (codes "last_successful_collection")
                                (Json.text (f.isoformat d.last_successful_collection))
                                (Fields.field (codes "last_collection_attempt")
                                  (Json.text (f.isoformat d.last_collection_attempt))
                                  (Fields.field (codes "collection_status")
                                    (Json.text d.collection_status)
                                    (Fields.field (codes "collection_error")
                                      (Json.text d.collection_error) (Fields.end))))))))))))))))))

abbrev pub text_of : Option Json → Result DiskError Text
text_of (some (Json.text t)) = ok t
text_of _ = err foreign

unfoldable pub texts_of : Items → Result DiskError (List Text)
texts_of Items.nil = ok []
texts_of (Items.cons (Json.text t) xs) = texts_of xs >>= λ ts. ok (t ∷ ts)
texts_of (Items.cons _ xs) = err foreign

abbrev pub words_of : Option Json → Result DiskError (List Text)
words_of (some (Json.array xs)) = texts_of xs
words_of _ = err foreign

-- An instant that `isoformat` wrote.
abbrev pub parsed : Formats → Text → Option ℕ → Result DiskError ℕ
parsed f t none = err foreign
parsed f t (some n) = guard (f.isoformat n == t) foreign >> ok n

abbrev pub instant_of : Formats → Option Json → Result DiskError ℕ
instant_of f j = text_of j >>= λ t. parsed f t (f.fromisoformat t)

abbrev pub size : Fields → ℕ
size Fields.end = 0
size (Fields.field _ _ fs) = 1 + size fs

-- `_deserialize`, of what `_serialize` wrote: the fields are taken by name, in any order, and there is no further one.
unfoldable pub deserialize : Formats → Json → Result DiskError DeviceContext
unfolding get texts_of
deserialize f (Json.object fs) =
    guard (nat_beq (size fs) 17) foreign
    >> (text_of (get fs (codes "device_id")) >>= λ device_id.
        text_of (get fs (codes "management_ip")) >>= λ management_ip.
        words_of (get fs (codes "observed_management_ips")) >>= λ observed_management_ips.
        text_of (get fs (codes "hostname")) >>= λ hostname.
        text_of (get fs (codes "vendor")) >>= λ vendor.
        text_of (get fs (codes "platform")) >>= λ platform.
        text_of (get fs (codes "device_family")) >>= λ device_family.
        text_of (get fs (codes "hardware_model")) >>= λ hardware_model.
        text_of (get fs (codes "capability_profile")) >>= λ capability_profile.
        words_of (get fs (codes "capability_flags")) >>= λ capability_flags.
        text_of (get fs (codes "serial_number")) >>= λ serial_number.
        text_of (get fs (codes "software_version")) >>= λ software_version.
        text_of (get fs (codes "uptime")) >>= λ uptime.
        instant_of f (get fs (codes "last_successful_collection")) >>= λ last_successful_collection.
        instant_of f (get fs (codes "last_collection_attempt")) >>= λ last_collection_attempt.
        text_of (get fs (codes "collection_status")) >>= λ collection_status.
        text_of (get fs (codes "collection_error")) >>= λ collection_error. ok (record {
          device_id = device_id;
          management_ip = management_ip;
          observed_management_ips = observed_management_ips;
          hostname = hostname;
          vendor = vendor;
          platform = platform;
          device_family = device_family;
          hardware_model = hardware_model;
          capability_profile = capability_profile;
          capability_flags = capability_flags;
          serial_number = serial_number;
          software_version = software_version;
          uptime = uptime;
          last_successful_collection = last_successful_collection;
          last_collection_attempt = last_collection_attempt;
          collection_status = collection_status;
          collection_error = collection_error;
        }))
deserialize f _ = err foreign

abbrev pub event_name : Event → Text
event_name management_ip_changed = codes "management_ip_changed"
event_name serial_number_discovered = codes "serial_number_discovered"
event_name likely_replacement_or_ip_reassignment = codes "likely_replacement_or_ip_reassignment"
event_name hostname_collision = codes "hostname_collision"
event_name collection_failed = codes "collection_failed"
event_name unresolved_collection_failed = codes "unresolved_collection_failed"

abbrev pub event_names : List Event → List Text
event_names [] = []
event_names (e ∷ es) = event_name e ∷ event_names es

abbrev pub device_fields : Formats → Devices → Fields
device_fields f [] = Fields.end
device_fields f ((id, d) ∷ devices) = Fields.field id (serialize f d) (device_fields f devices)

-- The snapshot as the dict that is stored.
unfoldable pub document : Formats → Snapshot → Json
unfolding serialize
document f s = Json.object (
    Fields.field (codes "schema_version") (Json.integer 1) (
      Fields.field (codes "devices") (Json.object (device_fields f s.devices)) (
        Fields.field (codes "last_events") (Json.array (texts (event_names s.last_events)))
          Fields.end)))

-- The order of Python's texts.
unfoldable pub text_ltb : Text → Text → Bool
text_ltb [] [] = false
text_ltb [] (y ∷ ys) = true
text_ltb (x ∷ xs) [] = false
text_ltb (x ∷ xs) (y ∷ ys) = ltb x y || (nat_beq x y && text_ltb xs ys)

unfoldable pub insert_field : Text → Json → Fields → Fields
unfolding text_ltb
insert_field name value Fields.end = Fields.field name value Fields.end
insert_field name value (Fields.field n v fs) =
    if text_ltb name n
    then Fields.field name value (Fields.field n v fs)
    else Fields.field n v (insert_field name value fs)

-- `sort_keys=True`
unfoldable mutual
  unfolding insert_field

  pub sort_json : Json → Json
  sort_json (Json.array xs) = Json.array (sort_items xs)
  sort_json (Json.object fs) = Json.object (sort_fields fs)
  sort_json j = j

  pub sort_items : Items → Items
  sort_items Items.nil = Items.nil
  sort_items (Items.cons x xs) = Items.cons (sort_json x) (sort_items xs)

  pub sort_fields : Fields → Fields
  sort_fields Fields.end = Fields.end
  sort_fields (Fields.field n v fs) = insert_field n (sort_json v) (sort_fields fs)

unfoldable pub devices_of : Formats → Fields → Result DiskError Devices
unfolding deserialize
devices_of f Fields.end = ok []
devices_of f (Fields.field id raw fs) =
    deserialize f raw >>= λ d. devices_of f fs >>= λ devices. ok ((id, d) ∷ devices)

abbrev pub event_of : Text → Option Event
event_of t =
    if t == codes "management_ip_changed"
    then some management_ip_changed
    else if t == codes "serial_number_discovered"
    then some serial_number_discovered
    else if t == codes "likely_replacement_or_ip_reassignment"
    then some likely_replacement_or_ip_reassignment
    else if t == codes "hostname_collision"
    then some hostname_collision
    else if t == codes "collection_failed"
    then some collection_failed
    else if t == codes "unresolved_collection_failed"
    then some unresolved_collection_failed
    else none

abbrev pub onto : Option Event → List Event → List Event
onto none es = es
onto (some e) es = e ∷ es

abbrev pub listed_events : Items → List Event
listed_events Items.nil = []
listed_events (Items.cons (Json.text t) xs) = onto (event_of t) (listed_events xs)
listed_events (Items.cons _ xs) = listed_events xs

-- The program never reads the events of a file, so what is none is left out.
abbrev pub events_of : Option Json → List Event
events_of (some (Json.array xs)) = listed_events xs
events_of _ = []

-- `schema_version == 1`, where `True` is 1. A real number, which the store never writes, is not taken for 1.
abbrev pub is_one : Option Json → Bool
is_one (some (Json.integer n)) = nat_beq n 1
is_one (some (Json.boolean b)) = b
is_one _ = false

abbrev pub is_object : Option Json → Bool
is_object (some (Json.object _)) = true
is_object _ = false

-- What `_read` makes of the value that JSON decodes.
unfoldable pub read_document : Option Json → Result DiskError Fields
unfolding get
read_document none = err invalid_json
read_document (some (Json.object loaded)) =
    guard (is_one (get loaded (codes "schema_version")) && is_object (get loaded (codes "devices")))
      invalid_snapshot
    >> ok loaded
read_document (some _) = err not_an_object

abbrev pub fields_of : Option Json → Fields
fields_of (some (Json.object fs)) = fs
fields_of _ = Fields.end

-- The snapshot that the dict of a file stands for: its entries as contexts.
unfoldable pub snapshot_of : Formats → Fields → Result DiskError Snapshot
unfolding get devices_of
snapshot_of f loaded = devices_of f (fields_of (get loaded (codes "devices"))) >>= λ devices.
    ok (record { devices = devices; last_events = events_of (get loaded (codes "last_events")) })
