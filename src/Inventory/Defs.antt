-- ===== src/Inventory/Defs.antt =====
-- src/orbitflow/inventory/store.py: the snapshot of the latest known devices, and the reconciliation
-- of an observed device with it. An instant is a number.
use orbit_flow_evo.Base.{
  ℕ, Bool, not, ◌&&◌, Option, none, some, List, [], ◌∷◌, ◌++◌, any, keep, if◌then◌else◌,
}
use orbit_flow_evo.Base.Equality.{list_eq, nat_eq, ◌==◌, contains, from_keys}
use orbit_flow_evo.Base.Texts.{Text, strip, casefold, is_nil, codes}

-- `DeviceContext` of models.py.
pub record DeviceContext : Type 0 where
  pub device_id : Text
  pub management_ip : Text
  pub observed_management_ips : List Text
  pub hostname : Text
  pub vendor : Text
  pub platform : Text
  pub device_family : Text
  pub hardware_model : Text
  pub capability_profile : Text
  pub capability_flags : List Text
  pub serial_number : Text
  pub software_version : Text
  pub uptime : Text
  pub last_successful_collection : ℕ
  pub last_collection_attempt : ℕ
  pub collection_status : Text
  pub collection_error : Text

pub data Event : Type 0 where
  management_ip_changed serial_number_discovered : Event
  likely_replacement_or_ip_reassignment hostname_collision : Event
  collection_failed unresolved_collection_failed : Event

-- A dict of devices by their identifiers, in its order.
abbrev pub Devices : Type 0
Devices = List (Text × DeviceContext)

pub record Snapshot : Type 0 where
  pub devices : Devices
  pub last_events : List Event

abbrev pub items : Devices → List DeviceContext
items [] = []
items ((id, d) ∷ devices) = d ∷ items devices

unfoldable pub lookup : Text → Devices → Option DeviceContext
lookup id [] = none
lookup id ((j, d) ∷ devices) = if j == id then some d else lookup id devices

-- `devices[id] = context`
unfoldable pub assign : Text → DeviceContext → Devices → Devices
assign id context [] = (id, context) ∷ []
assign id context ((j, d) ∷ devices) =
    if j == id then (id, context) ∷ devices else (j, d) ∷ assign id context devices

unfoldable pub serial_key : Text → Text → Text
unfolding strip casefold
serial_key vendor serial =
    if is_nil (strip serial)
    then []
    else casefold (strip vendor) ++ (b':' ∷ casefold (strip serial))

-- Whether a stored device has the serial key `key`, which is not empty.
abbrev pub has_serial_key : Text → DeviceContext → Bool
has_serial_key key d = not (is_nil key) && serial_key d.vendor d.serial_number == key

abbrev pub observed_at : Text → DeviceContext → Bool
observed_at ip d = contains d.observed_management_ips ip

-- What `reconcile` decides: the identifier, its addresses, and the events.
pub record Decision : Type 0 where
  pub device_id : Text
  pub ips : List Text
  pub events : List Event

-- A new identity, under the identifier that the factory gave.
unfoldable pub new_identity : Text → DeviceContext → Devices → List DeviceContext → Decision
new_identity fresh observed devices prior_at_ip = record {
  device_id = fresh;
  ips = observed.management_ip ∷ [];
  events =
      (if not (is_nil observed.serial_number)
          && any
              (λ d. not (is_nil d.serial_number) && not (d.serial_number == observed.serial_number))
              prior_at_ip
        then likely_replacement_or_ip_reassignment ∷ []
        else [])
      ++ (if not (is_nil observed.serial_number)
            && any
                (λ d.
                  d.hostname == observed.hostname
                  && not (d.serial_number == observed.serial_number))
                (items devices)
          then hostname_collision ∷ []
          else []);
}

-- `serial_discovery_match`: the one device seen at this address, if it has no serial number.
unfoldable pub serial_discovery_match : DeviceContext → List DeviceContext → Option DeviceContext
unfolding strip
serial_discovery_match observed (d ∷ []) =
    if not (is_nil observed.serial_number) && is_nil (strip d.serial_number) then some d else none
serial_discovery_match observed _ = none

abbrev pub joined_ips : DeviceContext → DeviceContext → List Text
joined_ips previous observed =
    from_keys (previous.observed_management_ips ++ observed.management_ip ∷ [])

-- The choice where no stored device has the observed serial key.
unfoldable pub decide_unmatched :
    Option DeviceContext → Text → DeviceContext → Devices → List DeviceContext → Decision
unfolding new_identity
decide_unmatched (some previous) fresh observed devices prior_at_ip = record {
  device_id = previous.device_id;
  ips = joined_ips previous observed;
  events = serial_number_discovered ∷ [];
}
decide_unmatched none fresh observed devices prior_at_ip =
    new_identity fresh observed devices prior_at_ip

unfoldable pub decide_matches :
    List DeviceContext → Text → DeviceContext → Devices → List DeviceContext → Decision
unfolding decide_unmatched serial_discovery_match
decide_matches (previous ∷ _) fresh observed devices prior_at_ip = record {
  device_id = previous.device_id;
  ips = joined_ips previous observed;
  events = if observed_at observed.management_ip previous then [] else management_ip_changed ∷ [];
}
decide_matches [] fresh observed devices prior_at_ip =
    decide_unmatched (serial_discovery_match observed prior_at_ip) fresh observed devices
      prior_at_ip

unfoldable pub decide : Text → DeviceContext → Devices → Decision
unfolding decide_matches serial_key
decide fresh observed devices =
    decide_matches
      (keep (has_serial_key (serial_key observed.vendor observed.serial_number)) (items devices))
      fresh observed devices (keep (observed_at observed.management_ip) (items devices))

-- `reconcile`, without the reading and the writing of the file.
unfoldable pub reconcile : Text → DeviceContext → Snapshot → DeviceContext × Snapshot
unfolding decide assign
reconcile fresh observed s =
    let d = decide fresh observed s.devices in
    let context = record observed { device_id = d.device_id; observed_management_ips = d.ips } in
    (context, record { devices = assign d.device_id context s.devices; last_events = d.events })

-- The update of one device by `record_failure`.
unfoldable pub mark_failed : Text → ℕ → Text → DeviceContext → DeviceContext
mark_failed ip attempted_at error d =
    if observed_at ip d
    then record d {
      last_collection_attempt = attempted_at;
      collection_status = codes "failed";
      collection_error = error;
    }
    else d

unfoldable pub mark_all : Text → ℕ → Text → Devices → Devices
unfolding mark_failed
mark_all ip attempted_at error [] = []
mark_all ip attempted_at error ((id, d) ∷ devices) =
    (id, mark_failed ip attempted_at error d) ∷ mark_all ip attempted_at error devices

-- `record_failure`, without the reading and the writing of the file.
unfoldable pub record_failure : Text → ℕ → Text → Snapshot → Snapshot
unfolding mark_all
record_failure ip attempted_at error s = record {
  devices = mark_all ip attempted_at error s.devices;
  last_events =
      (if any (observed_at ip) (items s.devices)
        then collection_failed
        else unresolved_collection_failed)
      ∷ [];
}
