-- ===== src/Inventory/Identity.antt =====
-- What the reconciliation of an observed device promises: one identity to a serial number.
use mathlib.Core.Path.{subst}
use orbit_flow_evo.Base.{
  ℕ, ◌≡◌, refl, sym, ap, ◌∙◌, true, ◌||◌, Option, none, some, List, [], ◌∷◌, ◌++◌, keep, arith,
  if◌then◌else◌, inl, inr, ◌⊎◌,
}
use orbit_flow_evo.Base.Equality.{
  list_eq, nat_eq, list_beq_iff, ◌==◌, contains, contains-append, eq_self, Distinct,
}
use orbit_flow_evo.Base.Keys.{contains-from_keys, Distinct-from_keys}
use orbit_flow_evo.Base.Texts.{Text}
use orbit_flow_evo.Inventory.Defs.{
  DeviceContext, Devices, Snapshot, items, lookup, assign, serial_key, has_serial_key, observed_at,
  joined_ips, serial_discovery_match, decide_unmatched, decide_matches, decide, reconcile,
}
use orbit_flow_evo.Inventory.Devices.{
  NodupKeys, lookup-assign, NodupKeys-assign, first_kept, none_kept,
}

-- A stored inventory: no identifier twice, each device under its own identifier, and no serial key
-- under two identifiers.
pub record IsConsistent (devices : Devices) : Type 0 where
  pub nodup : NodupKeys devices
  pub named : (id : Text) (d : DeviceContext) → lookup id devices ≡ some d → d.device_id ≡ id
  pub unique :
      (key : Text) (i j : Text) (d e : DeviceContext)
      → lookup i devices ≡ some d
      → lookup j devices ≡ some e
      → has_serial_key key d ≡ true
      → has_serial_key key e ≡ true
      → i ≡ j

key_of :
    (key : Text) (d : DeviceContext)
    → has_serial_key key d ≡ true
    → serial_key d.vendor d.serial_number ≡ key
key_of key d h = (list_beq_iff {A = ℕ} (serial_key d.vendor d.serial_number) key).0 (ground arith)

module _ (fresh : Text) (observed : DeviceContext) (devices : Devices)
    (c : IsConsistent devices) where
  -- Where a stored device has the serial key of the observed one, its identifier is chosen.
  decide-known :
      (id : Text) (d : DeviceContext)
      → lookup id devices ≡ some d
      → has_serial_key (serial_key observed.vendor observed.serial_number) d ≡ true
      → (decide fresh observed devices).device_id ≡ id
  unfolding decide decide_matches
  decide-known id d f h = known (keep (has_serial_key K) (items devices)) refl
    where
      K : Text
      K = serial_key observed.vendor observed.serial_number

      known :
          (ms : List DeviceContext)
          → keep (has_serial_key K) (items devices) ≡ ms
          → (decide_matches ms fresh observed devices
              (keep (observed_at observed.management_ip) (items devices))).device_id
            ≡ id
      known [] e = cc (none_kept (has_serial_key K) devices id d e f, h)
      known (p ∷ rest) e =
          let (i, found, passes) = first_kept (has_serial_key K) devices p rest c.nodup e in
          c.named i p found ∙ c.unique K i id p d found f passes h

  -- … and its addresses are those of that device, then the observed one.
  decide-known_ips :
      (id : Text) (d : DeviceContext)
      → lookup id devices ≡ some d
      → has_serial_key (serial_key observed.vendor observed.serial_number) d ≡ true
      → (decide fresh observed devices).ips ≡ joined_ips d observed
  unfolding decide decide_matches
  decide-known_ips id d f h = known (keep (has_serial_key K) (items devices)) refl
    where
      K : Text
      K = serial_key observed.vendor observed.serial_number

      same_ips : (p : DeviceContext) → p ≡ d → joined_ips p observed ≡ joined_ips d observed
      same_ips p e = ap (λ (y : DeviceContext). joined_ips y observed) e

      known :
          (ms : List DeviceContext)
          → keep (has_serial_key K) (items devices) ≡ ms
          → (decide_matches ms fresh observed devices
              (keep (observed_at observed.management_ip) (items devices))).ips
            ≡ joined_ips d observed
      known [] e = cc (none_kept (has_serial_key K) devices id d e f, h)
      known (p ∷ rest) e =
          let (i, found, passes) = first_kept (has_serial_key K) devices p rest c.nodup e in
          same_ips p (cc (found, f, c.unique K i id p d found f passes h))

abbrev context_of : Text → DeviceContext → Devices → DeviceContext
context_of fresh observed devices =
    let d = decide fresh observed devices in
    record observed { device_id = d.device_id; observed_management_ips = d.ips }

module _ (fresh : Text) (observed : DeviceContext) (devices : Devices) where
  lookup-assigned :
      (j : Text) (e : DeviceContext)
      → lookup j (
          assign
            (decide fresh observed devices).device_id
            (context_of fresh observed devices)
            devices)
        ≡ some e
      → ((j ≡ (decide fresh observed devices).device_id) × (e ≡ context_of fresh observed devices))
        ⊎ (lookup j devices ≡ some e)
  lookup-assigned j e h =
      assigned (decide fresh observed devices).device_id (context_of fresh observed devices) h
    where
      assigned :
          (id : Text) (x : DeviceContext)
          → lookup j (assign id x devices) ≡ some e
          → ((j ≡ id) × (e ≡ x)) ⊎ (lookup j devices ≡ some e)
      assigned id x h = ground (arith, lookup-assign id j x devices, list_beq_iff {A = ℕ} id j)

  assigned-IsConsistent :
      IsConsistent devices
      → IsConsistent (
          assign
            (decide fresh observed devices).device_id
            (context_of fresh observed devices)
            devices)
  assigned-IsConsistent c = record {
    nodup = NodupKeys-assign _ _ devices c.nodup;
    named = λ id d f. named id d (lookup-assigned id d f);
    unique = λ key i j d e f g h k.
        unique key i j d e h k (lookup-assigned i d f) (lookup-assigned j e g);
  }
    where
      chosen : Text
      chosen = (decide fresh observed devices).device_id

      x : DeviceContext
      x = context_of fresh observed devices

      named :
          (id : Text) (d : DeviceContext)
          → ((id ≡ chosen) × (d ≡ x)) ⊎ (lookup id devices ≡ some d)
          → d.device_id ≡ id
      named id d (inl (p, q)) = ap (λ (y : DeviceContext). y.device_id) q ∙ sym p
      named id d (inr f) = c.named id d f

      other :
          (key : Text) (j : Text) (d e : DeviceContext)
          → d ≡ x
          → has_serial_key key d ≡ true
          → has_serial_key key e ≡ true
          → lookup j devices ≡ some e
          → chosen ≡ j
      other key j d e q h k g = decide-known fresh observed devices c j e g (
          subst (λ t. has_serial_key t e ≡ true)
            (sym (key_of key d h)
              ∙ ap (λ (y : DeviceContext). serial_key y.vendor y.serial_number) q)
            k)

      unique :
          (key : Text) (i j : Text) (d e : DeviceContext)
          → has_serial_key key d ≡ true
          → has_serial_key key e ≡ true
          → ((i ≡ chosen) × (d ≡ x)) ⊎ (lookup i devices ≡ some d)
          → ((j ≡ chosen) × (e ≡ x)) ⊎ (lookup j devices ≡ some e)
          → i ≡ j
      unique key i j d e h k (inl (p, q)) (inl (p', q')) = p ∙ sym p'
      unique key i j d e h k (inl (p, q)) (inr g) = p ∙ other key j d e q h k g
      unique key i j d e h k (inr f) (inl (p', q')) = sym (p' ∙ other key i e d q' k h f)
      unique key i j d e h k (inr f) (inr g) = c.unique key i j d e f g h k

-- Reconciling keeps the inventory consistent: identifiers stay distinct, each device stays under its
-- own identifier, and no serial number comes to stand under two of them.
pub reconcile-IsConsistent :
    (fresh : Text) (observed : DeviceContext) (s : Snapshot)
    → IsConsistent s.devices
    → IsConsistent (reconcile fresh observed s).1.devices
unfolding reconcile
reconcile-IsConsistent fresh observed s c = assigned-IsConsistent fresh observed s.devices c

-- A device whose serial key is stored keeps the identifier that it is stored under, wherever it was
-- observed; its addresses are the stored ones and the observed one.
pub reconcile-known :
    (fresh : Text) (observed : DeviceContext) (s : Snapshot) (id : Text) (d : DeviceContext)
    → IsConsistent s.devices
    → lookup id s.devices ≡ some d
    → has_serial_key (serial_key observed.vendor observed.serial_number) d ≡ true
    → ((reconcile fresh observed s).0.device_id ≡ id)
      × ((ip : Text)
          → contains (reconcile fresh observed s).0.observed_management_ips ip
            ≡ (contains d.observed_management_ips ip || observed.management_ip == ip))
unfolding reconcile
reconcile-known fresh observed s id d c f h = (
  decide-known fresh observed s.devices c id d f h,
  λ ip. rw (decide-known_ips fresh observed s.devices c id d f h) (
      ground (
        arith,
        contains-from_keys (d.observed_management_ips ++ observed.management_ip ∷ []) ip,
        contains-append d.observed_management_ips (observed.management_ip ∷ []) ip,
      )),
)

-- After reconciling, the returned context stands under its identifier, every other identifier finds
-- what it found before, and the context's other facts are the observed ones.
pub reconcile-lookup :
    (fresh : Text) (observed : DeviceContext) (s : Snapshot) (j : Text)
    → (lookup j (reconcile fresh observed s).1.devices ≡ (
        if (reconcile fresh observed s).0.device_id == j
        then some (reconcile fresh observed s).0
        else lookup j s.devices))
      × ((reconcile fresh observed s).0 ≡ record observed {
        device_id = (reconcile fresh observed s).0.device_id;
        observed_management_ips = (reconcile fresh observed s).0.observed_management_ips;
      })
unfolding reconcile
reconcile-lookup fresh observed s j = (lookup-assign _ j _ s.devices, refl)

abbrev Lists : Text → List Text → Type 0
Lists ip ips = (contains ips ip ≡ true) × Distinct ips

joined_ips-Lists :
    (previous observed : DeviceContext)
    → Lists observed.management_ip (joined_ips previous observed)
joined_ips-Lists previous observed = (
  ground (
    arith,
    contains-from_keys all_ips observed.management_ip,
    contains-append previous.observed_management_ips (observed.management_ip ∷ [])
        observed.management_ip,
    eq_self observed.management_ip,
  ),
  Distinct-from_keys all_ips,
)
  where
    all_ips : List Text
    all_ips = previous.observed_management_ips ++ observed.management_ip ∷ []

module _ (fresh : Text) (observed : DeviceContext) (devices : Devices)
    (prior : List DeviceContext) where
  decide_unmatched-Lists :
      (o : Option DeviceContext)
      → Lists observed.management_ip (decide_unmatched o fresh observed devices prior).ips
  unfolding decide_unmatched
  decide_unmatched-Lists (some previous) = joined_ips-Lists previous observed
  decide_unmatched-Lists none = (ground (arith, eq_self observed.management_ip), (refl, tt))

  decide_matches-Lists :
      (ms : List DeviceContext)
      → Lists observed.management_ip (decide_matches ms fresh observed devices prior).ips
  unfolding decide_matches
  decide_matches-Lists (previous ∷ _) = joined_ips-Lists previous observed
  decide_matches-Lists [] = decide_unmatched-Lists (serial_discovery_match observed prior)

-- The reconciled context lists the observed address, and lists no address twice.
pub reconcile-Distinct :
    (fresh : Text) (observed : DeviceContext) (s : Snapshot)
    → (contains (reconcile fresh observed s).0.observed_management_ips observed.management_ip
        ≡ true)
      × Distinct (reconcile fresh observed s).0.observed_management_ips
unfolding reconcile decide
reconcile-Distinct fresh observed s =
    decide_matches-Lists fresh observed s.devices _
      (keep (has_serial_key (serial_key observed.vendor observed.serial_number)) (items s.devices))
