-- ===== src/Inventory/Failure.antt =====
-- What a failed collection changes in the inventory.
use orbit_flow_evo.Base.{
  ℕ, ◌≡◌, refl, sym, ◌∙◌, Option-cases, inl, inr, Option, none, some, [], ◌∷◌, arith, if◌then◌else◌,
}
use orbit_flow_evo.Base.Texts.{Text, codes}
use orbit_flow_evo.Base.Equality.{list_eq, nat_eq}
use orbit_flow_evo.Inventory.Defs.{
  DeviceContext, Devices, Snapshot, lookup, observed_at, mark_failed, mark_all, record_failure,
}
use orbit_flow_evo.Inventory.Devices.{NodupKeys}
use orbit_flow_evo.Inventory.Identity.{IsConsistent}

abbrev pub mapped : (DeviceContext → DeviceContext) → Option DeviceContext → Option DeviceContext
mapped f none = none
mapped f (some d) = some (f d)

module _ (ip : Text) (attempted_at : ℕ) (error : Text) where
  pub lookup-mark_all :
      (id : Text) (devices : Devices)
      → lookup id (mark_all ip attempted_at error devices)
        ≡ mapped (mark_failed ip attempted_at error) (lookup id devices)
  unfolding lookup mark_all
  lookup-mark_all id [] = refl
  lookup-mark_all id ((j, d) ∷ devices) = ground (arith, lookup-mark_all id devices)

  -- After a recorded failure the same identifiers are found, a device that was seen at the address
  -- with the failure as its last outcome and all its other facts, and any other device unchanged.
  pub record_failure-lookup :
      (s : Snapshot) (id : Text)
      → lookup id (record_failure ip attempted_at error s).devices
        ≡ mapped
            (λ d.
              if observed_at ip d
              then record d {
                last_collection_attempt = attempted_at;
                collection_status = codes "failed";
                collection_error = error;
              }
              else d)
            (lookup id s.devices)
  unfolding record_failure mark_failed
  record_failure-lookup s id = lookup-mark_all id s.devices

  NodupKeys-mark_all :
      (devices : Devices) → NodupKeys devices → NodupKeys (mark_all ip attempted_at error devices)
  unfolding mark_all
  NodupKeys-mark_all [] u = tt
  NodupKeys-mark_all ((j, d) ∷ devices) u =
      (ground (arith, u.0, lookup-mark_all j devices), NodupKeys-mark_all devices u.1)

  -- What a device was before it was marked: it has the same identifier and serial key.
  origin :
      (id : Text) (devices : Devices) (e : DeviceContext)
      → lookup id (mark_all ip attempted_at error devices) ≡ some e
      → (d : DeviceContext) × (lookup id devices ≡ some d)
        × (d.device_id ≡ e.device_id)
        × (d.vendor ≡ e.vendor)
        × (d.serial_number ≡ e.serial_number)
  unfolding mark_failed
  origin id devices e h = elim (Option-cases (lookup id devices)) [
    | inl missing ↦ absurd (impossible missing)
    | inr (d, found) ↦ (
      d,
      found,
      ground (arith, found, lookup-mark_all id devices),
      ground (arith, found, lookup-mark_all id devices),
      ground (arith, found, lookup-mark_all id devices),
    )
  ]
    where
      impossible : lookup id devices ≡ none → ⊥
      impossible m = ground (arith, m, lookup-mark_all id devices)

  -- A recorded failure keeps the inventory consistent.
  pub record_failure-IsConsistent :
      (s : Snapshot)
      → IsConsistent s.devices
      → IsConsistent (record_failure ip attempted_at error s).devices
  unfolding record_failure
  record_failure-IsConsistent s c = record {
    nodup = NodupKeys-mark_all s.devices c.nodup;
    named = λ id e f.
        let (d, found, ids, _, _) = origin id s.devices e f in sym ids ∙ c.named id d found;
    unique = λ key i j e e' f f' h h'.
        let (d, found, _, v, n) = origin i s.devices e f in
        let (d', found', _, v', n') = origin j s.devices e' f' in
        c.unique key i j d d' found found' (ground (arith, v, n)) (ground (arith, v', n'));
  }
