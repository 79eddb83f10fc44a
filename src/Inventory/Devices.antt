-- ===== src/Inventory/Devices.antt =====
-- The dict of devices: what `lookup` finds after an assignment, and what a filter of the items says
-- of the entries.
use orbit_flow_evo.Base.{
  ℕ, ◌≡◌, refl, Bool, true, false, none, some, List, [], ◌∷◌, keep, arith, if◌then◌else◌,
  Bool-cases, inl, inr,
}
use orbit_flow_evo.Base.Texts.{Text}
use orbit_flow_evo.Base.Equality.{list_eq, nat_eq, list_beq_iff, ◌==◌, eq_self}
use orbit_flow_evo.Inventory.Defs.{DeviceContext, Devices, items, lookup, assign}

-- No identifier stands twice.
abbrev pub NodupKeys : Devices → Type 0
NodupKeys [] = Unit
NodupKeys ((id, _) ∷ devices) = (lookup id devices ≡ none) × NodupKeys devices

pub lookup-assign :
    (i j : Text) (c : DeviceContext) (devices : Devices)
    → lookup j (assign i c devices) ≡ (if i == j then some c else lookup j devices)
unfolding lookup assign
lookup-assign i j c [] = refl
lookup-assign i j c ((k, d) ∷ devices) = ground (
  arith,
  lookup-assign i j c devices,
  list_beq_iff {A = ℕ} i j,
  list_beq_iff {A = ℕ} k i,
  list_beq_iff {A = ℕ} k j,
)

pub NodupKeys-assign :
    (i : Text) (c : DeviceContext) (devices : Devices)
    → NodupKeys devices
    → NodupKeys (assign i c devices)
unfolding lookup assign
NodupKeys-assign i c [] u = (refl, tt)
NodupKeys-assign i c ((k, d) ∷ devices) u = ground (
  arith,
  NodupKeys-assign i c devices,
  lookup-assign i k c devices,
  list_beq_iff {A = ℕ} k i,
  list_beq_iff {A = ℕ} i k,
)

module _ (p : DeviceContext → Bool) where
  -- The first device that a filter keeps is an entry that passes it.
  pub first_kept :
      (devices : Devices) (d : DeviceContext) (rest : List DeviceContext)
      → NodupKeys devices
      → keep p (items devices) ≡ d ∷ rest
      → (id : Text) × (lookup id devices ≡ some d) × (p d ≡ true)
  unfolding lookup
  first_kept [] d rest u h = cc
  first_kept ((k, e) ∷ devices) d rest u h = elim (Bool-cases (p e)) [
    | inl kept ↦ (k, ground (arith, kept, eq_self k), ground (arith, kept))
    | inr dropped ↦
        let (id, found, passes) = first_kept devices d rest u.1 (ground (arith, dropped)) in
        (id, ground (arith, u.0, found, list_beq_iff {A = ℕ} k id), passes)
  ]

  -- If a filter keeps nothing, no entry passes it.
  pub none_kept :
      (devices : Devices) (id : Text) (d : DeviceContext)
      → keep p (items devices) ≡ []
      → lookup id devices ≡ some d
      → p d ≡ false
  unfolding lookup
  none_kept [] id d h f = cc
  none_kept ((k, e) ∷ devices) id d h f = ground (arith, none_kept devices id d)
