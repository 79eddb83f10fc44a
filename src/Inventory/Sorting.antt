-- ===== src/Inventory/Sorting.antt =====
-- Devices in the order of their identifiers, as a dict that was stored with sorted keys has them.
use orbit_flow_evo.Base.{ℕ, ◌≡◌, refl, ◌∙◌, none, some, [], ◌∷◌, arith, if◌then◌else◌}
use orbit_flow_evo.Base.Texts.{Text}
use orbit_flow_evo.Base.Equality.{list_eq, nat_eq, list_beq_iff, ◌==◌}
use orbit_flow_evo.Inventory.Defs.{DeviceContext, Devices, lookup}
use orbit_flow_evo.Inventory.Devices.{NodupKeys}
use orbit_flow_evo.Inventory.Documents.{text_ltb}

unfoldable pub insert_entry : Text → DeviceContext → Devices → Devices
unfolding text_ltb
insert_entry id d [] = (id, d) ∷ []
insert_entry id d ((j, e) ∷ devices) =
    if text_ltb id j then (id, d) ∷ (j, e) ∷ devices else (j, e) ∷ insert_entry id d devices

unfoldable pub sort_entries : Devices → Devices
unfolding insert_entry
sort_entries [] = []
sort_entries ((id, d) ∷ devices) = insert_entry id d (sort_entries devices)

pub lookup-insert_entry :
    (id j : Text) (d : DeviceContext) (devices : Devices)
    → lookup id devices ≡ none
    → lookup j (insert_entry id d devices) ≡ (if id == j then some d else lookup j devices)
unfolding lookup insert_entry
lookup-insert_entry id j d [] h = refl
lookup-insert_entry id j d ((k, e) ∷ devices) h = ground (
  arith,
  lookup-insert_entry id j d devices,
  list_beq_iff {A = ℕ} k id,
  list_beq_iff {A = ℕ} k j,
  list_beq_iff {A = ℕ} id j,
)

-- Sorting changes no lookup.
pub lookup-sort_entries :
    (devices : Devices) (j : Text)
    → NodupKeys devices
    → lookup j (sort_entries devices) ≡ lookup j devices
unfolding lookup sort_entries
lookup-sort_entries [] j u = refl
lookup-sort_entries ((k, e) ∷ devices) j u = ground (
  arith,
  u.0,
  lookup-sort_entries devices j,
  lookup-sort_entries devices k,
  lookup-insert_entry k j e (sort_entries devices),
)

NodupKeys-insert_entry :
    (id : Text) (d : DeviceContext) (devices : Devices)
    → NodupKeys devices
    → lookup id devices ≡ none
    → NodupKeys (insert_entry id d devices)
unfolding lookup insert_entry
NodupKeys-insert_entry id d [] u h = (refl, tt)
NodupKeys-insert_entry id d ((k, e) ∷ devices) u h = ground (
  arith,
  NodupKeys-insert_entry id d devices,
  lookup-insert_entry id k d devices,
  list_beq_iff {A = ℕ} k id,
  list_beq_iff {A = ℕ} id k,
)

pub NodupKeys-sort_entries :
    (devices : Devices) → NodupKeys devices → NodupKeys (sort_entries devices)
unfolding sort_entries
NodupKeys-sort_entries [] u = tt
NodupKeys-sort_entries ((k, e) ∷ devices) u =
    NodupKeys-insert_entry k e (sort_entries devices) (NodupKeys-sort_entries devices u.1)
      (lookup-sort_entries devices k u.1 ∙ u.0)
