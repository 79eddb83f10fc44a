-- ===== src/Vlans/Grouping.antt =====
-- src/orbitflow/vendors/vlan_types.py: the interfaces that the aggregation of services stands for.
use mathlib.Core.Path.{ap, ap₂, ◌∙◌}
use orbit_flow_evo.Base.{
  ◌≡◌, refl, List, [], ◌∷◌, ◌++◌, map, if◌then◌else◌, arith, Bool-cases, inl, inr,
}
use orbit_flow_evo.Base.Equality.{◌==◌, nat_eq, list_eq, contains, from_keys, from_keys_onto}
use orbit_flow_evo.Base.Texts.{Text}
use orbit_flow_evo.Vlans.Profiles.{
  InterfaceVlanObservation, Groups, add_to_group, group_onto, aggregate, profiles,
  aggregate_profiles,
}

module _ {Facts : Type 0} where
  abbrev keys : Groups Facts → List Text
  keys [] = []
  keys ((name, _) ∷ groups) = name ∷ keys groups

  abbrev pub interfaces : List (InterfaceVlanObservation Facts) → List Text
  interfaces = map (λ o. o.interface_name)

  keys-add_to_group :
      (groups : Groups Facts) (item : InterfaceVlanObservation Facts)
      → keys (add_to_group groups item) ≡ (
          if contains (keys groups) item.interface_name
          then keys groups
          else keys groups ++ item.interface_name ∷ [])
  unfolding add_to_group
  keys-add_to_group [] item = refl
  keys-add_to_group ((name, items) ∷ groups) item = ground (arith, keys-add_to_group groups item)

  keys-group_onto :
      (groups : Groups Facts) (items : List (InterfaceVlanObservation Facts))
      → keys (group_onto groups items) ≡ from_keys_onto (keys groups) (interfaces items)
  unfolding group_onto from_keys_onto
  keys-group_onto groups [] = refl
  keys-group_onto groups (item ∷ items) =
      keys-group_onto (add_to_group groups item) items
      ∙ ap (λ ks. from_keys_onto ks (interfaces items)) (keys-add_to_group groups item)

  -- Every group holds an item, and only items of its name.
  abbrev IsGrouped : Groups Facts → Type 0
  IsGrouped [] = Unit
  IsGrouped ((name, []) ∷ groups) = ⊥
  IsGrouped ((name, first ∷ _) ∷ groups) = (first.interface_name ≡ name) × IsGrouped groups

  IsGrouped-add_to_group :
      (groups : Groups Facts) (item : InterfaceVlanObservation Facts)
      → IsGrouped groups
      → IsGrouped (add_to_group groups item)
  unfolding add_to_group
  IsGrouped-add_to_group [] item g = (refl, tt)
  IsGrouped-add_to_group ((name, first ∷ others) ∷ groups) item g =
      elim (Bool-cases (name == item.interface_name)) [
        | inl same ↦ rw same g
        | inr other ↦ rw other (g.0, IsGrouped-add_to_group groups item g.1)
      ]
  IsGrouped-add_to_group ((name, []) ∷ groups) item g = elim g [ ]

  IsGrouped-group_onto :
      (groups : Groups Facts) (items : List (InterfaceVlanObservation Facts))
      → IsGrouped groups
      → IsGrouped (group_onto groups items)
  unfolding group_onto
  IsGrouped-group_onto groups [] g = g
  IsGrouped-group_onto groups (item ∷ items) g =
      IsGrouped-group_onto (add_to_group groups item) items (IsGrouped-add_to_group groups item g)

  interface-aggregate :
      (first : InterfaceVlanObservation Facts) (others : List (InterfaceVlanObservation Facts))
      → (aggregate first others).observation.interface_name ≡ first.interface_name
  unfolding aggregate
  interface-aggregate first [] = refl
  interface-aggregate first (second ∷ others) = refl

  names-profiles :
      (groups : Groups Facts)
      → IsGrouped groups
      → map (λ p. p.observation.interface_name) (profiles groups) ≡ keys groups
  unfolding profiles
  names-profiles [] g = refl
  names-profiles ((name, first ∷ others) ∷ groups) g =
      ap₂ ◌∷◌ (interface-aggregate first others ∙ g.0) (names-profiles groups g.1)
  names-profiles ((name, []) ∷ groups) g = elim g [ ]

  -- The profiles stand for the interfaces observed, each once, in the order of its first observation.
  pub aggregate_profiles-interfaces :
      (observations : List (InterfaceVlanObservation Facts))
      → map (λ p. p.observation.interface_name) (aggregate_profiles observations)
        ≡ from_keys (interfaces observations)
  unfolding aggregate_profiles from_keys
  aggregate_profiles-interfaces observations =
      names-profiles (group_onto [] observations) (IsGrouped-group_onto [] observations tt)
      ∙ keys-group_onto [] observations
