-- ===== src/Vlans/Profiles.antt =====
-- src/orbitflow/vendors/vlan_types.py and src/orbitflow/models.py: the normalized forwarding fields of an
-- interface, and the profile of an interface that several services share. The facts that no function here
-- reads or replaces are kept together as one value.
use orbit_flow_evo.Base.{
  ℕ, zero, suc, Bool, true, false, not, Option, none, some, List, [], ◌∷◌, ◌++◌, map, any, keep,
  if◌then◌else◌, nat_beq,
}
use orbit_flow_evo.Base.Equality.{◌==◌, nat_eq, list_eq, contains, from_keys, list_beq}
use orbit_flow_evo.Base.Texts.{Text, codes, is_nil, starts_with}
use orbit_flow_evo.Base.Decimals.{str}
use orbit_flow_evo.Vlans.{insert}

-- `tuple[int, ...]`, `"ALL"` or `"NONE"`.
pub data TaggedVlans : Type 0 where
  vlans : List ℕ → TaggedVlans
  all_vlans no_vlans : TaggedVlans

-- `str | int`
pub data UntaggedVlan : Type 0 where
  number : ℕ → UntaggedVlan
  word : Text → UntaggedVlan

pub record InterfaceVlanObservation (Facts : Type 0) : Type 0 where
  pub interface_name : Text
  pub facts : Facts
  pub port_type : Text
  pub untagged_vlan : Text
  pub tagged_vlans : TaggedVlans
  pub bridge_domains : List Text
  pub service_mappings : List Text

-- An aggregated observation, with the services it stands for.
pub record Profile (Facts : Type 0) : Type 0 where
  pub observation : InterfaceVlanObservation Facts
  pub service_details : List (InterfaceVlanObservation Facts)

-- `" -> "`
abbrev pub arrow : Text
arrow = codes " -> "

-- `m.split(" -> ")`: the piece read so far, reversed, and how much of a separator is still to be skipped.
unfoldable pub split_from : Text → ℕ → Text → List Text
unfolding starts_with
split_from piece skip [] = piece ∷ []
split_from piece (suc skip) (c ∷ s) = split_from piece skip s
split_from piece zero (c ∷ s) =
    let next_piece = split_from [] 3 s in
    let same_piece = split_from (piece ++ c ∷ []) zero s in
    if starts_with (c ∷ s) arrow then piece ∷ next_piece else same_piece

unfoldable pub split_arrow : Text → List Text
unfolding split_from
split_arrow m = split_from [] zero m

abbrev pub one : Text
one = codes "1"

-- Python's truth of the value, and `str`.
unfoldable pub is_given : UntaggedVlan → Bool
is_given (number v) = not (nat_beq v 0)
is_given (word s) = not (is_nil s)

unfoldable pub shown : UntaggedVlan → Text
unfolding str
shown (number v) = str v
shown (word s) = s

unfoldable pub default_mappings : UntaggedVlan → TaggedVlans → List Text
unfolding is_given shown str
default_mappings untagged tagged =
    (if is_given untagged then (codes "untagged -> " ++ shown untagged) ∷ [] else [])
    ++ elim tagged [
      | vlans vs ↦ map (λ v. str v ++ arrow ++ str v) vs
      | all_vlans ↦ codes "ALL -> ALL" ∷ []
      | no_vlans ↦ []
    ]

unfoldable pub without_one : TaggedVlans → TaggedVlans
without_one (vlans vs) = vlans (keep (λ v. not (v == 1)) vs)
without_one all_vlans = all_vlans
without_one no_vlans = no_vlans

unfoldable pub forwarding :
    {Facts : Type 0}
    → InterfaceVlanObservation Facts
    → Text
    → UntaggedVlan
    → TaggedVlans
    → List Text
    → Option (List Text)
    → InterfaceVlanObservation Facts
unfolding from_keys default_mappings shown without_one split_arrow list_beq
forwarding observation port_type untagged tagged domains mappings = record observation {
  port_type = port_type;
  untagged_vlan = if shown untagged == one then [] else shown untagged;
  tagged_vlans = without_one tagged;
  bridge_domains = keep (λ d. not (d == one)) (from_keys domains);
  service_mappings =
      keep (λ m. not (contains (split_arrow m) one))
        (elim mappings [ none ↦ default_mappings untagged tagged | some ms ↦ ms ]);
}

-- `", ".join(texts)`
unfoldable pub join_commas : List Text → Text
join_commas [] = []
join_commas (t ∷ []) = t
join_commas (t ∷ u ∷ ts) = t ++ codes ", " ++ join_commas (u ∷ ts)

unfoldable pub flatten : List (List Text) → List Text
flatten [] = []
flatten (ts ∷ tss) = ts ++ flatten tss

-- The set of the explicit outer VLANs, as its sorted list.
unfoldable pub add_tags : List ℕ → List ℕ → List ℕ
unfolding insert
add_tags [] tags = tags
add_tags (v ∷ vs) tags = insert v (add_tags vs tags)

abbrev pub Groups : Type 0 → Type 0
Groups Facts = List (Text × List (InterfaceVlanObservation Facts))

module _ {Facts : Type 0} where
  -- `groups.setdefault(item.interface_name, []).append(item)`
  unfoldable pub add_to_group : Groups Facts → InterfaceVlanObservation Facts → Groups Facts
  unfolding list_beq
  add_to_group [] item = (item.interface_name, item ∷ []) ∷ []
  add_to_group ((name, items) ∷ groups) item =
      let rest = add_to_group groups item in
      if name == item.interface_name
      then (name, items ++ item ∷ []) ∷ groups
      else (name, items) ∷ rest

  unfoldable pub group_onto : Groups Facts → List (InterfaceVlanObservation Facts) → Groups Facts
  unfolding add_to_group
  group_onto groups [] = groups
  group_onto groups (item ∷ items) = group_onto (add_to_group groups item) items

  unfoldable pub explicit_tags : List (InterfaceVlanObservation Facts) → List ℕ
  unfolding add_tags
  explicit_tags [] = []
  explicit_tags (item ∷ items) = elim item.tagged_vlans [
    | vlans vs ↦ add_tags vs (explicit_tags items)
    | all_vlans ↦ explicit_tags items
    | no_vlans ↦ explicit_tags items
  ]

  abbrev pub is_all : InterfaceVlanObservation Facts → Bool
  is_all item = elim item.tagged_vlans [ all_vlans ↦ true | _ ↦ false ]

  abbrev pub is_none : InterfaceVlanObservation Facts → Bool
  is_none item = elim item.tagged_vlans [ no_vlans ↦ true | _ ↦ false ]

  unfoldable pub aggregated_tags : List (InterfaceVlanObservation Facts) → TaggedVlans
  unfolding explicit_tags
  aggregated_tags items =
      let tags = explicit_tags items in
      if any is_all items
      then all_vlans
      else if not (is_nil tags)
      then vlans tags
      else if any is_none items
      then no_vlans
      else vlans []

  unfoldable pub aggregate :
      InterfaceVlanObservation Facts → List (InterfaceVlanObservation Facts) → Profile Facts
  unfolding aggregated_tags join_commas flatten from_keys list_beq
  aggregate first [] = record { observation = first; service_details = [] }
  aggregate first (second ∷ others) =
      let items = first ∷ second ∷ others in
      record {
        observation = record first {
          port_type =
              if any (λ i. i.port_type == codes "evc") items then codes "evc" else first.port_type;
          untagged_vlan =
              join_commas
                (from_keys (keep (λ u. not (is_nil u)) (map (λ i. i.untagged_vlan) items)));
          tagged_vlans = aggregated_tags items;
          bridge_domains = from_keys (flatten (map (λ i. i.bridge_domains) items));
          service_mappings = from_keys (flatten (map (λ i. i.service_mappings) items));
        };
        service_details = items;
      }

  -- Every group has an item.
  unfoldable pub profiles : Groups Facts → List (Profile Facts)
  unfolding aggregate
  profiles [] = []
  profiles ((name, []) ∷ groups) = profiles groups
  profiles ((name, first ∷ others) ∷ groups) = aggregate first others ∷ profiles groups

  unfoldable pub aggregate_profiles : List (InterfaceVlanObservation Facts) → List (Profile Facts)
  unfolding group_onto profiles
  aggregate_profiles observations = profiles (group_onto [] observations)

-- src/orbitflow/models.py: a configured VLAN or service object.
pub record VlanObject : Type 0 where
  pub object_type : Text
  pub object_id : Text
  pub name : Text
  pub vlan_ids : List ℕ
  pub domain_id : Text

unfoldable pub visible_objects : List VlanObject → List VlanObject
unfolding list_beq
visible_objects objects = keep (λ o. not (o.domain_id == one)) objects
