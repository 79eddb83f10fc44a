-- ===== src/Tests/Vlans.antt =====
-- Tests of the models of src/orbitflow/vendors/vlan_types.py and src/orbitflow/compliance/policy.py.
use orbit_flow_evo.Base.{ℕ, ◌≡◌, refl, none, List, [], ◌∷◌, map, any, ok, err}
use orbit_flow_evo.Base.Equality.{list_eq, nat_eq, list_beq, contains, from_keys}
use orbit_flow_evo.Base.Texts.{Text, codes, strip}
use orbit_flow_evo.Json.{Json, integer, text, array, object, nil, cons, field, end}
use orbit_flow_evo.Vlans.{parse_vlan_list, list_tokens, invalid_range}
use orbit_flow_evo.Vlans.Bounds.{
  Ascending, covers, contains-parse_vlan_list, parse_vlan_list-Ascending,
}
use orbit_flow_evo.Vlans.Profiles.{
  TaggedVlans, vlans, no_vlans, number, InterfaceVlanObservation, aggregate_profiles, forwarding,
}
use orbit_flow_evo.Policy.{VlanPolicy, parse_policy}
use orbit_flow_evo.Policy.Laws.{IsValid, parse_policy-IsValid}

abbrev written : Text
written = codes " 30, 10 - 12,11 20 to 22"

abbrev expanded : List ℕ
expanded = 10 ∷ 11 ∷ 12 ∷ 20 ∷ 21 ∷ 22 ∷ 30 ∷ []

parses : parse_vlan_list written (codes "to") ≡ ok expanded
unfolding parse_vlan_list
parses = refl

reversed_range : parse_vlan_list (codes "12-10") (codes "-") ≡ err (invalid_range (codes "12-10"))
unfolding parse_vlan_list
reversed_range = refl

contains-parse_vlan_list_example :
    contains expanded 21 ≡ any (λ t. covers t 21) (list_tokens (strip written) (codes "to"))
contains-parse_vlan_list_example = contains-parse_vlan_list written (codes "to") expanded 21 parses

abbrev service : Text → TaggedVlans → InterfaceVlanObservation ℕ
service name tagged = record {
  interface_name = name;
  facts = 0;
  port_type = codes "trunk";
  untagged_vlan = [];
  tagged_vlans = tagged;
  bridge_domains = [];
  service_mappings = [];
}

abbrev services : List (InterfaceVlanObservation ℕ)
services =
    service (codes "ge1") (vlans (10 ∷ 20 ∷ []))
    ∷ service (codes "ge2") no_vlans
    ∷ service (codes "ge1") (vlans (15 ∷ []))
    ∷ []

joined_tags :
    map (λ p. p.observation.tagged_vlans) (aggregate_profiles services)
    ≡ vlans (10 ∷ 15 ∷ 20 ∷ []) ∷ no_vlans ∷ []
unfolding aggregate_profiles list_beq from_keys
joined_tags = refl

abbrev untagged_one : InterfaceVlanObservation ℕ
untagged_one =
    forwarding (service (codes "ge1") no_vlans) (codes "hybrid") (number 1) (vlans (1 ∷ 10 ∷ []))
      (codes "1" ∷ []) none

kept_mapping : untagged_one.service_mappings ≡ codes "10 -> 10" ∷ []
unfolding forwarding list_beq
kept_mapping = refl

abbrev policy_json : Json
policy_json = object (
    field (codes "schema_version") (integer 2) (
      field (codes "policy_id") (text (codes "base")) (
        field (codes "database")
          (object (
            field (codes "rule_id") (text (codes "db-1"))
              (field (codes "required_domains") (array (cons (text (codes "20-22")) nil)) end)))
          (field (codes "interface")
            (object (
              field (codes "rule_id") (text (codes "if-1")) (
                field (codes "match_all") (array (cons (integer 30) nil)) (
                  field (codes "match_any")
                    (array (cons (text (codes "41-42")) (cons (integer 40) nil)))
                    (field (codes "required_vlans") (array (cons (integer 50) nil)) end)))))
            end))))

abbrev policy : VlanPolicy
policy = record {
  policy_id = codes "base";
  database_rule = codes "db-1";
  required_domains = codes "20" ∷ codes "21" ∷ codes "22" ∷ [];
  interface_rule = codes "if-1";
  match_all = 30 ∷ [];
  match_any = 40 ∷ 41 ∷ 42 ∷ [];
  required_vlans = 50 ∷ [];
}

policy_parses : parse_policy policy_json ≡ ok policy
unfolding parse_policy list_beq
policy_parses = refl

parse_policy-IsValid_example : IsValid policy
parse_policy-IsValid_example = parse_policy-IsValid policy_json policy policy_parses

parse_vlan_list-Ascending_example : Ascending 1 4095 expanded
parse_vlan_list-Ascending_example = parse_vlan_list-Ascending written (codes "to") expanded parses
