-- ===== src/Tests/Compliance.antt =====
-- Tests of the model of src/orbitflow/compliance/vlan.py, and its theorem at a concrete input.
use orbit_flow_evo.Base.{◌≡◌, refl, true, false, [], ◌∷◌}
use orbit_flow_evo.Base.Equality.{list_eq, nat_eq, list_beq}
use orbit_flow_evo.Base.Texts.{codes, decimal}
use orbit_flow_evo.Policy.{VlanPolicy}
use orbit_flow_evo.Compliance.{
  Status, Row, trigger, trigger_applicable, missing_from, sort_set, add_sorted, interface_verdict,
  database_verdict,
}
use orbit_flow_evo.Compliance.Laws.{Judges, IsEvaluated, interface_verdict-Judges}

abbrev policy : VlanPolicy
policy = record {
  policy_id = codes "p";
  database_rule = codes "d";
  required_domains = codes "30" ∷ codes "20" ∷ [];
  interface_rule = codes "i";
  match_all = 10 ∷ [];
  match_any = 11 ∷ 12 ∷ [];
  required_vlans = 20 ∷ 30 ∷ 20 ∷ [];
}

abbrev trunk : Row
trunk = record {
  valid_interface_vlans = 10 ∷ 12 ∷ 30 ∷ [];
  interface_type = codes "trunk";
  audit_valid_tagged_subset = false;
  aggregation_child = false;
  review = false;
  no_vlan_service_configuration = false;
  configuration_owner = [];
}

trunk_missing : (interface_verdict policy trunk).missing ≡ 20 ∷ []
unfolding interface_verdict trigger_applicable trigger missing_from sort_set add_sorted list_beq
trunk_missing = refl

database_missing : (database_verdict policy (1 ∷ 2 ∷ [])).missing ≡ 20 ∷ 30 ∷ []
unfolding database_verdict missing_from sort_set add_sorted decimal
database_missing = refl

member_skipped :
    (interface_verdict policy (record trunk { aggregation_child = true })).status
    ≡ Status.not_applicable
unfolding interface_verdict
member_skipped = refl

trunk-IsEvaluated : IsEvaluated policy trunk
trunk-IsEvaluated = record {
  parent = refl;
  clear = refl;
  service = refl;
  triggered = unfold trigger_applicable trigger list_beq in refl;
}

interface_verdict-Judges_example :
    Judges (10 ∷ 12 ∷ 30 ∷ []) (20 ∷ 30 ∷ 20 ∷ []) (interface_verdict policy trunk)
interface_verdict-Judges_example = interface_verdict-Judges policy trunk trunk-IsEvaluated
