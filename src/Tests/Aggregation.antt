-- ===== src/Tests/Aggregation.antt =====
-- Tests of the model of src/orbitflow/vendors/aggregation.py.
use orbit_flow_evo.Base.{◌≡◌, refl, true, none, some, [], ◌∷◌}
use orbit_flow_evo.Base.Equality.{list_eq, nat_eq, list_beq}
use orbit_flow_evo.Base.Texts.{codes}
use orbit_flow_evo.Interfaces.{Platform}
use orbit_flow_evo.Aggregation.{
  AggregationSnapshot, owner, fields, is_parent, parent_name, with_observed,
}

abbrev snapshot : AggregationSnapshot
snapshot = record {
  platform = Platform.cisco_ios;
  complete = true;
  parents = codes "port-channel1" ∷ [];
  bindings =
      (codes "gigabitethernet1/0/2", codes "port-channel1")
      ∷ (codes "gigabitethernet1/0/1", codes "port-channel1")
      ∷ (codes "gigabitethernet1/0/3", codes "port-channel9")
      ∷ [];
  subinterfaces = [];
  evidence = [];
  configuration_command = codes "show running-config";
  configuration_names =
      (codes "gigabitethernet1/0/1", codes "Gi1/0/1")
      ∷ (codes "gigabitethernet1/0/2", codes "Gi1/0/2")
      ∷ [];
}

owned : owner snapshot (codes "Gi1/0/1") ≡ some (codes "port-channel1")
unfolding owner list_beq
owned = refl

missing_parent : owner snapshot (codes "Gi1/0/3") ≡ none
unfolding owner list_beq
missing_parent = refl

parent_fields :
    fields snapshot (codes "Po1") ≡ codes "Yes" ∷ codes "Parent" ∷ codes "Gi1/0/1, Gi1/0/2" ∷ []
unfolding fields list_beq
parent_fields = refl

channel : is_parent Platform.cisco_xe (codes "Port-channel12") ≡ true
unfolding is_parent
channel = refl

lag : parent_name Platform.ubiquiti_edgeswitch 7 ≡ codes "3/7"
unfolding parent_name
lag = refl

observed :
    (with_observed snapshot (codes "Po5" ∷ codes "Gi1/0/1" ∷ [])).parents
    ≡ codes "port-channel1" ∷ codes "port-channel5" ∷ []
unfolding with_observed list_beq
observed = refl
