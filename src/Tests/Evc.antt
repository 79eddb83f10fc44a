-- ===== src/Tests/Evc.antt =====
-- Tests of the model of src/orbitflow/vendors/cisco/evc.py.
use orbit_flow_evo.Base.{◌≡◌, ◌↔◌, refl, true, false, none, some, [], ◌∷◌}
use orbit_flow_evo.Base.Equality.{list_eq, nat_eq, list_beq}
use orbit_flow_evo.Base.Texts.{codes}
use orbit_flow_evo.Evc.Services.{Inputs, tagged, overlaps, child_commands}
use orbit_flow_evo.Evc.Laws.{Frame, takes, overlaps-takes}

abbrev inputs : Inputs
inputs = record {
  is_untagged = false;
  outer_vlan = codes "100";
  inner_vlan = some (codes "7");
  description = [];
  rewrite = codes "Pop 1 symmetric";
  push_vlan = [];
  bridge_domain = codes "100";
  split_horizon_group = none;
}

commands :
    child_commands inputs
    ≡ some (
        codes "encapsulation dot1q 100 second-dot1q 7"
        ∷ codes "rewrite ingress tag pop 1 symmetric"
        ∷ codes "bridge-domain 100"
        ∷ [])
unfolding child_commands list_beq
commands = refl

disjoint : overlaps (tagged (100 ∷ []) (1 ∷ [])) (tagged (100 ∷ []) (2 ∷ [])) ≡ false
unfolding overlaps
disjoint = refl

overlaps-takes_example :
    (overlaps (tagged (100 ∷ []) (1 ∷ [])) (tagged (100 ∷ 101 ∷ []) []) ≡ true) ↔ (
      (f : Frame) × (takes (tagged (100 ∷ []) (1 ∷ [])) f ≡ true)
      × (takes (tagged (100 ∷ 101 ∷ []) []) f ≡ true))
overlaps-takes_example = overlaps-takes (tagged (100 ∷ []) (1 ∷ [])) (tagged (100 ∷ 101 ∷ []) [])
