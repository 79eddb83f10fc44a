-- ===== src/Tests/Targets.antt =====
-- Tests of the model of src/orbitflow/targets.py.
use orbit_flow_evo.Base.{◌≡◌, refl, false, none, some, [], ◌∷◌, ok, err, if◌then◌else◌}
use orbit_flow_evo.Base.Equality.{◌==◌, list_eq, nat_eq, list_beq}
use orbit_flow_evo.Base.Texts.{Text, codes}
use orbit_flow_evo.Targets.{
  Cells, Target, empty_field, load_targets, Supplied, raises, nothing, load_device_credentials,
  from_sheet,
}
use orbit_flow_evo.Targets.Laws.{lookup, load_device_credentials-lookup}

abbrev header : Cells
header =
    some (codes " Management_IP ") ∷ some (codes "password") ∷ none ∷ some (codes "USERNAME") ∷ []

abbrev row_1 : Cells
row_1 = some (codes "10.0.0.1") ∷ some (codes "pw1") ∷ none ∷ some (codes "admin ") ∷ []

abbrev row_2 : Cells
row_2 = some (codes "10.0.0.2") ∷ some (codes "pw2") ∷ []

abbrev target_1 : Target
target_1 = record {
  management_ip = codes "10.0.0.1";
  username = codes "admin";
  password = codes "pw1";
  secret = none;
}

loaded : load_targets false (header ∷ row_1 ∷ [] ∷ []) ≡ ok (target_1 ∷ [])
unfolding load_targets list_beq
loaded = refl

incomplete : load_targets false (header ∷ row_1 ∷ row_2 ∷ []) ≡ err (empty_field 3)
unfolding load_targets list_beq
incomplete = refl

-- A provider that raises for one address, and has nothing for any other.
abbrev provider : Text → Supplied
provider ip = if ip == codes "10.0.0.2" then raises else nothing

load_device_credentials-lookup_example :
    lookup (codes "10.0.0.1") (
      load_device_credentials
        (header ∷ row_1 ∷ row_2 ∷ [])
        (codes "10.0.0.2" ∷ codes "10.0.0.1" ∷ [])
        provider)
    ≡ some (record { username = codes "admin"; password = codes "pw1"; secret = none })
unfolding load_targets list_beq from_sheet
load_device_credentials-lookup_example =
    load_device_credentials-lookup (header ∷ row_1 ∷ row_2 ∷ [])
      (codes "10.0.0.2" ∷ codes "10.0.0.1" ∷ []) provider (codes "10.0.0.1")
