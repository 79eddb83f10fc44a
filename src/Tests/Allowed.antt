-- ===== src/Tests/Allowed.antt =====
-- Tests of the model of reconstruct_allowed in src/orbitflow/compliance/resolvers.py.
use orbit_flow_evo.Base.{◌≡◌, refl, true, List, [], ◌∷◌, ok}
use orbit_flow_evo.Allowed.{
  Operation, allowed_add, allowed_remove, allowed_except, Allowed, reconstruct_allowed,
}
use orbit_flow_evo.Allowed.Laws.{allows, reconstruct_allowed-allows}

abbrev operations : List Operation
operations = allowed_except (10 ∷ 20 ∷ []) ∷ allowed_add (20 ∷ []) ∷ allowed_remove (30 ∷ []) ∷ []

abbrev reconstructed : Allowed
reconstructed = record { all_vlans = true; values = 10 ∷ 30 ∷ [] }

reconstructs : reconstruct_allowed operations ≡ ok (reconstructed, true)
unfolding reconstruct_allowed
reconstructs = refl

reconstruct_allowed-allows_example : allows reconstructed 20 ≡ true
reconstruct_allowed-allows_example =
    reconstruct_allowed-allows operations reconstructed true 20 reconstructs
