-- ===== src/Allowed.antt =====
-- src/orbitflow/compliance/resolvers.py, reconstruct_allowed: the VLANs that a trunk allows, from its ordered
-- operations. A set of VLANs is its sorted list.
pub mod Laws
use orbit_flow_evo.Base.{
  ℕ, Bool, true, false, not, List, [], ◌∷◌, Result, ok, err, keep, if◌then◌else◌,
}
use orbit_flow_evo.Base.Equality.{nat_eq, contains}
use orbit_flow_evo.Base.Texts.{is_nil}
use orbit_flow_evo.Vlans.{insert}

-- The operand of `allowed`: `"ALL"`, another word, or VLANs.
pub data Operand : Type 0 where
  all_word other_word : Operand
  vlan_ids : List ℕ → Operand

pub data Operation : Type 0 where
  unsupported_allowed other_kind : Operation
  allowed : Operand → Operation
  allowed_except allowed_add allowed_remove : List ℕ → Operation

pub data AllowedError : Type 0 where
  unsupported_operation : AllowedError

unfoldable pub union : List ℕ → List ℕ → List ℕ
unfolding insert
union values [] = values
union values (v ∷ vs) = insert v (union values vs)

unfoldable pub difference : List ℕ → List ℕ → List ℕ
difference values vs = keep (λ v. not (contains vs v)) values

-- `all_vlans` and `values`, which are the VLANs left out where all are allowed.
pub record Allowed : Type 0 where
  pub all_vlans : Bool
  pub values : List ℕ

unfoldable pub apply_operation : Operation → Allowed → Result AllowedError Allowed
unfolding union difference
apply_operation unsupported_allowed a = err unsupported_operation
apply_operation other_kind a = ok a
apply_operation (allowed all_word) a = ok (record { all_vlans = true; values = [] })
apply_operation (allowed other_word) a = ok (record { all_vlans = false; values = [] })
apply_operation (allowed (vlan_ids vs)) a = ok (record { all_vlans = false; values = union [] vs })
apply_operation (allowed_except vs) a = ok (record { all_vlans = true; values = union [] vs })
apply_operation (allowed_add vs) a =
    ok (record a { values = if a.all_vlans then difference a.values vs else union a.values vs })
apply_operation (allowed_remove vs) a =
    ok (record a { values = if a.all_vlans then union a.values vs else difference a.values vs })

unfoldable pub apply_all : List Operation → Allowed → Result AllowedError Allowed
unfolding apply_operation
apply_all [] a = ok a
apply_all (o ∷ os) a = elim (apply_operation o a) [ ok b ↦ apply_all os b | err e ↦ err e ]

-- The result, and its `explicit`.
unfoldable pub reconstruct_allowed : List Operation → Result AllowedError (Allowed × Bool)
unfolding apply_all
reconstruct_allowed operations =
    elim (apply_all operations (record { all_vlans = true; values = [] })) [
      | ok a ↦ ok (a, not (is_nil operations))
      | err e ↦ err e
    ]
