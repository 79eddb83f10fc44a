-- ===== src/Allowed/Laws.antt =====
-- src/orbitflow/compliance/resolvers.py: what the reconstructed VLANs of a trunk allow.
use orbit_flow_evo.Base.{
  ℕ, ◌≡◌, refl, Bool, true, false, not, ◌&&◌, ◌||◌, List, [], ◌∷◌, Result, ok, err, arith, ap, ◌∙◌,
  if◌then◌else◌, Bool-cases, inl, inr, ◌⊎◌, nat_beq_iff,
}
use orbit_flow_evo.Base.Equality.{nat_eq, ◌==◌, contains}
use orbit_flow_evo.Vlans.Bounds.{contains-insert}
use orbit_flow_evo.Allowed.{
  all_word, other_word, vlan_ids, Operation, unsupported_allowed, other_kind, allowed,
  allowed_except, allowed_add, allowed_remove, union, difference, AllowedError, Allowed,
  apply_operation, apply_all, reconstruct_allowed,
}

-- Whether a reconstruction allows a VLAN.
abbrev pub allows : Allowed → ℕ → Bool
allows a v = if a.all_vlans then not (contains a.values v) else contains a.values v

-- What one operation makes of whether a VLAN is allowed.
abbrev pub effect : Operation → ℕ → Bool → Bool
effect unsupported_allowed v before = before
effect other_kind v before = before
effect (allowed all_word) v before = true
effect (allowed other_word) v before = false
effect (allowed (vlan_ids vs)) v before = contains vs v
effect (allowed_except vs) v before = not (contains vs v)
effect (allowed_add vs) v before = before || contains vs v
effect (allowed_remove vs) v before = before && not (contains vs v)

abbrev pub effects : List Operation → ℕ → Bool → Bool
effects [] v before = before
effects (o ∷ os) v before = effects os v (effect o v before)

contains-union :
    (values vs : List ℕ) (w : ℕ)
    → contains (union values vs) w ≡ (contains values w || contains vs w)
unfolding union
contains-union values [] w = ground arith
contains-union values (v ∷ vs) w =
    ground (arith, contains-insert v w (union values vs), contains-union values vs w)

contains-difference :
    (values vs : List ℕ) (w : ℕ)
    → contains (difference values vs) w ≡ (contains values w && not (contains vs w))
unfolding difference
contains-difference [] vs w = refl
contains-difference (v ∷ values) vs w = elim (Bool-cases (v == w)) [
  | inl same ↦
      let e : contains vs v ≡ contains vs w = ap (contains vs) ((nat_beq_iff v w).0 same) in
      ground (arith, same, e, contains-difference values vs w)
  | inr other ↦ ground (arith, other, contains-difference values vs w)
]

apply_operation-allows :
    (o : Operation) (a b : Allowed) (v : ℕ)
    → apply_operation o a ≡ ok b
    → allows b v ≡ effect o v (allows a v)
unfolding apply_operation
apply_operation-allows unsupported_allowed a b v h = ground (arith, h)
apply_operation-allows other_kind a b v h = ground (arith, h)
apply_operation-allows (allowed all_word) a b v h = ground (arith, h)
apply_operation-allows (allowed other_word) a b v h = ground (arith, h)
apply_operation-allows (allowed (vlan_ids vs)) a b v h = ground (arith, h, contains-union [] vs v)
apply_operation-allows (allowed_except vs) a b v h = ground (arith, h, contains-union [] vs v)
apply_operation-allows (allowed_add vs) a b v h =
    ground (arith, h, contains-union a.values vs v, contains-difference a.values vs v)
apply_operation-allows (allowed_remove vs) a b v h =
    ground (arith, h, contains-union a.values vs v, contains-difference a.values vs v)

applied :
    (o : Operation) (a : Allowed)
    → ((b : Allowed) × (apply_operation o a ≡ ok b))
      ⊎ ((e : AllowedError) × (apply_operation o a ≡ err e))
applied o a = cases (apply_operation o a)
  where
    cases :
        (r : Result AllowedError Allowed)
        → ((b : Allowed) × (r ≡ ok b)) ⊎ ((e : AllowedError) × (r ≡ err e))
    cases (ok b) = inl (b, refl)
    cases (err e) = inr (e, refl)

apply_all-allows :
    (os : List Operation) (a b : Allowed) (v : ℕ)
    → apply_all os a ≡ ok b
    → allows b v ≡ effects os v (allows a v)
unfolding apply_all
apply_all-allows [] a b v h = ground (arith, h)
apply_all-allows (o ∷ os) a b v h = elim (applied o a) [
  | inl (c, e) ↦
      let rest : apply_all os c ≡ ok b = ground (arith, h, e) in
      apply_all-allows os c b v rest ∙ ap (effects os v) (apply_operation-allows o a c v e)
  | inr (e', e) ↦ ground (arith, h, e)
]

-- What a reconstruction that succeeds allows is what its operations, one after another, make of a trunk that
-- allows every VLAN.
pub reconstruct_allowed-allows :
    (os : List Operation) (a : Allowed) (explicit : Bool) (v : ℕ)
    → reconstruct_allowed os ≡ ok (a, explicit)
    → allows a v ≡ effects os v true
unfolding reconstruct_allowed
reconstruct_allowed-allows os a explicit v h =
    let whole : apply_all os (record { all_vlans = true; values = [] }) ≡ ok a =
      ground (arith, h) in
    apply_all-allows os (record { all_vlans = true; values = [] }) a v whole
