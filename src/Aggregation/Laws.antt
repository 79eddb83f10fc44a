-- ===== src/Aggregation/Laws.antt =====
-- What a confirmed owner of a port proves.
use orbit_flow_evo.Base.{
  ◌≡◌, sym, ap, ◌∙◌, true, none, some, List, [], ◌∷◌, inl, inr, Bool-cases, if◌then◌else◌,
}
use mathlib.Core.Option.{none-ne-some, some-injective}
use orbit_flow_evo.Base.Equality.{contains, list_eq, nat_eq, from_keys}
use orbit_flow_evo.Base.Keys.{contains-from_keys}
use orbit_flow_evo.Base.Texts.{Text}
use orbit_flow_evo.Aggregation.{AggregationSnapshot, identity, right_of, confirmed, owner}

only_one :
    (parents owners : List Text) (p : Text)
    → confirmed parents owners ≡ some p
    → (contains parents p ≡ true) × (owners ≡ p ∷ [])
unfolding confirmed
only_one parents [] p h = absurd (none-ne-some p h)
only_one parents (a ∷ b ∷ owners) p h = absurd (none-ne-some p h)
only_one parents (a ∷ []) p h = elim (Bool-cases (contains parents a)) [
  | inr n ↦ absurd (none-ne-some p (ap (λ b. if b then some a else none) (sym n) ∙ h))
  | inl y ↦
      let same : a ≡ p = some-injective a p (ap (λ b. if b then some a else none) (sym y) ∙ h) in
      (ap (contains parents) (sym same) ∙ y, ap (λ x. x ∷ []) same)
]

-- A confirmed owner of a port is a parent of the snapshot, the port is bound to it, and to no other.
pub owner_lem :
    (s : AggregationSnapshot) (name p : Text)
    → owner s name ≡ some p
    → (contains s.parents p ≡ true)
      × ((q : Text)
          → contains (right_of (identity s.platform name) s.bindings) q ≡ contains (p ∷ []) q)
unfolding owner
owner_lem s name p h =
    let bound = right_of (identity s.platform name) s.bindings in
    let one = only_one s.parents (from_keys bound) p h in
    (one.0, λ q. sym (contains-from_keys bound q) ∙ ap (λ l. contains l q) one.1)
