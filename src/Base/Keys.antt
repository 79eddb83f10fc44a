-- ===== src/Base/Keys.antt =====
-- `dict.fromkeys`: what it keeps, and that it keeps it once.
use orbit_flow_evo.Base.Tests.{Bool-cases}
use orbit_flow_evo.Base.Equality.{
  Eq, contains, contains-append, from_keys, from_keys_onto, Distinct,
}
use mathlib.Core.Path.{◌≡◌, refl}
use mathlib.Core.Logic.{inl, inr}
use mathlib.Core.Bool.{false, ◌||◌}
use mathlib.Core.List.{List, [], ◌∷◌, ◌++◌}
use native.Mathlib.Omega.{arith}

module _ {ℓ} {A : Type ℓ} ⦃e : Eq A⦄ where
  contains-from_keys_onto :
      (seen xs : List A) (a : A)
      → contains (from_keys_onto seen xs) a ≡ (contains seen a || contains xs a)
  unfolding from_keys_onto
  contains-from_keys_onto seen [] a = ground arith
  contains-from_keys_onto seen (x ∷ xs) a = ground (
    arith,
    contains-from_keys_onto seen xs a,
    contains-from_keys_onto (seen ++ x ∷ []) xs a,
    contains-append seen (x ∷ []) a,
    e.beq_iff x a,
  )

  -- The same elements.
  pub contains-from_keys : (xs : List A) (a : A) → contains (from_keys xs) a ≡ contains xs a
  unfolding from_keys
  contains-from_keys xs a = contains-from_keys_onto [] xs a

  Distinct-snoc :
      (xs : List A) (x : A) → Distinct xs → contains xs x ≡ false → Distinct (xs ++ x ∷ [])
  Distinct-snoc [] x d h = (refl, tt)
  Distinct-snoc (y ∷ ys) x d h =
      ground
        (arith, Distinct-snoc ys x, contains-append ys (x ∷ []) y, e.beq_iff x y, e.beq_iff y x)

  Distinct-from_keys_onto : (seen xs : List A) → Distinct seen → Distinct (from_keys_onto seen xs)
  unfolding from_keys_onto
  Distinct-from_keys_onto seen [] d = d
  Distinct-from_keys_onto seen (x ∷ xs) d = elim (Bool-cases (contains seen x)) [
    | inl old ↦ rw old (Distinct-from_keys_onto seen xs d)
    | inr new ↦ rw new (Distinct-from_keys_onto (seen ++ x ∷ []) xs (Distinct-snoc seen x d new))
  ]

  pub Distinct-from_keys : (xs : List A) → Distinct (from_keys xs)
  unfolding from_keys
  Distinct-from_keys xs = Distinct-from_keys_onto [] xs tt
