-- ===== src/Spool/Sanitized.antt =====
-- src/orbitflow/result_spool.py: what `_safe` leaves in a payload.
use mathlib.Core.Path.{subst}
use orbit_flow_evo.Base.{
  ℕ, ◌≡◌, refl, true, false, ◌∷◌, ok, arith, if◌then◌else◌, ok_bind, ok_injective,
}
use orbit_flow_evo.Base.Equality.{list_eq, nat_eq, list_beq_iff, ◌==◌, contains, Distinct}
use orbit_flow_evo.Base.Texts.{Text}
use orbit_flow_evo.Json.{Json, Items, Fields, names}
use orbit_flow_evo.Spool.Safe.{Value, Values, ValueFields, assign, safe, safe_items, safe_fields}

-- Every object in the value has distinct names, and `P` holds of every text and name.
unfoldable mutual
  pub IsSanitized : (Text → Type 0) → Json → Type 0
  IsSanitized P (Json.text t) = P t
  IsSanitized P (Json.array xs) = AreSanitized P xs
  IsSanitized P (Json.object fs) = Distinct (names fs) × FieldsAreSanitized P fs
  IsSanitized P _ = Unit

  pub AreSanitized : (Text → Type 0) → Items → Type 0
  AreSanitized P Items.nil = Unit
  AreSanitized P (Items.cons x xs) = IsSanitized P x × AreSanitized P xs

  pub FieldsAreSanitized : (Text → Type 0) → Fields → Type 0
  FieldsAreSanitized P Fields.end = Unit
  FieldsAreSanitized P (Fields.field name value fields) =
      P name × IsSanitized P value × FieldsAreSanitized P fields

contains-assign :
    (name : Text) (value : Json) (fields : Fields) (n : Text)
    → contains (names (assign name value fields)) n ≡ contains (name ∷ names fields) n
unfolding assign
contains-assign name value Fields.end n = refl
contains-assign name value (Fields.field m v fields) n =
    ground (arith, contains-assign name value fields n, list_beq_iff {A = ℕ} m name)

Distinct-assign :
    (name : Text) (value : Json) (fields : Fields)
    → Distinct (names fields)
    → Distinct (names (assign name value fields))
unfolding assign
Distinct-assign name value Fields.end d = (refl, tt)
Distinct-assign name value (Fields.field m v fields) d = ground (
  arith,
  Distinct-assign name value fields d.1,
  contains-assign name value fields m,
  list_beq_iff {A = ℕ} name m,
  list_beq_iff {A = ℕ} m name,
)

module _ (P : Text → Type 0) where
  FieldsAreSanitized-assign :
      (name : Text) (value : Json) (fields : Fields)
      → P name
      → IsSanitized P value
      → FieldsAreSanitized P fields
      → FieldsAreSanitized P (assign name value fields)
  unfolding assign IsSanitized
  FieldsAreSanitized-assign name value Fields.end p h d = (p, h, tt)
  FieldsAreSanitized-assign name value (Fields.field m v fields) p h d =
      let rest = FieldsAreSanitized-assign name value fields p h d.2 in
      elim (m == name)
        as (λ b. FieldsAreSanitized P (
          if b then Fields.field m value fields else Fields.field m v (assign name value fields))) [
            | true ↦ (d.0, h, d.2)
            | false ↦ (d.0, d.1, rest)
          ]

-- A payload's instants are as they are given; every other text is cleaned.
unfoldable mutual
  pub Instants : (Text → Type 0) → Value → Type 0
  Instants P (Value.instant t) = P t
  Instants P (Value.array xs) = InstantsOfAll P xs
  Instants P (Value.object fs) = InstantsOfFields P fs
  Instants P _ = Unit

  pub InstantsOfAll : (Text → Type 0) → Values → Type 0
  InstantsOfAll P Values.nil = Unit
  InstantsOfAll P (Values.cons x xs) = Instants P x × InstantsOfAll P xs

  pub InstantsOfFields : (Text → Type 0) → ValueFields → Type 0
  InstantsOfFields P ValueFields.end = Unit
  InstantsOfFields P (ValueFields.field name value fields) =
      Instants P value × InstantsOfFields P fields

module _ (P : Text → Type 0) (clean : Text → Text) (cleaned : (t : Text) → P (clean t)) where
  mutual
    unfolding safe IsSanitized Instants

    IsSanitized-safe : (v : Value) (j : Json) → Instants P v → safe clean v ≡ ok j → IsSanitized P j
    IsSanitized-safe Value.null j i h = subst (IsSanitized P) (ok_injective h) tt
    IsSanitized-safe (Value.boolean b) j i h = subst (IsSanitized P) (ok_injective h) tt
    IsSanitized-safe (Value.integer n) j i h = subst (IsSanitized P) (ok_injective h) tt
    IsSanitized-safe (Value.negative n) j i h = subst (IsSanitized P) (ok_injective h) tt
    IsSanitized-safe (Value.real t) j i h = subst (IsSanitized P) (ok_injective h) tt
    IsSanitized-safe (Value.text t) j i h = subst (IsSanitized P) (ok_injective h) (cleaned t)
    IsSanitized-safe (Value.instant t) j i h = subst (IsSanitized P) (ok_injective h) i
    IsSanitized-safe Value.opaque j i h = cc
    IsSanitized-safe (Value.array xs) j i h =
        let (items, e, f) = ok_bind (safe_items clean xs) _ j h in
        subst (IsSanitized P) (ok_injective f) (AreSanitized-safe_items xs items i e)
    IsSanitized-safe (Value.object fs) j i h =
        let (fields, e, f) = ok_bind (safe_fields clean fs Fields.end) _ j h in
        subst (IsSanitized P) (ok_injective f)
          (FieldsAreSanitized-safe_fields fs Fields.end fields i tt tt e)

    AreSanitized-safe_items :
        (xs : Values) (items : Items)
        → InstantsOfAll P xs
        → safe_items clean xs ≡ ok items
        → AreSanitized P items
    AreSanitized-safe_items Values.nil items i h = subst (AreSanitized P) (ok_injective h) tt
    AreSanitized-safe_items (Values.cons x xs) items i h =
        let (j, e, f) = ok_bind (safe clean x) _ items h in
        let (js, e', f') = ok_bind (safe_items clean xs) _ items f in
        subst (AreSanitized P) (ok_injective f')
          (IsSanitized-safe x j i.0 e, AreSanitized-safe_items xs js i.1 e')

    FieldsAreSanitized-safe_fields :
        (fs : ValueFields) (seen fields : Fields)
        → InstantsOfFields P fs
        → Distinct (names seen)
        → FieldsAreSanitized P seen
        → safe_fields clean fs seen ≡ ok fields
        → Distinct (names fields) × FieldsAreSanitized P fields
    FieldsAreSanitized-safe_fields ValueFields.end seen fields i d s h =
        subst (λ fs. Distinct (names fs) × FieldsAreSanitized P fs) (ok_injective h) (d, s)
    FieldsAreSanitized-safe_fields (ValueFields.field name value fs) seen fields i d s h =
        let (j, e, f) = ok_bind (safe clean value) _ fields h in
        FieldsAreSanitized-safe_fields fs (assign (clean name) j seen) fields i.1
          (Distinct-assign (clean name) j seen d)
          (FieldsAreSanitized-assign P (clean name) j seen (cleaned name)
            (IsSanitized-safe value j i.0 e) s)
          f

  -- In a payload that `_safe` returns, every text and every name satisfies what the sanitizer establishes, given that
  -- the instants of the payload do, and no object names a field twice.
  pub safe-IsSanitized :
      (v : Value) (j : Json) → Instants P v → safe clean v ≡ ok j → IsSanitized P j
  safe-IsSanitized = IsSanitized-safe

mutual
  unfolding Instants

  pub Instants-any : (v : Value) → Instants (λ _. Unit) v
  Instants-any (Value.instant t) = tt
  Instants-any (Value.array xs) = InstantsOfAll-any xs
  Instants-any (Value.object fs) = InstantsOfFields-any fs
  Instants-any Value.null = tt
  Instants-any (Value.boolean b) = tt
  Instants-any (Value.integer n) = tt
  Instants-any (Value.negative n) = tt
  Instants-any (Value.real t) = tt
  Instants-any (Value.text t) = tt
  Instants-any Value.opaque = tt

  InstantsOfAll-any : (xs : Values) → InstantsOfAll (λ _. Unit) xs
  InstantsOfAll-any Values.nil = tt
  InstantsOfAll-any (Values.cons x xs) = (Instants-any x, InstantsOfAll-any xs)

  InstantsOfFields-any : (fs : ValueFields) → InstantsOfFields (λ _. Unit) fs
  InstantsOfFields-any ValueFields.end = tt
  InstantsOfFields-any (ValueFields.field name value fs) =
      (Instants-any value, InstantsOfFields-any fs)

-- Every object in the value has distinct names.
abbrev pub HasDistinctNames : Json → Type 0
HasDistinctNames = IsSanitized (λ _. Unit)

pub safe-HasDistinctNames :
    (clean : Text → Text) (v : Value) (j : Json) → safe clean v ≡ ok j → HasDistinctNames j
safe-HasDistinctNames clean v j h =
    safe-IsSanitized (λ _. Unit) clean (λ _. tt) v j (Instants-any v) h
