-- ===== src/Spool/Safe.antt =====
-- src/orbitflow/result_spool.py: `_safe`, which normalizes a payload before it is stored.
use orbit_flow_evo.Base.{ℕ, Bool, Result, ok, err, ◌>>=◌, if◌then◌else◌}
use orbit_flow_evo.Base.Equality.{list_eq, nat_eq, ◌==◌}
use orbit_flow_evo.Base.Texts.{Text}
use orbit_flow_evo.Json.{Json, Items, Fields}
use orbit_flow_evo.Spool.{SpoolError, not_normalized}

-- A value as a task gives it; a tuple is an array, an instant its ISO form, and `opaque` is a value
-- of any other type.
mutual
  pub data Value : Type 0 where
    null : Value
    boolean : Bool → Value
    integer : ℕ → Value
    negative : ℕ → Value
    real : Text → Value
    text : Text → Value
    instant : Text → Value
    opaque : Value
    array : Values → Value
    object : ValueFields → Value

  pub data Values : Type 0 where
    nil : Values
    cons : Value → Values → Values

  pub data ValueFields : Type 0 where
    end : ValueFields
    field : Text → Value → ValueFields → ValueFields

-- `fields[name] = value`
unfoldable pub assign : Text → Json → Fields → Fields
assign name value Fields.end = Fields.field name value Fields.end
assign name value (Fields.field n v fields) =
    let rest = assign name value fields in
    if n == name then Fields.field n value fields else Fields.field n v rest

-- `_safe`. The comprehension over a dict assigns the names one after the other.
unfoldable mutual
  unfolding assign

  pub safe : (Text → Text) → Value → Result SpoolError Json
  safe clean Value.null = ok Json.null
  safe clean (Value.boolean b) = ok (Json.boolean b)
  safe clean (Value.integer n) = ok (Json.integer n)
  safe clean (Value.negative n) = ok (Json.negative n)
  safe clean (Value.real t) = ok (Json.real t)
  safe clean (Value.text t) = ok (Json.text (clean t))
  safe clean (Value.instant t) = ok (Json.text t)
  safe clean Value.opaque = err not_normalized
  safe clean (Value.array xs) = safe_items clean xs >>= λ items. ok (Json.array items)
  safe clean (Value.object fs) =
      safe_fields clean fs Fields.end >>= λ fields. ok (Json.object fields)

  pub safe_items : (Text → Text) → Values → Result SpoolError Items
  safe_items clean Values.nil = ok Items.nil
  safe_items clean (Values.cons x xs) =
      safe clean x >>= λ item. safe_items clean xs >>= λ items. ok (Items.cons item items)

  pub safe_fields : (Text → Text) → ValueFields → Fields → Result SpoolError Fields
  safe_fields clean ValueFields.end seen = ok seen
  safe_fields clean (ValueFields.field name value fields) seen =
      safe clean value >>= λ v. safe_fields clean fields (assign (clean name) v seen)
