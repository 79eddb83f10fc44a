-- ===== src/Json.antt =====
-- JSON values as Python decodes them: an integer and a Boolean are values of different types, and
-- an object is the list of its fields, whose names are distinct once it is decoded.
use orbit_flow_evo.Base.{ℕ, Bool, ◌&&◌, Option, none, some, List, [], ◌∷◌, all, if◌then◌else◌}
use orbit_flow_evo.Base.Equality.{list_eq, nat_eq, ◌==◌, contains}
use orbit_flow_evo.Base.Texts.{Text}

mutual
  pub data Json : Type 0 where
    null : Json
    boolean : Bool → Json
    integer : ℕ → Json
    negative : ℕ → Json
    real : Text → Json
    text : Text → Json
    array : Items → Json
    object : Fields → Json

  pub data Items : Type 0 where
    nil : Items
    cons : Json → Items → Items

  pub data Fields : Type 0 where
    end : Fields
    field : Text → Json → Fields → Fields

abbrev pub items : Items → List Json
items nil = []
items (cons x xs) = x ∷ items xs

abbrev pub names : Fields → List Text
names end = []
names (field name value fields) = name ∷ names fields

-- `value[name]`
unfoldable pub get : Fields → Text → Option Json
get end name = none
get (field n value fields) name = if n == name then some value else get fields name

-- `set(value) == set(expected)`
unfoldable pub same_names : List Text → List Text → Bool
same_names xs ys = all (contains ys) xs && all (contains xs) ys
