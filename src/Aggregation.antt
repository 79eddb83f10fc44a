-- ===== src/Aggregation.antt =====
-- src/orbitflow/vendors/aggregation.py: the relationships between the ports of a device and the aggregates
-- that own them.
pub mod Laws
use orbit_flow_evo.Base.{
  ℕ, Bool, true, false, not, ◌&&◌, ◌||◌, Option, none, some, List, [], ◌∷◌, ◌++◌, all, map, ltb,
  nat_beq, if◌then◌else◌,
}
use orbit_flow_evo.Base.Equality.{contains, list_eq, list_beq, nat_eq, ◌==◌, from_keys}
use orbit_flow_evo.Base.Texts.{Text, codes, is_digit, casefold, starts_with, is_nil}
use orbit_flow_evo.Base.Decimals.{str}
use orbit_flow_evo.Interfaces.{Platform, canonical_interface_name}

-- A relation as pairs: a child and its parent, a name and what is known of it.
abbrev pub Pairs : Type 0
Pairs = List (Text × Text)

pub record AggregationSnapshot : Type 0 where
  pub platform : Platform
  pub complete : Bool
  pub parents : List Text
  pub bindings : Pairs
  pub subinterfaces : Pairs
  pub evidence : Pairs
  pub configuration_command : Text
  pub configuration_names : Pairs

unfoldable pub identity : Platform → Text → Text
unfolding canonical_interface_name
identity platform name = canonical_interface_name platform name true

-- `dict(pairs).get(key, default)`: of two pairs with one key the later counts.
unfoldable pub get_last : Text → Text → Pairs → Text
unfolding list_beq
get_last key default [] = default
get_last key default (pair ∷ pairs) = get_last key (if pair.0 == key then pair.1 else default) pairs

unfoldable pub display_name : AggregationSnapshot → Text → Text
unfolding get_last
display_name s key =
    get_last key (key ++ codes " [canonical fallback: configuration heading unavailable]")
      s.configuration_names

abbrev pub parent_prefix : Platform → Text
parent_prefix Platform.cisco_xr = codes "bundle-ether"
parent_prefix Platform.huawei_vrp = codes "eth-trunk"
parent_prefix Platform.ubiquiti_edgeswitch = codes "3/"
parent_prefix _ = codes "port-channel"

-- `prefix\d+` after a number of code points.
unfoldable pub is_numbered : Text → Text → Bool
unfolding is_digit
is_numbered [] s = not (is_nil s) && all is_digit s
is_numbered (c ∷ prefix) [] = false
is_numbered (c ∷ prefix) (d ∷ s) = nat_beq c d && is_numbered prefix s

unfoldable pub is_parent : Platform → Text → Bool
unfolding is_numbered casefold
is_parent platform name = is_numbered (parent_prefix platform) (casefold name)

abbrev pub heading_prefix : Platform → Text
heading_prefix Platform.cisco_xr = codes "Bundle-Ether"
heading_prefix Platform.huawei_vrp = codes "Eth-Trunk"
heading_prefix Platform.ubiquiti_edgeswitch = codes "3/"
heading_prefix _ = codes "Port-channel"

unfoldable pub parent_name : Platform → ℕ → Text
unfolding identity str
parent_name platform number = identity platform (heading_prefix platform ++ str number)

-- The order of Python's texts.
unfoldable pub comes_before : Text → Text → Bool
comes_before [] t = true
comes_before (c ∷ s) [] = false
comes_before (c ∷ s) (d ∷ t) = ltb c d || (nat_beq c d && comes_before s t)

unfoldable pub insert_name : Text → List Text → List Text
unfolding comes_before
insert_name name [] = name ∷ []
insert_name name (other ∷ names) =
    let rest = insert_name name names in
    if comes_before name other then name ∷ other ∷ names else other ∷ rest

-- `sorted(names)`
unfoldable pub sort_names : List Text → List Text
unfolding insert_name
sort_names [] = []
sort_names (name ∷ names) = insert_name name (sort_names names)

-- The keys of the observed parents.
unfoldable pub observed_parents : Platform → List Text → List Text
unfolding identity is_parent
observed_parents platform [] = []
observed_parents platform (name ∷ names) =
    let rest = observed_parents platform names in
    let key = identity platform name in if is_parent platform key then key ∷ rest else rest

unfoldable pub with_observed : AggregationSnapshot → List Text → AggregationSnapshot
unfolding observed_parents sort_names from_keys
with_observed s names = record s {
  parents = sort_names (from_keys (s.parents ++ observed_parents s.platform names));
}

unfoldable pub capture_incomplete : AggregationSnapshot → Bool
unfolding list_beq
capture_incomplete s =
    not s.complete && not (s.configuration_command == codes "typed saved-configuration facts")

-- What stands right, or left, of a key.
unfoldable pub right_of : Text → Pairs → List Text
unfolding list_beq
right_of key [] = []
right_of key (pair ∷ pairs) =
    let rest = right_of key pairs in if pair.0 == key then pair.1 ∷ rest else rest

unfoldable pub left_of : Text → Pairs → List Text
unfolding list_beq
left_of key [] = []
left_of key (pair ∷ pairs) =
    let rest = left_of key pairs in if pair.1 == key then pair.0 ∷ rest else rest

-- The only owner, if it is a parent.
unfoldable pub confirmed : List Text → List Text → Option Text
unfolding list_beq
confirmed parents (p ∷ []) = if contains parents p then some p else none
confirmed parents _ = none

unfoldable pub owner : AggregationSnapshot → Text → Option Text
unfolding confirmed right_of from_keys identity
owner s name = confirmed s.parents (from_keys (right_of (identity s.platform name) s.bindings))

-- `', '.join(names)`
unfoldable pub join : List Text → Text
join [] = []
join (name ∷ []) = name
join (name ∷ other ∷ names) = name ++ codes ", " ++ join (other ∷ names)

unfoldable pub child_fields : AggregationSnapshot → List Text → List Text
unfolding display_name
child_fields s [] = [] ∷ [] ∷ [] ∷ []
child_fields s (parent ∷ _) = codes "Yes" ∷ codes "Child" ∷ display_name s parent ∷ []

unfoldable pub fields : AggregationSnapshot → Text → List Text
unfolding identity left_of right_of sort_names join display_name child_fields list_beq
fields s name =
    let key = identity s.platform name in
    let members = map (display_name s) (sort_names (left_of key s.bindings)) in
    if contains s.parents key
    then codes "Yes" ∷ codes "Parent" ∷ (if s.complete then join members else codes "Unknown") ∷ []
    else child_fields s (right_of key s.bindings)

unfoldable pub names_in : List Text → Pairs → List Text
unfolding list_beq
names_in selected [] = []
names_in selected (pair ∷ pairs) =
    let rest = names_in selected pairs in if contains selected pair.0 then pair.0 ∷ rest else rest

unfoldable pub references : AggregationSnapshot → Text → List Text
unfolding identity left_of right_of names_in list_beq
references s name =
    let key = identity s.platform name in
    let below = left_of key s.bindings ++ left_of key s.subinterfaces in
    names_in (key ∷ (if contains s.parents key then below else right_of key s.bindings)) s.evidence
