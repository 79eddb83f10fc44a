-- ===== src/Policy.antt =====
-- src/orbitflow/compliance/policy.py: the validated compliance policy.
pub mod Laws
use orbit_flow_evo.Base.{
  ℕ, ◌+◌, ◌-◌, Bool, true, false, not, ◌&&◌, ◌||◌, Option, none, some, List, [], ◌∷◌, ◌++◌, map,
  zero, suc, Result, ok, err, ◌>>=◌, ◌>>◌, guard, all, length, leb, ltb, nat_beq, if◌then◌else◌,
}
use orbit_flow_evo.Base.Equality.{list_eq, list_beq, nat_eq, ◌==◌, contains}
use orbit_flow_evo.Base.Texts.{Text, codes, is_alnum, is_nil}
use orbit_flow_evo.Base.Decimals.{str}
use orbit_flow_evo.Json.{
  Json, Items, Fields, integer, negative, text, array, object, nil, cons, names, get, same_names,
  items,
}
use orbit_flow_evo.Vlans.{token_range, insert, update_range}

pub record VlanPolicy : Type 0 where
  pub policy_id : Text
  pub database_rule : Text
  pub required_domains : List Text
  pub interface_rule : Text
  pub match_all : List ℕ
  pub match_any : List ℕ
  pub required_vlans : List ℕ

pub data PolicyError : Type 0 where
  duplicate_key invalid_fields invalid_identifier empty_list invalid_value invalid_range :
      PolicyError
  unsupported_version same_rules key_error : PolicyError

-- `_unique_keys`: the fields of one decoded object, refused if a name comes twice.
pub unique_keys_onto :
    List (Text × Json) → List (Text × Json) → Result PolicyError (List (Text × Json))
unique_keys_onto result [] = ok result
unique_keys_onto result ((key, value) ∷ pairs) =
    if contains (map (λ (k, _). k) result) key
    then err duplicate_key
    else unique_keys_onto (result ++ (key, value) ∷ []) pairs

pub unique_keys : List (Text × Json) → Result PolicyError (List (Text × Json))
unfolding unique_keys_onto
unique_keys = unique_keys_onto []

-- `_fields`, which also hands on the fields of the object.
pub check_fields : Json → List Text → Result PolicyError Fields
unfolding same_names
check_fields (object fields) expected =
    if same_names (names fields) expected then ok fields else err invalid_fields
check_fields _ expected = err invalid_fields

pub is_identifier_char : ℕ → Bool
unfolding is_alnum
is_identifier_char c =
    is_alnum c
    || nat_beq c b'_'
    || nat_beq c b'.'
    || nat_beq c b':'
    || nat_beq c b'/'
    || nat_beq c b'-'

-- `re.fullmatch(r"[A-Za-z0-9_.:/-]{1,128}", value)`
pub is_identifier : Text → Bool
unfolding is_identifier_char
is_identifier s = leb 1 (length s) && leb (length s) 128 && all is_identifier_char s

pub identifier : Json → Result PolicyError Text
unfolding is_identifier
identifier (text s) = if is_identifier s then ok s else err invalid_identifier
identifier _ = err invalid_identifier

-- The first and the last number of one entry of a list.
pub entry_range : Json → Result PolicyError (ℕ × ℕ)
unfolding token_range
entry_range (integer n) = ok (n, n)
entry_range (negative n) = err invalid_range
entry_range (text s) = elim (token_range s) [ none ↦ err invalid_value | some r ↦ ok r ]
entry_range _ = err invalid_value

-- The order of `sorted` on texts.
pub text_lt : Text → Text → Bool
text_lt s [] = false
text_lt [] (d ∷ t) = true
text_lt (c ∷ s) (d ∷ t) = ltb c d || (nat_beq c d && text_lt s t)

-- `set.add` on a set of texts that is kept as its sorted list.
pub insert_text : Text → List Text → List Text
unfolding text_lt
insert_text t [] = t ∷ []
insert_text t (x ∷ xs) =
    let later = x ∷ insert_text t xs in
    if text_lt t x then t ∷ x ∷ xs else if t == x then x ∷ xs else later

-- `_values`, over the set that it fills: of numbers, or for the domains of their texts.
module _ {A : Type 0} (put : ℕ → List A → List A) where
  -- `result.update(… for v in range(first, first + count))`
  pub add_range : ℕ → ℕ → List A → List A
  add_range first zero result = result
  add_range first (suc count) result = add_range (first + 1) count (put first result)

  pub add_values : List Json → List A → Result PolicyError (List A)
  unfolding entry_range add_range
  add_values [] result = ok result
  add_values (value ∷ values) result = do
    (first, last) ← entry_range value
    guard (leb 2 first && leb first last && leb last 4001) invalid_range
    add_values values (add_range first (last + 1 - first) result)

  pub values : Json → Result PolicyError (List A)
  unfolding add_values
  values (array nil) = err empty_list
  values (array (cons x xs)) = add_values (items (cons x xs)) []
  values _ = err empty_list

pub put_domain : ℕ → List Text → List Text
unfolding insert_text str
put_domain v = insert_text (str v)

pub at : Fields → Text → Result PolicyError Json
unfolding get
at fields name = elim (get fields name) [ none ↦ err key_error | some value ↦ ok value ]

-- `_identifier(fields[name])` and `_values(fields[name])`
pub read_identifier : Fields → Text → Result PolicyError Text
unfolding at identifier
read_identifier fields name = do value ← at fields name; identifier value

pub read_values : {A : Type 0} → (ℕ → List A → List A) → Fields → Text → Result PolicyError (List A)
unfolding at values
read_values put fields name = do value ← at fields name; values put value

-- `type(version) is int and version == 2`
abbrev pub is_version_two : Json → Bool
is_version_two (integer n) = nat_beq n 2
is_version_two _ = false

abbrev pub top_names : List Text
top_names = codes "schema_version" ∷ codes "policy_id" ∷ codes "database" ∷ codes "interface" ∷ []

abbrev pub database_names : List Text
database_names = codes "rule_id" ∷ codes "required_domains" ∷ []

abbrev pub interface_names : List Text
interface_names =
    codes "rule_id" ∷ codes "match_all" ∷ codes "match_any" ∷ codes "required_vlans" ∷ []

-- The last part of `parse_policy`, from the identifiers of the rules on.
pub build_policy : Fields → Fields → Fields → Result PolicyError VlanPolicy
unfolding read_identifier read_values put_domain insert
build_policy top database interface = do
  database_rule ← read_identifier database (codes "rule_id")
  interface_rule ← read_identifier interface (codes "rule_id")
  guard (not (database_rule == interface_rule)) same_rules
  policy_id ← read_identifier top (codes "policy_id")
  required_domains ← read_values put_domain database (codes "required_domains")
  match_all ← read_values insert interface (codes "match_all")
  match_any ← read_values insert interface (codes "match_any")
  required_vlans ← read_values insert interface (codes "required_vlans")
  ok (record {
    policy_id = policy_id;
    database_rule = database_rule;
    required_domains = required_domains;
    interface_rule = interface_rule;
    match_all = match_all;
    match_any = match_any;
    required_vlans = required_vlans;
  })

unfoldable pub parse_policy : Json → Result PolicyError VlanPolicy
unfolding check_fields at build_policy
parse_policy value = do
  top ← check_fields value top_names
  version ← at top (codes "schema_version")
  guard (is_version_two version) unsupported_version
  d ← at top (codes "database")
  i ← at top (codes "interface")
  database ← check_fields d database_names
  interface ← check_fields i interface_names
  build_policy top database interface
