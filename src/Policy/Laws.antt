-- ===== src/Policy/Laws.antt =====
-- What the loading of a policy guarantees.
use orbit_flow_evo.Base.{
  ℕ, zero, suc, ◌+◌, ◌-◌, ◌≤◌, ◌<◌, ◌≡◌, refl, true, false, ◌&&◌, not, List, [], ◌∷◌, ok, arith,
  leb, Ensures, Ensures-bind, Ensures-guard, Ensures-ok, Ensures-any,
}
use orbit_flow_evo.Base.Equality.{nat_eq, list_eq, ◌==◌}
use orbit_flow_evo.Base.Texts.{Text, codes, is_nil}
use orbit_flow_evo.Json.{Json, Fields, array, nil, cons, items}
use orbit_flow_evo.Vlans.{insert}
use orbit_flow_evo.Vlans.Bounds.{Ascending, insert-Ascending}
use orbit_flow_evo.Policy.{
  VlanPolicy, is_identifier, identifier, entry_range, add_range, add_values, values, put_domain,
  parse_policy, read_identifier, read_values, build_policy, check_fields, at, top_names,
  database_names, interface_names,
}

-- An invariant that every insertion of a number within 2 to 4001 keeps.
module _ {A : Type 0} (put : ℕ → List A → List A) (P : List A → Type 0)
    (keeps : (v : ℕ) (xs : List A) → 2 ≤ v → v < 4002 → P xs → P (put v xs)) where
  add_range_inv :
      (first count : ℕ) (xs : List A)
      → 2 ≤ first
      → first + count ≤ 4002
      → P xs
      → P (add_range put first count xs)
  unfolding add_range
  add_range_inv first zero xs h k p = p
  add_range_inv first (suc count) xs h k p =
      add_range_inv (first + 1) count (put first xs) (omega arith) (omega arith)
        (keeps first xs h (omega arith) p)

  add_values_inv :
      (vs : List Json) (result : List A) → P result → Ensures P (add_values put vs result)
  unfolding add_values
  add_values_inv [] result p = Ensures-ok result p
  add_values_inv (value ∷ vs) result p =
      Ensures-bind (entry_range value) _ (Ensures-any _) λ (first, last) _.
        Ensures-guard (leb 2 first && leb first last && leb last 4001) _ _ λ fits.
          add_values_inv vs (add_range put first (last + 1 - first) result)
            (add_range_inv first (last + 1 - first) result (ground arith) (ground arith) p)

is_nil-insert : (v : ℕ) (xs : List ℕ) → is_nil (insert v xs) ≡ false
unfolding insert
is_nil-insert v [] = refl
is_nil-insert v (x ∷ xs) = ground arith

-- A set of VLANs of a policy: ascending, and within 2 to 4001.
values-Ascending : (j : Json) → Ensures (λ vs. Ascending 2 4002 vs) (values insert j)
unfolding values
values-Ascending (array (cons x xs)) =
    add_values_inv insert (λ vs. Ascending 2 4002 vs)
      (λ v xs h k p. insert-Ascending 2 4002 v xs h k p) (x ∷ items xs) [] tt
values-Ascending (array nil) = record { apply = λ a h. cc }
values-Ascending _ = record { apply = λ a h. cc }

identifier-is_identifier : (j : Json) → Ensures (λ s. is_identifier s ≡ true) (identifier j)
unfolding identifier
identifier-is_identifier (Json.text s) = record { apply = λ a h. ground arith }
identifier-is_identifier _ = record { apply = λ a h. cc }

is_nil-add_range :
    (first count : ℕ) (xs : List ℕ) → 0 < count → is_nil (add_range insert first count xs) ≡ false
unfolding add_range
is_nil-add_range first zero xs h = absurd (omega arith)
is_nil-add_range first (suc zero) xs h = is_nil-insert first xs
is_nil-add_range first (suc (suc count)) xs h =
    is_nil-add_range (first + 1) (suc count) (insert first xs) (omega arith)

values-nonempty : (j : Json) → Ensures (λ vs. is_nil vs ≡ false) (values insert j)
unfolding values
values-nonempty (array (cons x xs)) =
    Ensures-bind (entry_range x) _ (Ensures-any _) λ (first, last) _.
      Ensures-guard (leb 2 first && leb first last && leb last 4001) _ _ λ fits.
        add_values_inv insert (λ vs. is_nil vs ≡ false) (λ v ys _ _ _. is_nil-insert v ys)
          (items xs) (add_range insert first (last + 1 - first) [])
          (is_nil-add_range first (last + 1 - first) [] (ground arith))
values-nonempty (array nil) = record { apply = λ a h. cc }
values-nonempty _ = record { apply = λ a h. cc }

abbrev pub IsVlanSet : List ℕ → Type 0
IsVlanSet vs = Ascending 2 4002 vs × (is_nil vs ≡ false)

values-IsVlanSet : (j : Json) → Ensures IsVlanSet (values insert j)
values-IsVlanSet j = record {
  apply = λ vs h. ((values-Ascending j).apply vs h, (values-nonempty j).apply vs h);
}

read_identifier-holds :
    (fields : Fields) (name : Text)
    → Ensures (λ s. is_identifier s ≡ true) (read_identifier fields name)
unfolding read_identifier
read_identifier-holds fields name =
    Ensures-bind (at fields name) _ (Ensures-any _) λ j _. identifier-is_identifier j

read_values-holds :
    (fields : Fields) (name : Text) → Ensures IsVlanSet (read_values insert fields name)
unfolding read_values
read_values-holds fields name =
    Ensures-bind (at fields name) _ (Ensures-any _) λ j _. values-IsVlanSet j

-- A policy that was loaded: its identifiers match their pattern, its two rules differ, and its
-- sets of VLANs are not empty, ascending, and within 2 to 4001.
pub record IsValid (p : VlanPolicy) : Type 0 where
  pub policy_id : is_identifier p.policy_id ≡ true
  pub database_rule : is_identifier p.database_rule ≡ true
  pub interface_rule : is_identifier p.interface_rule ≡ true
  pub rules_differ : (p.database_rule == p.interface_rule) ≡ false
  pub match_all : IsVlanSet p.match_all
  pub match_any : IsVlanSet p.match_any
  pub required_vlans : IsVlanSet p.required_vlans

-- The last part of `parse_policy`, which reads the values of the checked objects.
build_policy-IsValid :
    (top database interface : Fields) → Ensures IsValid (build_policy top database interface)
unfolding build_policy
build_policy-IsValid top database interface =
    Ensures-bind (read_identifier database (codes "rule_id")) _ (read_identifier-holds _ _) λ d hd.
      Ensures-bind (read_identifier interface (codes "rule_id")) _ (read_identifier-holds _ _)
        λ i hi. Ensures-guard (not (d == i)) _ _ λ differ.
          Ensures-bind (read_identifier top (codes "policy_id")) _ (read_identifier-holds _ _)
            λ id hid.
              Ensures-bind (read_values put_domain database (codes "required_domains")) _
                (Ensures-any _)
                λ domains _.
                  Ensures-bind (read_values insert interface (codes "match_all")) _
                    (read_values-holds _ _)
                    λ ma hma.
                      Ensures-bind (read_values insert interface (codes "match_any")) _
                        (read_values-holds _ _)
                        λ my hmy.
                          Ensures-bind (read_values insert interface (codes "required_vlans")) _
                            (read_values-holds _ _)
                            λ rv hrv. Ensures-ok _ (record {
                              policy_id = hid;
                              database_rule = hd;
                              interface_rule = hi;
                              rules_differ = ground arith;
                              match_all = hma;
                              match_any = hmy;
                              required_vlans = hrv;
                            })

parse_policy-Ensures : (j : Json) → Ensures IsValid (parse_policy j)
unfolding parse_policy
parse_policy-Ensures j = Ensures-bind (check_fields j top_names) _ (Ensures-any _) λ top _.
    Ensures-bind (at top (codes "schema_version")) _ (Ensures-any _) λ version _.
      Ensures-guard _ _ _ λ two. Ensures-bind (at top (codes "database")) _ (Ensures-any _) λ d _.
        Ensures-bind (at top (codes "interface")) _ (Ensures-any _) λ i _.
          Ensures-bind (check_fields d database_names) _ (Ensures-any _) λ database _.
            Ensures-bind (check_fields i interface_names) _ (Ensures-any _)
              λ interface _. build_policy-IsValid top database interface

-- A policy that loads is valid: its identifiers match their pattern, its two rules differ, and its
-- three sets of VLANs are not empty, strictly ascending, and within 2 to 4001.
pub parse_policy-IsValid : (j : Json) (p : VlanPolicy) → parse_policy j ≡ ok p → IsValid p
parse_policy-IsValid j p h = (parse_policy-Ensures j).apply p h
