-- ===== src/Compliance/Laws.antt =====
-- src/orbitflow/compliance/vlan.py: what a verdict says of the VLANs that the policy requires.
use orbit_flow_evo.Base.{
  ℕ, ◌+◌, ◌≤◌, ◌≡◌, ◌≢◌, ◌↔◌, refl, sym, ◌∙◌, ap, Bool, true, false, not, ◌&&◌, List, [], ◌∷◌, keep,
  arith, nat_beq, inl, inr, ◌⊎◌, Bool-cases, nat_beq_iff,
}
use mathlib.Core.Path.{subst}
use orbit_flow_evo.Base.Equality.{list_eq, nat_eq, contains}
use orbit_flow_evo.Policy.{VlanPolicy}
use orbit_flow_evo.Compliance.{
  Status, compliant, non_compliant, Verdict, required_database_vlans_present,
  missing_database_vlans, required_interface_vlans_present, missing_interface_vlans, add_sorted,
  sort_set, missing_from, database_verdict, verdict_of, Reason, required_database_vlans, Row,
  trigger_applicable, interface_verdict,
}

contains-add_sorted :
    (n : ℕ) (ms : List ℕ) (k : ℕ) → contains (add_sorted n ms) k ≡ contains (n ∷ ms) k
unfolding add_sorted
contains-add_sorted n [] k = refl
contains-add_sorted n (m ∷ ms) k = ground (arith, contains-add_sorted n ms k)

contains-sort_set : (ns : List ℕ) (k : ℕ) → contains (sort_set ns) k ≡ contains ns k
unfolding sort_set
contains-sort_set [] k = refl
contains-sort_set (n ∷ ns) k =
    ground (arith, contains-add_sorted n (sort_set ns) k, contains-sort_set ns k)

-- Strictly ascending, from `lo` on.
abbrev pub Increases : ℕ → List ℕ → Type 0
Increases lo [] = Unit
Increases lo (n ∷ ns) = (lo ≤ n) × Increases (n + 1) ns

Increases-add_sorted :
    (lo n : ℕ) (ms : List ℕ) → lo ≤ n → Increases lo ms → Increases lo (add_sorted n ms)
unfolding add_sorted
Increases-add_sorted lo n [] l i = (l, tt)
Increases-add_sorted lo n (m ∷ ms) l i = ground (arith, Increases-add_sorted (m + 1) n ms)

Increases-sort_set : (ns : List ℕ) → Increases 0 (sort_set ns)
unfolding sort_set
Increases-sort_set [] = tt
Increases-sort_set (n ∷ ns) =
    Increases-add_sorted 0 n (sort_set ns) (omega arith) (Increases-sort_set ns)

contains-keep :
    (f : ℕ → Bool) (ns : List ℕ) (k : ℕ) → contains (keep f ns) k ≡ (contains ns k && f k)
contains-keep f [] k = refl
contains-keep f (n ∷ ns) k = elim (Bool-cases (nat_beq n k)) [
  | inl e ↦
      let rest = contains-keep f ns k in
      let same : f n ≡ f k = ap f ((nat_beq_iff n k).0 e) in ground (arith, e, rest, same)
  | inr e ↦ let rest = contains-keep f ns k in ground (arith, e, rest)
]

contains-missing_from :
    (present required : List ℕ) (n : ℕ)
    → contains (missing_from present required) n ≡ (contains required n && not (contains present n))
unfolding missing_from
contains-missing_from present required n =
    contains-sort_set (keep (λ m. not (contains present m)) required) n
    ∙ contains-keep (λ m. not (contains present m)) required n

Increases-missing_from : (present required : List ℕ) → Increases 0 (missing_from present required)
unfolding missing_from
Increases-missing_from present required =
    Increases-sort_set (keep (λ m. not (contains present m)) required)

-- Every required VLAN is present.
abbrev pub Covers : List ℕ → List ℕ → Type 0
Covers present required = (n : ℕ) → contains required n ≡ true → contains present n ≡ true

Covers-nil :
    (present required : List ℕ) → missing_from present required ≡ [] → Covers present required
Covers-nil present required e n r =
    let m = sym (ap (λ ms. contains ms n) e) ∙ contains-missing_from present required n in
    ground (arith, m, r)

-- A verdict on what is missing: it is compliant where nothing is, and else it lists exactly that.
pub record Judges (present required : List ℕ) (v : Verdict) : Type 0 where
  pub passes : v.status ≡ compliant → Covers present required
  pub covered : Covers present required → v.status ≡ compliant
  pub lists : (n : ℕ) → contains v.missing n ≡ (contains required n && not (contains present n))
  pub increases : Increases 0 v.missing
  pub fails : (v.status ≡ non_compliant) ↔ (v.missing ≢ [])

-- The first of the missing VLANs is required and not present.
cons_uncovered :
    (present required : List ℕ) (m : ℕ) (ms : List ℕ)
    → missing_from present required ≡ m ∷ ms
    → Covers present required
    → Status.compliant ≡ non_compliant
cons_uncovered present required m ms e c =
    let found = sym (ap (λ xs. contains xs m) e) ∙ contains-missing_from present required m in
    let here = c m in absurd (ground (arith, found, here))

verdict_of-Judges :
    (ok bad : Reason) (present required : List ℕ) (ms : List ℕ)
    → missing_from present required ≡ ms
    → Judges present required (verdict_of ok bad ms)
verdict_of-Judges ok bad present required [] e = record {
  passes = λ h. Covers-nil present required e;
  covered = λ c. refl;
  lists = λ n. sym (ap (λ ms. contains ms n) e) ∙ contains-missing_from present required n;
  increases = tt;
  fails = (λ h. absurd (ground (arith, h)), λ h. absurd (h refl));
}
verdict_of-Judges ok bad present required (m ∷ ms) e = record {
  passes = λ h. absurd (ground (arith, h));
  covered = λ c. sym (cons_uncovered present required m ms e c);
  lists = λ n. sym (ap (λ ms. contains ms n) e) ∙ contains-missing_from present required n;
  increases = subst (Increases 0) e (Increases-missing_from present required);
  fails = (λ h. λ k. cc, λ h. refl);
}

-- The database rule is compliant exactly where every required VLAN is valid in the device's database; its
-- missing VLANs are the required ones that are not, once each and in ascending order, and it is not compliant exactly
-- where there are some.
pub database_verdict-Judges :
    (policy : VlanPolicy) (valid : List ℕ)
    → Judges valid (required_database_vlans policy) (database_verdict policy valid)
unfolding database_verdict
database_verdict-Judges policy valid =
    verdict_of-Judges required_database_vlans_present missing_database_vlans valid
      (required_database_vlans policy) _ refl

-- The rows that the interface rule compares with the policy.
pub record IsEvaluated (policy : VlanPolicy) (row : Row) : Type 0 where
  pub parent : row.aggregation_child ≡ false
  pub clear : row.review ≡ false
  pub service : row.no_vlan_service_configuration ≡ false
  pub triggered : trigger_applicable policy row ≡ true

-- On a row that is no member of an aggregate, needs no review, has services, and triggers the rule, the interface rule is
-- compliant exactly where every required VLAN is on the interface; its missing VLANs are the required ones that are
-- not, once each and in ascending order, and it is not compliant exactly where there are some.
pub interface_verdict-Judges :
    (policy : VlanPolicy) (row : Row)
    → IsEvaluated policy row
    → Judges row.valid_interface_vlans policy.required_vlans (interface_verdict policy row)
unfolding interface_verdict
interface_verdict-Judges policy row e =
    subst (Judges row.valid_interface_vlans policy.required_vlans)
      (ground (arith, e.parent, e.clear, e.service, e.triggered))
      (verdict_of-Judges required_interface_vlans_present missing_interface_vlans
        row.valid_interface_vlans policy.required_vlans _ refl)

-- A row is found compliant or not compliant by the interface rule only if it is no member of an aggregate, needs no
-- review, has services, and triggers the rule.
pub interface_verdict-IsEvaluated :
    (policy : VlanPolicy) (row : Row)
    → ((interface_verdict policy row).status ≡ compliant)
      ⊎ ((interface_verdict policy row).status ≡ non_compliant)
    → IsEvaluated policy row
unfolding interface_verdict
interface_verdict-IsEvaluated policy row h = record {
  parent = ground (arith, h);
  clear = ground (arith, h);
  service = ground (arith, h);
  triggered = ground (arith, h);
}
