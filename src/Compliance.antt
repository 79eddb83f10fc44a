-- ===== src/Compliance.antt =====
-- src/orbitflow/compliance/vlan.py: the verdicts of the two rules of a policy, on the facts that a family's
-- resolver has given.
pub mod Laws
use orbit_flow_evo.Base.{
  ℕ, Bool, true, false, not, ◌&&◌, ◌||◌, Option, none, some, List, [], ◌∷◌, any, all, keep, map,
  ltb, if◌then◌else◌, nat_beq,
}
use orbit_flow_evo.Base.Equality.{list_eq, nat_eq, ◌==◌, contains}
use orbit_flow_evo.Base.Texts.{Text, codes, decimal, is_nil}
use orbit_flow_evo.Policy.{VlanPolicy}

pub data Status : Type 0 where
  compliant non_compliant unable_to_assess not_applicable : Status

pub data Health : Type 0 where
  healthy wrong_configuration not_assessed : Health

-- The reasons; the owner of an aggregate's member stands in the text of its reason.
pub data Reason : Type 0 where
  vlan_collection_unavailable unsupported_or_uncertain_family : Reason
  saved_configuration_evidence_unavailable : Reason
  missing_database_vlans required_database_vlans_present : Reason
  evaluation_owned_by : Text → Reason
  ambiguous_or_unavailable_interface_facts no_vlan_service_configuration : Reason
  access_excluded signature_not_matched : Reason
  missing_interface_vlans required_interface_vlans_present : Reason

pub record Verdict : Type 0 where
  pub status : Status
  pub reason : Reason
  pub missing : List ℕ

-- `sorted(set(...))`
unfoldable pub add_sorted : ℕ → List ℕ → List ℕ
add_sorted n [] = n ∷ []
add_sorted n (m ∷ ms) =
    let rest = add_sorted n ms in
    if nat_beq n m then m ∷ ms else if ltb n m then n ∷ m ∷ ms else m ∷ rest

unfoldable pub sort_set : List ℕ → List ℕ
unfolding add_sorted
sort_set [] = []
sort_set (n ∷ ns) = add_sorted n (sort_set ns)

-- `sorted(set(required) - set(present))`
unfoldable pub missing_from : List ℕ → List ℕ → List ℕ
unfolding sort_set
missing_from present required = sort_set (keep (λ n. not (contains present n)) required)

-- What the evaluation has: whether the collection gave VLANs and a context, whether the family has
-- a resolver, and whether the saved configuration was collected.
pub record Evidence : Type 0 where
  pub collected : Bool
  pub supported : Bool
  pub saved : Bool

-- `unavailable`
unfoldable pub unavailable : Evidence → Option Reason
unavailable e =
    if not e.collected
    then some vlan_collection_unavailable
    else if not e.supported
    then some unsupported_or_uncertain_family
    else if not e.saved
    then some saved_configuration_evidence_unavailable
    else none

abbrev pub not_assessable : Reason → Verdict
not_assessable reason = record { status = unable_to_assess; reason = reason; missing = [] }

abbrev pub informational : List Text
informational =
    map codes
      ("CONFIG_ONLY_INTERFACE" ∷ "INTERFACE_NOT_IN_CONFIG" ∷ "EXCLUDED_VLAN_TAGGING_INACTIVE" ∷ [])

-- The health that `emit` reports, of the codes of the configuration findings, if anything was observed.
unfoldable pub health : Option (List Text) → Health
health none = not_assessed
health (some problems) =
    if any (λ code. not (contains informational code)) problems
    then wrong_configuration
    else healthy

abbrev pub required_database_vlans : VlanPolicy → List ℕ
required_database_vlans policy = map (decimal 0) policy.required_domains

-- The verdict on what is missing, with the reason where nothing is and where something is.
abbrev pub verdict_of : Reason → Reason → List ℕ → Verdict
verdict_of present absent [] = record { status = compliant; reason = present; missing = [] }
verdict_of present absent (m ∷ ms) = record {
  status = non_compliant;
  reason = absent;
  missing = m ∷ ms;
}

-- The database rule, over the valid VLANs of the device's database.
unfoldable pub database_verdict : VlanPolicy → List ℕ → Verdict
unfolding missing_from
database_verdict policy valid =
    verdict_of required_database_vlans_present missing_database_vlans
      (missing_from valid (required_database_vlans policy))

-- The facts of one row that the interface rule reads.
pub record Row : Type 0 where
  pub valid_interface_vlans : List ℕ
  pub interface_type : Text
  pub audit_valid_tagged_subset : Bool
  pub aggregation_child : Bool
  pub review : Bool
  pub no_vlan_service_configuration : Bool
  pub configuration_owner : Text

abbrev pub is_audited : Text → Bool
is_audited t = t == codes "trunk" || (t == codes "evc" || t == codes "hybrid")

-- `trigger`: all of one list and one of the other.
unfoldable pub trigger : VlanPolicy → List ℕ → Bool
trigger policy tags = all (contains tags) policy.match_all && any (contains tags) policy.match_any

-- `trigger_applicable`, before the branch for members of aggregates.
unfoldable pub trigger_applicable : VlanPolicy → Row → Bool
unfolding trigger
trigger_applicable policy row =
    trigger policy row.valid_interface_vlans
    && (is_audited row.interface_type || row.audit_valid_tagged_subset)

abbrev pub does_not_apply : Reason → Verdict
does_not_apply reason = record { status = not_applicable; reason = reason; missing = [] }

-- The interface rule on one row.
unfoldable pub interface_verdict : VlanPolicy → Row → Verdict
unfolding trigger_applicable missing_from
interface_verdict policy row =
    if row.aggregation_child
    then does_not_apply (evaluation_owned_by row.configuration_owner)
    else if row.review
    then not_assessable ambiguous_or_unavailable_interface_facts
    else if row.no_vlan_service_configuration
    then does_not_apply no_vlan_service_configuration
    else if not (trigger_applicable policy row)
    then does_not_apply
        (if row.interface_type == codes "access" then access_excluded else signature_not_matched)
    else verdict_of required_interface_vlans_present missing_interface_vlans
        (missing_from row.valid_interface_vlans policy.required_vlans)
