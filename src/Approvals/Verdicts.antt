-- ===== src/Approvals/Verdicts.antt =====
-- src/orbitflow/configuration/approvals.py: the verdict of a decision at a time, and the checks of `verify` on its record.
use orbit_flow_evo.Base.{
  ℕ, ◌≡◌, refl, ◌&&◌, Option, none, some, List, [], ◌∷◌, Result, ok, err, arith, leb, ltb,
  if◌then◌else◌,
}
use orbit_flow_evo.Base.Equality.{list_eq, list_beq, nat_eq, ◌==◌}
use orbit_flow_evo.Base.Texts.{Text, codes}
use orbit_flow_evo.Json.{Json, get}
use orbit_flow_evo.Approvals.{
  PlanError, Status, approved, rejected, expired, Decision, to_json, subscript,
}
use orbit_flow_evo.Approvals.Store.{check_record}

-- The latest of the decisions on a plan.
abbrev pub latest : Text → Option Decision → List Decision → Option Decision
latest digest found [] = found
latest digest found (d ∷ ds) = latest digest (if d.digest == digest then some d else found) ds

-- The verdict of a decision at a time.
abbrev pub judge_expiry : ℕ → Decision → Option ℕ → Result PlanError Json
judge_expiry now d none = err PlanError.wrong_type
judge_expiry now d (some expiry) =
    if leb d.issued_at now && ltb now expiry then ok (to_json d) else err PlanError.not_valid_now

abbrev pub judge_status : ℕ → Decision → Status → Result PlanError Json
judge_status now d approved = judge_expiry now d d.expires_at
judge_status now d _ = err PlanError.not_approved

abbrev pub judge : ℕ → Option Decision → Result PlanError Json
judge now none = err PlanError.unapproved
judge now (some d) = judge_status now d d.status

abbrev pub map_json : Option Decision → Option Json
map_json none = none
map_json (some d) = some (to_json d)

pub digest-to_json :
    (d : Decision) → subscript (to_json d) (codes "digest") ≡ ok (Json.text d.digest)
unfolding to_json get list_beq
digest-to_json d = refl

check_fields :
    (now : ℕ) (g : Text) (s : Status) (a : Text) (i : ℕ) (e : Option ℕ) (q : Text)
    → (let d : Decision = record {
      digest = g;
      status = s;
      actor = a;
      issued_at = i;
      expires_at = e;
      previous = q;
    } in
        check_record now (some (to_json d)) ≡ judge now (some d))
unfolding check_record to_json get list_beq
check_fields now g approved a i none q = refl
check_fields now g approved a i (some t) q = ground arith
check_fields now g rejected a i e q = refl
check_fields now g expired a i e q = refl

pub check_record-judge :
    (now : ℕ) (o : Option Decision) → check_record now (map_json o) ≡ judge now o
check_record-judge now none = unfold check_record in refl
check_record-judge now (some d) =
    check_fields now d.digest d.status d.actor d.issued_at d.expires_at d.previous
