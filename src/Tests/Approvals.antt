-- ===== src/Tests/Approvals.antt =====
-- Tests of the model of src/orbitflow/configuration/approvals.py, and its theorem at a concrete input.
use mathlib.Core.List.{append-nil}
use orbit_flow_evo.Base.{
  ◌≡◌, refl, sym, ap, ◌∙◌, true, false, none, some, List, [], ◌∷◌, ◌++◌, ok, err,
}
use orbit_flow_evo.Base.Equality.{list_eq, nat_eq, list_beq}
use orbit_flow_evo.Base.Texts.{
  Text, codes, strip, lstrip, is_space, is_alnum, is_digit, is_upper, is_lower,
}
use orbit_flow_evo.Json.{get}
use orbit_flow_evo.Tests.Codec.{write_json, read_json, read_json-write_json}
use orbit_flow_evo.Approvals.{
  PlanError, Platform, approved, rejected, to_json, Authority, label, check_row, read_rows,
}
use orbit_flow_evo.Approvals.Store.{
  Deciding, decide, verify, initialize, expiry_of, check_clock, prepare_row, last_match,
  check_record,
}
use orbit_flow_evo.Approvals.Chain.{IsFaithful}
use orbit_flow_evo.Approvals.Verdicts.{latest, judge}
use orbit_flow_evo.Approvals.Laws.{decide_all, verify-decide_all}

-- A signature that shows what was signed.
abbrev platform : Platform
platform = record {
  sign = λ key body. key ++ body;
  dumps = write_json;
  loads = read_json;
  is_secret = λ t. false;
}

faithful : IsFaithful platform
faithful = record {
  reads = λ d.
      ap read_json (sym (append-nil (write_json (to_json d))))
      ∙ read_json-write_json (to_json d) [];
}

abbrev key : Text
key = codes "0123456789abcdef0123456789abcdef"

abbrev approval : Deciding
approval = record {
  digest = codes "d1";
  status = approved;
  actor = codes "alice";
  now = 10;
  expires_at = some 50;
  token = key;
  commits = true;
}

abbrev rejection : Deciding
rejection = record approval { status = rejected; now = 20; expires_at = none }

-- The clock of this one is behind the last decision.
abbrev late : Deciding
late = record approval { now = 5 }

abbrev fresh : Authority
fresh = record { key = some key; decisions = some [] }

verify-decide_all_example :
    (let (a, ds) = decide_all platform (approval ∷ late ∷ rejection ∷ []) (fresh, []) in
      verify platform (codes "d1") 30 a ≡ judge 30 (latest (codes "d1") none ds))
verify-decide_all_example =
    verify-decide_all platform key faithful (approval ∷ late ∷ rejection ∷ []) (codes "d1") 30 refl

abbrev decided : List Deciding
decided = approval ∷ late ∷ rejection ∷ []

approved_first :
    (decide platform approval fresh).0
    ≡ ok (record {
      digest = codes "d1";
      status = approved;
      actor = codes "alice";
      issued_at = 10;
      expires_at = some 50;
      previous = [];
    })
unfolding decide prepare_row initialize label expiry_of check_clock read_rows strip lstrip is_space
    is_alnum is_digit is_upper is_lower list_beq to_json write_json
approved_first = refl

rejected_last :
    verify platform (codes "d1") 30 (decide_all platform decided (fresh, [])).0
    ≡ err PlanError.not_approved
unfolding decide_all decide prepare_row initialize label expiry_of check_clock check_row read_rows
    get strip lstrip is_space is_alnum is_digit is_upper is_lower list_beq to_json write_json
    read_json verify last_match check_record
rejected_last = refl
