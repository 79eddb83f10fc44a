-- ===== src/Tests/Confirmations.antt =====
-- Tests of the confirmations of src/orbitflow/configuration/execution.py.
use orbit_flow_evo.Base.{◌≡◌, refl, true, false, none, some, List, [], ◌∷◌, ok}
use orbit_flow_evo.Base.Equality.{list_eq, nat_eq, list_beq, Distinct}
use orbit_flow_evo.Base.Texts.{Text, codes}
use orbit_flow_evo.Configuration.Confirmations.{
  Payload, Confirmation, Files, Call, prepares, confirms, completes, awaiting_confirmation, prepare,
  run,
}
use orbit_flow_evo.Configuration.Confirmations.Confirming.{Execution, ran, confirm}
use orbit_flow_evo.Configuration.Confirmations.Laws.{claims, claims-Distinct}
use orbit_flow_evo.Configuration.Confirmations.Replay.{is_refused, confirm-is_refused}

abbrev files : Files
files = record {
  sha256 = λ text. text;
  is_symlink = λ name. false;
  load_plan = λ name. ok (codes "source");
  bulk_plan = λ plan. ok (codes "source");
}

abbrev payload : Payload
payload = record {
  summary = codes "summary";
  source_digest = codes "source";
  plan_file = none;
  plan = codes "plan";
}

abbrev reference : Text
reference = codes "00112233445566778899aabbccddeeff"

abbrev other_reference : Text
other_reference = codes "ffeeddccbbaa99887766554433221100"

abbrev digest : Text
digest = codes "summary"

abbrev row : Confirmation
row = record {
  reference = reference;
  digest = digest;
  payload = payload;
  state = awaiting_confirmation;
  run_path = [];
}

abbrev execution : Execution
execution = record { started = some (codes "runs/1"); returned = true; path = codes "runs/1" }

confirmed : (confirm files true reference digest execution (row ∷ [])).0 ≡ ran (codes "runs/1")
unfolding confirm list_beq
confirmed = refl

confirm-is_refused_example :
    (is_refused
        (confirm files true reference digest execution
          (run files (confirm files true reference digest execution (row ∷ [])).1 [])).0
      ≡ true)
    × ((confirm files true reference digest execution
          (run files (confirm files true reference digest execution (row ∷ [])).1 [])).1
        ≡ run files (confirm files true reference digest execution (row ∷ [])).1 [])
unfolding confirm list_beq
confirm-is_refused_example =
    confirm-is_refused files true true reference digest digest execution execution (row ∷ []) []
      refl

prepared : (prepare reference digest (codes "legacy") payload []).row ≡ some row
unfolding prepare list_beq
prepared = refl

abbrev calls : List Call
calls =
    prepares reference digest (codes "legacy") payload
    ∷ confirms reference digest
    ∷ confirms reference digest
    ∷ completes reference (codes "runs/1")
    ∷ confirms reference digest
    ∷ []

claimed_once : claims files [] calls ≡ reference ∷ []
unfolding claims list_beq
claimed_once = refl

claims-Distinct_example : Distinct (claims files [] calls)
claims-Distinct_example = claims-Distinct files [] calls
