-- ===== src/Tests/Spool.antt =====
-- Tests of the model of src/orbitflow/result_spool.py, and its theorems at concrete inputs.
use mathlib.Core.List.{append-nil}
use orbit_flow_evo.Base.{
  ℕ, zero, suc, ◌≤◌, ◌≡◌, ◌≢◌, ◌⊎◌, refl, true, false, none, some, List, [], ◌∷◌, ok, err, length,
  keep, arith,
}
use orbit_flow_evo.Base.Equality.{list_eq, nat_eq, list_beq}
use orbit_flow_evo.Base.Texts.{Text, codes}
use orbit_flow_evo.Json.{Json, Fields}
use orbit_flow_evo.Tests.Codec.{write_json, read_json, read_json-write_json}
use orbit_flow_evo.Spool.{Status, Run, Row, SpoolError, create, new_manifest, insert_row}
use orbit_flow_evo.Spool.Retry.{Attempt, Storing, permission_retry, set_state, publish, retry_from}
use orbit_flow_evo.Spool.Retry.Laws.{EndsAt, permission_retry-EndsAt}
use orbit_flow_evo.Spool.Safe.{Value, ValueFields, safe, assign}
use orbit_flow_evo.Spool.Sanitized.{IsSanitized, Instants, safe-IsSanitized}
use orbit_flow_evo.Spool.Append.{
  Codec, Append, append, append_all, chosen, envelope_of, row_positions, staged, prepare, validate,
  stage, stage_chunks, envelope, commit,
}
use orbit_flow_evo.Spool.Staged.{IsFaithful}
use orbit_flow_evo.Spool.Recorded.{IsAccount, Ascending}
use orbit_flow_evo.Spool.Readback.{append-get_record}
use orbit_flow_evo.Spool.Index.{Query, identifiers, selects, get_record, fetch}
use orbit_flow_evo.Spool.Index.Paging.{identifiers_complete}
use orbit_flow_evo.Spool.Collection.{Collecting, collection, collect, leave, interrupt}
use orbit_flow_evo.Spool.Collection.Endings.{IsCollected}
use orbit_flow_evo.Spool.Collection.Laws.{collection-IsCollected}
use orbit_flow_evo.Spool.Collection.Errors.{append-error}

abbrev pub codec : Codec
codec = record { iterencode = λ j. write_json j ∷ []; completes = λ j. true; loads = read_json }

pub faithful : IsFaithful codec
faithful = record {
  loads_staged =
      λ j h c. unfold staged in rw (append-nil (write_json j)) (read_json-write_json j (10 ∷ []));
}

abbrev pub keep_text : Text → Text
keep_text t = t

abbrev pub storing : Storing
storing = record { now = 5; commits = true; writes = true; replaces = λ i. Attempt.done }

abbrev pub failing : Storing
failing = record { now = 6; commits = false; writes = true; replaces = λ i. Attempt.done }

abbrev call : ℕ → Text → Append
call position category = record {
  thread = 7;
  position = Json.integer position;
  error_category = category;
  value = Value.object (ValueFields.field (codes "a") (Value.integer 3) ValueFields.end);
  payload = none;
  target = codes "10.0.0.1";
  failed = false;
  completed_at = codes "t";
  stages = true;
  start = 4096;
  commits = true;
  storing = storing;
}

abbrev pub run : Run
run = create (codes "run") 2 0

abbrev pub collecting_two : Collecting
collecting_two = record {
  thread = 7;
  free = true;
  connects = true;
  appends = call 2 [] ∷ call 1 (codes "timeout") ∷ [];
  body_raises = false;
  entering = storing;
  leaving = storing;
  failing = storing;
}

pub collected_two : (collection codec keep_text collecting_two run).0 ≡ ok tt
unfolding collection collect append_all append interrupt leave set_state publish permission_retry
    retry_from prepare validate stage stage_chunks staged envelope commit insert_row safe write_json
collected_two = refl

two_positions : row_positions (collection codec keep_text collecting_two run).1.rows ≡ 1 ∷ 2 ∷ []
unfolding collection collect append_all append interrupt leave set_state publish permission_retry
    retry_from prepare validate stage stage_chunks staged envelope commit insert_row safe write_json
two_positions = refl

abbrev collecting_one : Collecting
collecting_one = record collecting_two { appends = call 2 [] ∷ [] }

incomplete_one : (collection codec keep_text collecting_one run).0 ≡ err SpoolError.incomplete
unfolding collection collect append_all append interrupt leave set_state publish permission_retry
    retry_from prepare validate stage stage_chunks staged envelope commit insert_row safe write_json
incomplete_one = refl

pub new_IsAccount : IsAccount codec (new_manifest (codes "run") 2 0) []
new_IsAccount = record {
  ascending = tt;
  completed = refl;
  failed = refl;
  fresh = λ h. (refl, refl);
  complete = λ h. cc;
}

collection-IsCollected_example :
    (let (r, run') = collection codec keep_text collecting_two run in
      IsAccount codec run'.metadata run'.rows
      × (run'.metadata.target_count ≡ 2)
      × (run'.metadata.cleanup_started ≡ false)
      × (run'.file.cleanup_started ≡ false)
      × (r ≡ ok tt → IsCollected 2 run'))
collection-IsCollected_example =
    collection-IsCollected codec keep_text 2 faithful collecting_two run new_IsAccount refl refl
      refl

-- The run while its collection is open.
abbrev open_run : Run
open_run =
    let m = run.manifest in
    record run {
      manifest = record m { status = Status.collecting };
      metadata = record m { status = Status.collecting };
      writer = some 7;
    }

appended : (append codec keep_text (call 2 []) open_run).0 ≡ ok tt
unfolding append set_state publish permission_retry retry_from prepare validate stage stage_chunks
    staged envelope commit insert_row safe write_json
appended = refl

append-get_record_example :
    (p : ℕ) × (payload : Json) × (Json.integer 2 ≡ Json.integer p)
    × (safe keep_text (chosen none (call 2 []).value) ≡ ok payload)
    × (get_record codec (append codec keep_text (call 2 []) open_run).1 p
        ≡ ok (envelope_of codec keep_text (call 2 []) open_run p payload))
    × ((q : ℕ)
        → p ≢ q
        → get_record codec (append codec keep_text (call 2 []) open_run).1 q
          ≡ get_record codec open_run q)
append-get_record_example = append-get_record codec keep_text (call 2 []) open_run faithful appended

-- A transaction that fails stops the collection.
abbrev lost_call : Append
lost_call = let a = call 2 [] in record a { commits = false }

lost : (append codec keep_text lost_call open_run).0 ≡ err SpoolError.storage
unfolding append set_state publish permission_retry retry_from prepare validate stage stage_chunks
    staged envelope commit insert_row safe write_json
lost = refl

append-error_example :
    ((append codec keep_text lost_call open_run).1 ≡ open_run)
    ⊎ ((later : List Append)
        → append_all codec keep_text later (append codec keep_text lost_call open_run).1
          ≡ (append codec keep_text lost_call open_run).1)
append-error_example = append-error codec keep_text lost_call open_run SpoolError.storage lost

abbrev row : ℕ → Text → Row
row p t = record { position = p; target = t; stored = [] }

abbrev rows : List Row
rows = row 1 (codes "a") ∷ row 2 (codes "b") ∷ row 4 (codes "a") ∷ row 5 (codes "a") ∷ []

abbrev of_a : Query
of_a = record { positions = none; target = some (codes "a") }

rows_Ascending : Ascending 1 5 rows
rows_Ascending = (
  omega arith,
  omega arith,
  (omega arith, omega arith, (omega arith, omega arith, (omega arith, omega arith, tt))),
)

batches : identifiers 2 of_a rows 5 0 ≡ some (1 ∷ 4 ∷ 5 ∷ [])
unfolding identifiers fetch list_beq
batches = refl

identifiers_complete_example :
    identifiers 2 of_a rows 5 0 ≡ some (row_positions (keep (selects of_a) rows))
identifiers_complete_example = identifiers_complete 1 of_a rows 5 rows_Ascending

-- Two denials, and then a success.
abbrev busy : ℕ → Attempt
busy zero = Attempt.denied
busy (suc zero) = Attempt.denied
busy _ = Attempt.done

slept_twice : (permission_retry busy).slept ≡ 100 ∷ 200 ∷ []
unfolding permission_retry retry_from
slept_twice = refl

permission_retry-EndsAt_example : EndsAt 3 700 busy 0 (permission_retry busy)
permission_retry-EndsAt_example = permission_retry-EndsAt busy

abbrev redact : Text → Text
redact t = codes "***"

abbrev payload_of_two : Value
payload_of_two = Value.object (
    ValueFields.field (codes "password") (Value.text (codes "x"))
      (ValueFields.field (codes "at") (Value.instant (codes "2026")) ValueFields.end))

abbrev redacted : Json
redacted = Json.object (Fields.field (codes "***") (Json.text (codes "2026")) Fields.end)

redacted_payload : safe redact payload_of_two ≡ ok redacted
unfolding safe assign list_beq
redacted_payload = refl

abbrev IsShort : Text → Type 0
IsShort t = length t ≤ 4

safe-IsSanitized_example : IsSanitized IsShort redacted
safe-IsSanitized_example =
    safe-IsSanitized IsShort redact (λ t. omega arith) payload_of_two redacted
      (unfold Instants in (tt, (omega arith, tt))) redacted_payload
