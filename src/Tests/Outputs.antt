-- ===== src/Tests/Outputs.antt =====
-- Tests of the output, the cleanup and the journal of src/orbitflow/result_spool.py, and their theorems at concrete inputs.
use orbit_flow_evo.Base.{ℕ, ◌≡◌, refl, true, false, none, List, [], ◌∷◌, map, ok, err, length}
use orbit_flow_evo.Base.Equality.{list_eq, nat_eq, list_beq}
use orbit_flow_evo.Base.Texts.{Text, codes}
use orbit_flow_evo.Execution.Defs.{positions}
use orbit_flow_evo.Tests.Spool.{
  codec, keep_text, faithful, storing, failing, run, collecting_two, new_IsAccount, collected_two,
}
use orbit_flow_evo.Spool.{Run, Manifest, SpoolError, Status, new_manifest}
use orbit_flow_evo.Spool.Retry.{Attempt, permission_retry, retry_from}
use orbit_flow_evo.Spool.Safe.{Value, ValueFields}
use orbit_flow_evo.Spool.Recorded.{IsAccount}
use orbit_flow_evo.Spool.Collection.{collection}
use orbit_flow_evo.Spool.Collection.Endings.{IsCollected}
use orbit_flow_evo.Spool.Collection.Laws.{collection-IsCollected}
use orbit_flow_evo.Spool.Consumption.{Consuming, consume}
use orbit_flow_evo.Spool.Consumption.Laws.{IsOutput, consume-IsOutput}
use orbit_flow_evo.Spool.Consumption.Complete.{Succeeds, IsGiven}
use orbit_flow_evo.Spool.Lifecycle.{consume_run, ending, consume_run-gone}
use orbit_flow_evo.Spool.Cleanup.{
  outcome_of, Entry, Kind, Item, Removing, Left, survey, recognize, remove, remove_run,
}
use orbit_flow_evo.Spool.Cleanup.Laws.{IsRemoval, remove-IsRemoval}
use orbit_flow_evo.Spool.Journal
use orbit_flow_evo.Spool.Journal.Laws.{append_all-recorded}

abbrev two : Run
two = (collection codec keep_text collecting_two run).1

abbrev count_rows : Consuming ℕ
count_rows = record {
  cleanup = true;
  allow_partial = false;
  free = true;
  healthy = true;
  consumer = λ shown. ok (length shown.rows);
  starting = storing;
  finishing = storing;
  failing = failing;
}

two_facts :
    IsAccount codec two.metadata two.rows
    × (two.metadata.target_count ≡ 2)
    × (two.file.cleanup_started ≡ false)
    × IsCollected 2 two
two_facts =
    let facts =
      collection-IsCollected codec keep_text 2 faithful collecting_two run new_IsAccount refl refl
        refl in
    (facts.0, facts.1, facts.3, facts.4 collected_two)

storing_Succeeds : Succeeds storing
storing_Succeeds = record {
  commits = refl;
  writes = refl;
  replaces = unfold permission_retry retry_from in refl;
}

consume-IsOutput_example :
    (let (r, run') = consume codec count_rows two in
      IsAccount codec run'.metadata run'.rows
      × (run'.rows ≡ two.rows)
      × ((a : ℕ)
          → r ≡ ok a
          → IsOutput count_rows (record two { manifest = two.metadata }) run' a
            × (false ≡ false → length two.rows ≡ 2)))
consume-IsOutput_example =
    consume-IsOutput codec 2 count_rows two two_facts.0 two_facts.1 two_facts.2

abbrev removing : Removing
removing = record {
  before = none;
  links = false;
  free = true;
  write = λ i. Attempt.done;
  delete = λ step i. Attempt.done;
  unlink = λ i. Attempt.done;
  rmdir = λ i. Attempt.done;
  rewrite = λ i. Attempt.done;
}

abbrev regular : Text → Entry
regular name = record { name = name; linked = false; kind = Kind.regular }

abbrev entries : List Entry
entries = regular (codes "manifest.json") ∷ regular (codes "r.db") ∷ regular (codes ".lock") ∷ []

abbrev consumed_manifest : Manifest
consumed_manifest = let m = new_manifest (codes "run") 2 9 in record m { status = Status.consumed }

surveyed : survey entries ≡ ok ([], Item.file (codes "r.db") ∷ [])
unfolding survey recognize list_beq
surveyed = refl

-- A file that the run does not write keeps everything.
abbrev foreign : List Entry
foreign = regular (codes "notes.txt") ∷ entries

foreign_kept : remove removing foreign consumed_manifest ≡ (err SpoolError.refused, Left.untouched)
unfolding remove remove_run survey recognize list_beq
foreign_kept = refl

remove-IsRemoval_example :
    IsRemoval removing foreign consumed_manifest (remove removing foreign consumed_manifest)
remove-IsRemoval_example = remove-IsRemoval removing foreign consumed_manifest

done_Succeeds : outcome_of (λ i. Attempt.done) ≡ Attempt.done
done_Succeeds = unfold permission_retry retry_from in refl

consume_run-gone_example :
    (shown : Run) × IsGiven two shown
    × (consume_run codec count_rows removing entries two ≡ ending (ok (length shown.rows)))
consume_run-gone_example =
    consume_run-gone codec 2 count_rows removing entries ([], Item.file (codes "r.db") ∷ []) two
      two_facts.0 two_facts.1 two_facts.3 two_facts.2 refl refl refl storing_Succeeds
      storing_Succeeds refl refl refl surveyed done_Succeeds (λ i. done_Succeeds) done_Succeeds
      done_Succeeds

abbrev event : Text → Journal.Append
event id = record {
  value = Value.object (ValueFields.field (codes "row_id") (Value.text id) ValueFields.end);
  stages = true;
  start = 4096;
  commits = true;
}

abbrev refused_event : Journal.Append
refused_event = record { value = Value.opaque; stages = true; start = 4096; commits = true }

abbrev events : List Journal.Append
events = event (codes "r1") ∷ refused_event ∷ event (codes "r2") ∷ []

append_all-recorded_example :
    (let j = Journal.append_all codec keep_text events Journal.empty in
      (map Journal.content j.events ≡ Journal.recorded codec keep_text events)
      × (map (λ e. e.position) j.events ≡ positions 1 (length j.events)))
append_all-recorded_example = append_all-recorded codec keep_text events
