-- ===== src/Configuration/Worker/Outcomes.antt =====
-- How `worker` and `persist` of src/orbitflow/configuration/execution.py judge the report of a device.
use orbit_flow_evo.Base.{
  ◌≡◌, Bool, true, false, not, ◌||◌, Option, none, some, List, [], ◌∷◌, any, arith, if◌then◌else◌,
}
use orbit_flow_evo.Configuration.Worker.{
  Failure, Row, SaveStatus, save_unknown, is_verified, is_unknown,
}
use orbit_flow_evo.Configuration.Worker.Run.{Report}

pub data Outcome : Type 0 where
  completed failed unknown : Outcome

abbrev pub is_save_unknown : SaveStatus → Bool
is_save_unknown save_unknown = true
is_save_unknown _ = false

abbrev pub is_present : Option Failure → Bool
is_present none = false
is_present (some _) = true

abbrev pub unverified : Row → Bool
unverified row = not (is_verified row.status)

-- `timing['outcome']` of `worker`.
unfoldable pub timing_outcome : Report → Outcome
timing_outcome r =
    if is_save_unknown r.save.status || any (λ row. is_unknown row.status) r.rows
    then unknown
    else if is_present r.failure || r.save.explicit_error || any unverified r.rows
    then failed
    else completed

-- `failed` of `persist`, of an outcome without an error of its own.
unfoldable pub persisted_failed : Report → Bool
persisted_failed r =
    is_present r.failure
    || is_save_unknown r.save.status
    || r.save.explicit_error
    || any unverified r.rows

abbrev pub is_completed : Outcome → Bool
is_completed completed = true
is_completed _ = false

unknown_row :
    (rows : List Row) → any (λ row. is_unknown row.status) rows ≡ true → any unverified rows ≡ true
unknown_row [] h = h
unknown_row (row ∷ rows) h = ground (arith, unknown_row rows)

-- The result of a device is recorded as failed exactly when the timing of its run is not Completed.
pub persisted_failed-timing_outcome :
    (r : Report) → persisted_failed r ≡ not (is_completed (timing_outcome r))
unfolding persisted_failed timing_outcome
persisted_failed-timing_outcome r = ground (arith, unknown_row r.rows)
