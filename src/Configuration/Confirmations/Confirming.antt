-- ===== src/Configuration/Confirmations/Confirming.antt =====
-- `confirm` of src/orbitflow/configuration/execution.py, with the run of the device workers as a parameter.
use orbit_flow_evo.Base.{Bool, Option, none, some, if◌then◌else◌, Result, ok, err, ◌>>◌, guard}
use orbit_flow_evo.Base.Equality.{list_eq, nat_eq}
use orbit_flow_evo.Base.Texts.{Text}
use orbit_flow_evo.Configuration.Confirmations.{
  Payload, Table, update, set_state, set_run, ConfirmError, Files, claim, completed, interrupted,
  explicit_apply_required,
}

-- What a run of the device workers does: the path of its spool once it has one, and whether it returns.
pub record Execution : Type 0 where
  pub started : Option Text
  pub returned : Bool
  pub path : Text

pub data Confirmed : Type 0 where
  refused : ConfirmError → Confirmed
  run_raised : Confirmed
  ran : Text → Confirmed

unfoldable pub start_run : Text → Option Text → Table → Table
unfolding update
start_run r none table = table
start_run r (some path) table = update r (set_run path) table

unfoldable pub end_run : Text → Execution → Table → Confirmed × Table
unfolding update
end_run r e table =
    if e.returned
    then (ran e.path, update r (λ c. set_run e.path (set_state completed c)) table)
    else (run_raised, update r (set_state interrupted) table)

unfoldable pub confirm_claimed :
    Text → Execution → Table → Result ConfirmError (Payload × Table) → Confirmed × Table
unfolding start_run end_run
confirm_claimed r e table (err x) = (refused x, table)
confirm_claimed r e table (ok c) = end_run r e (start_run r e.started c.1)

-- `confirm`, when no other process writes between its transactions.
unfoldable pub confirm : Files → Bool → Text → Text → Execution → Table → Confirmed × Table
unfolding claim confirm_claimed
confirm f apply r d e table =
    confirm_claimed r e table (guard apply explicit_apply_required >> claim f r d table)
