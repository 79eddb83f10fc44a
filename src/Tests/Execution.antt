-- ===== src/Tests/Execution.antt =====
-- Tests of the model of src/orbitflow/execution.py.
use mathlib.Core.List.{nil≢cons}
use mathlib.Core.Path.{sym}
use orbit_flow_evo.Base.{
  ℕ, ◌+◌, ◌≤◌, ◌≡◌, refl, none, some, [], ◌∷◌, String, Result, ok, err, arith, if◌then◌else◌,
  nat_beq,
}
use orbit_flow_evo.Execution.Defs.{
  DeviceOutcome, positions, sort_outcomes, State, initial, refill, here, there, invoke, deliver,
  Batch, one, more, Run, done, round, run_serially, concurrently,
}
use orbit_flow_evo.Execution.Ordering.{Executes-run_serially}
use orbit_flow_evo.Execution.Progress.{
  Reached, start, next_round, remaining, Rounds, no_round, then_round, Rounds-Run-exists,
}

-- The second of three devices fails.
abbrev work : ℕ → Result String ℕ
work p = if nat_beq p 2 then err "TunnelError" else ok (p + 100)

abbrev delivered : ℕ → ℕ → DeviceOutcome ℕ
delivered p v = record { position = p; value = some v; error_category = "" }

abbrev failed : ℕ → DeviceOutcome ℕ
failed p = record { position = p; value = none; error_category = "TunnelError" }

-- At a limit of two, the second device ends first, then the third, then the first.
abbrev state_0 : State ℕ
state_0 = record { next = 3; left = 1; pending = 1 ∷ 2 ∷ []; outcomes = [] }

abbrev state_1 : State ℕ
state_1 = record { next = 4; left = 0; pending = 1 ∷ 3 ∷ []; outcomes = failed 2 ∷ [] }

abbrev state_2 : State ℕ
state_2 = record {
  next = 4;
  left = 0;
  pending = [];
  outcomes = failed 2 ∷ delivered 3 103 ∷ delivered 1 101 ∷ [];
}

refilled_0 : refill 2 (initial 3) ≡ state_0
unfolding refill initial
refilled_0 = refl

batch_0 : Batch work state_0 (record state_0 { pending = 1 ∷ []; outcomes = failed 2 ∷ [] })
unfolding invoke
batch_0 = one (deliver 2 (there here))

batch_1 : Batch work state_1 state_2
unfolding invoke
batch_1 = more (one (deliver 3 (there here))) (deliver 1 here)

run : Run work 2 (refill 2 (initial 3)) state_2
unfolding refill initial
run = round (λ e. nil≢cons (sym e)) batch_0 (round (λ e. nil≢cons (sym e)) batch_1 (done refl))

sorted : sort_outcomes state_2.outcomes ≡ delivered 1 101 ∷ failed 2 ∷ delivered 3 103 ∷ []
unfolding sort_outcomes
sorted = refl

Executes-run_serially_example : sort_outcomes state_2.outcomes ≡ run_serially work (positions 1 3)
Executes-run_serially_example =
    Executes-run_serially work 2 3 (sort_outcomes state_2.outcomes) (omega arith)
      (concurrently (omega arith) run)

round_1-Reached : Reached work 2 3 state_1
unfolding refill initial
round_1-Reached = next_round start batch_0

round_1-Rounds : Rounds work 2 1 (refill 2 (initial 3)) state_1
unfolding refill initial
round_1-Rounds = then_round (λ e. nil≢cons (sym e)) batch_0 no_round

Rounds-Run-exists_example :
    (1 + remaining state_1 ≤ 3)
    × (u : State ℕ) × Run work 2 state_1 u
    × Run work 2 (refill 2 (initial 3)) u
    × (u.pending ≡ [])
    × (u.left ≡ 0)
Rounds-Run-exists_example = Rounds-Run-exists work 2 3 1 state_1 (omega arith) round_1-Rounds
