-- ===== src/Transport/Resources.antt =====
-- The resources that a connector opens, and the cleanup that attempts every close.
use orbit_flow_evo.Base.{ℕ, Bool, Option, none, some, List, [], ◌∷◌, any, keep, nat_beq}
use orbit_flow_evo.Transport.Failures.{Failure, Cause, no_cause, cause}

pub data Resource : Type 0 where
  proxy bastion channel target process client socket : Resource

abbrev pub tag : Resource → ℕ
tag proxy = 0
tag bastion = 1
tag channel = 2
tag target = 3
tag process = 4
tag client = 5
tag socket = 6

abbrev pub among : List Resource → Resource → Bool
among rs r = any (λ x. nat_beq (tag x) (tag r)) rs

-- What is raised: an `Exception`, or a `BaseException` that is none, such as an interrupt.
pub data Raised : Type 0 where
  exception : Failure → Raised
  interrupt : Raised

-- `raise … from exc`
abbrev pub from_raised : Raised → Cause
from_raised (exception f) = cause f
from_raised interrupt = no_cause

-- One step of a connector: the resource that it opens, if it opens one, and what it raises.
pub record Step : Type 0 where
  pub opens : Option Resource
  pub raises : Option Raised

abbrev pub call : Option Raised → Step
call raised = record { opens = none; raises = raised }

abbrev pub acquire : Resource → Option Raised → Step
acquire r raised = record { opens = some r; raises = raised }

-- Where a run of steps stopped: what was raised, and what is open, the latest first.
pub record Stopped : Type 0 where
  pub raised : Option Raised
  pub opened : List Resource

abbrev pub after_step : Option Resource → List Resource → List Resource
after_step none opened = opened
after_step (some r) opened = r ∷ opened

unfoldable pub run_steps : List Step → List Resource → Stopped
run_steps [] opened = record { raised = none; opened = opened }
run_steps (s ∷ steps) opened =
    let rest = run_steps steps (after_step s.opens opened) in
    elim s.raises [ none ↦ rest | some e ↦ record { raised = some e; opened = opened } ]

-- `_close_all`: of the named resources those that are open are closed, each of them whether or not
-- an earlier close raised.
pub record Closed : Type 0 where
  pub closed : List Resource
  pub failed : Bool

unfoldable pub close_all : (Resource → Bool) → List Resource → List Resource → Closed
close_all fails order opened =
    let rs = keep (among opened) order in record { closed = rs; failed = any fails rs }

-- What a connector leaves: what it raised, what it closed, and what is open.
pub record Outcome : Type 0 where
  pub raised : Option Raised
  pub closed : List Resource
  pub opened : List Resource

abbrev pub refused : Failure → Outcome
refused f = record { raised = some (exception f); closed = []; opened = [] }
