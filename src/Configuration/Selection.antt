-- ===== src/Configuration/Selection.antt =====
-- The selection of `prepare` in src/orbitflow/configuration/execution.py: which requests of a plan are executed,
-- and why the others are skipped. What the evaluation of the decisions and the aggregation of the observed ports
-- say of a request is part of it.
pub mod Laws
use orbit_flow_evo.Base.{
  Bool, true, false, not, ◌&&◌, ◌||◌, Option, none, some, List, [], ◌∷◌, ◌++◌, all, if◌then◌else◌,
}
use orbit_flow_evo.Base.Equality.{contains, list_eq, list_beq, nat_eq, ◌==◌}
use orbit_flow_evo.Base.Texts.{Text, codes}

-- The functions of the templates.
pub data Function : Type 0 where
  vlan_database access_port trunk_port vlan_port evc interface_description : Function

pub record Request : Type 0 where
  pub row_id : Text
  pub family : Text
  pub function : Function
  pub decision : Text
  pub deployment_ready : Bool
  pub dependencies : List Text
  -- The port has an owner; the relationship to it is uncertain; the capture is incomplete.
  pub has_owner : Bool
  pub uncertain : Bool
  pub capture_incomplete : Bool

pub data Reason : Type 0 where
  unsupported_template blocked not_allow_on_child_port_channel ownership_requires_review
        dependency_not_executable :
      Reason
  not_approved : Text → Reason

abbrev pub supported : List Text
supported =
    codes "C3750X" ∷ codes "C3850X" ∷ codes "EdgeSwitch" ∷ codes "ME3600X" ∷ codes "ASR920" ∷ []

abbrev pub on_port : Function → Bool
on_port Function.access_port = true
on_port Function.trunk_port = true
on_port Function.vlan_port = true
on_port Function.evc = true
on_port _ = false

unfoldable pub ownership : Request → Option Reason
ownership r =
    if not (on_port r.function)
    then none
    else if r.has_owner
    then some not_allow_on_child_port_channel
    else if r.uncertain || r.capture_incomplete
    then some ownership_requires_review
    else none

unfoldable pub reason : Request → Option Reason
unfolding ownership list_beq
reason r =
    if not (contains supported r.family)
    then some unsupported_template
    else if not (r.decision == codes "Approve")
    then some (not_approved r.decision)
    else if not r.deployment_ready
    then some blocked
    else ownership r

pub record Skipped : Type 0 where
  pub request : Request
  pub reason : Reason

pub record Selection : Type 0 where
  pub executable : List Request
  pub skipped : List Skipped

unfoldable pub select_one : Option Reason → Request → Selection → Selection
select_one none r rest = record { executable = r ∷ rest.executable; skipped = rest.skipped }
select_one (some why) r rest = record {
  executable = rest.executable;
  skipped = record { request = r; reason = why } ∷ rest.skipped;
}

-- The requests without a reason, and the others.
unfoldable pub select : List Request → Selection
unfolding select_one reason
select [] = record { executable = []; skipped = [] }
select (r ∷ requests) = select_one (reason r) r (select requests)

-- `set(dependencies) <= ready`
unfoldable pub is_ready : List Text → Request → Bool
unfolding list_beq
is_ready ready r = all (contains ready) r.dependencies

-- The dependency closure, in order, over the rows that are executable already.
unfoldable pub closure : List Text → List Request → Selection
unfolding is_ready select_one
closure ready [] = record { executable = []; skipped = [] }
closure ready (r ∷ requests) =
    let more = select_one none r (closure (ready ++ r.row_id ∷ []) requests) in
    let fewer = select_one (some dependency_not_executable) r (closure ready requests) in
    if is_ready ready r then more else fewer

unfoldable pub prepare_selection : List Request → Selection
unfolding select closure
prepare_selection requests =
    let s = select requests in
    let c = closure [] s.executable in
    record { executable = c.executable; skipped = s.skipped ++ c.skipped }
