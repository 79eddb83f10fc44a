-- ===== src/Tests/Configuration.antt =====
-- Tests of the model of src/orbitflow/configuration/execution.py.
use orbit_flow_evo.Base.{◌≡◌, refl, true, false, none, List, [], ◌∷◌, ok, All}
use orbit_flow_evo.Base.Equality.{list_eq, nat_eq}
use orbit_flow_evo.Base.Texts.{Text, codes, is_nil}
use orbit_flow_evo.Interfaces.{Platform, canonical_interface_name}
use orbit_flow_evo.Configuration.Selection.{Function, Request, prepare_selection}
use orbit_flow_evo.Configuration.Selection.Laws.{
  IsClosed as ClosedRequests, Chosen, prepare_selection-IsClosed,
}
use orbit_flow_evo.Configuration.Stages.{Entry, template_stages, touch_beq}
use orbit_flow_evo.Configuration.Stages.Laws.{IsIndependent, template_stages-IsIndependent}
use orbit_flow_evo.Configuration.Worker.{
  Device, Status, returned, rejected, saved, backup, command, save,
}
use orbit_flow_evo.Configuration.Worker.Rows.{dependencies_met}
use orbit_flow_evo.Configuration.Worker.Run.{device_worker, verified_ids, row_ids}
use orbit_flow_evo.Configuration.Worker.Laws.{row_ids-device_worker}
use orbit_flow_evo.Configuration.Worker.Order.{IsJustified, device_worker-IsJustified}
use orbit_flow_evo.Configuration.Worker.Verified.{RowProved, device_worker-RowProved}
use orbit_flow_evo.Configuration.Worker.Closure.{IsClosed}
use orbit_flow_evo.Configuration.Worker.Progress.{Favourable, verified_ids-device_worker}

gigabit :
    canonical_interface_name Platform.cisco_ios (codes " Gi 1/0/1 ") true
    ≡ codes "gigabitethernet1/0/1"
unfolding canonical_interface_name
gigabit = refl

lag : canonical_interface_name Platform.ubiquiti_edgeswitch (codes "LAG  05") true ≡ codes "3/5"
unfolding canonical_interface_name
lag = refl

ethernet :
    canonical_interface_name Platform.huawei_vrp (codes "GE0/0/1") false
    ≡ codes "gigabitethernet0/0/1"
unfolding canonical_interface_name
ethernet = refl

abbrev database_entry : Text → Entry
database_entry rid = record {
  row_id = rid;
  template_id = codes "database";
  on_database = true;
  platform = Platform.cisco_ios;
  vlan_id = 10;
  source = [];
  resolved_target = [];
  dependencies = [];
  commands = codes "vlan 10" ∷ codes "exit" ∷ [];
}

abbrev vlan_entry : Entry
vlan_entry = database_entry (codes "r1")

abbrev other_vlan_entry : Entry
other_vlan_entry = record (database_entry (codes "r2")) {
  vlan_id = 20;
  commands = codes "vlan 20" ∷ [];
}

abbrev port_entry : Entry
port_entry = record {
  row_id = codes "r3";
  template_id = codes "port";
  on_database = false;
  platform = Platform.cisco_ios;
  vlan_id = 0;
  source = codes "Gi1/0/1";
  resolved_target = [];
  dependencies = codes "r1" ∷ [];
  commands = codes "interface Gi1/0/1" ∷ [];
}

abbrev entries : List Entry
entries = vlan_entry ∷ other_vlan_entry ∷ port_entry ∷ []

stages : template_stages entries ≡ (vlan_entry ∷ other_vlan_entry ∷ []) ∷ (port_entry ∷ []) ∷ []
unfolding template_stages touch_beq
stages = refl

template_stages-IsIndependent_example :
    All (λ s. (is_nil s ≡ false) × IsIndependent s) (template_stages entries)
template_stages-IsIndependent_example = template_stages-IsIndependent entries

abbrev good_device : Device
good_device = record {
  has_credentials = true;
  connect = none;
  open_shell = none;
  identify = none;
  identities_match = true;
  preflight = none;
  exec_at_start = true;
  collect_backup = none;
  write_backup = none;
  stage_session = λ n. none;
  stage_exec = λ n. true;
  stage_observe = λ n. none;
  stage_reliable = λ n. true;
  evidence = λ rid. none;
  check_target = λ rid. none;
  lacks_vlans = λ rid. false;
  execution_mode = λ rid i. none;
  respond = λ rid i. returned;
  exec_after_commands = λ rid. true;
  recovery_mode = λ rid i. none;
  recover = λ rid i. returned;
  exec_after_recovery = λ rid i. true;
  session_kept = λ rid. true;
  post_session = λ n. none;
  post_exec = λ n. true;
  post_observe = λ n. none;
  post_reliable = λ n. true;
  verify = λ rid. ok Status.verified;
  session_at_end = true;
  exec_at_end = true;
  save_configuration = ok (record { status = saved; explicit_error = false });
  close_session = none;
}

-- A device that rejects the first command of every row.
abbrev bad_device : Device
bad_device = record good_device { respond = λ rid i. rejected }

good_Favourable : Favourable good_device
good_Favourable = record {
  credentials = refl;
  connect = refl;
  shell = refl;
  identify = refl;
  identity = refl;
  preflight = refl;
  exec = refl;
  collected = refl;
  written = refl;
  session = λ n. refl;
  stage_exec = λ n. refl;
  observed = λ n. refl;
  reliable = λ n. refl;
  evidence = λ rid. refl;
  target = λ rid. refl;
  vlans = λ rid. refl;
  mode = λ rid i. refl;
  response = λ rid i. refl;
  back = λ rid. refl;
  post_session = λ n. refl;
  post_exec = λ n. refl;
  post_observed = λ n. refl;
  post_reliable = λ n. refl;
  verified = λ rid. refl;
  at_end = refl;
  closed = refl;
}

entries-IsClosed : IsClosed [] entries
unfolding dependencies_met
entries-IsClosed = (refl, (refl, (refl, tt)))

done :
    (device_worker good_device entries).log
    ≡ backup
      ∷ command (codes "r1") 1 (codes "vlan 10")
      ∷ command (codes "r1") 2 (codes "exit")
      ∷ command (codes "r2") 1 (codes "vlan 20")
      ∷ command (codes "r3") 1 (codes "interface Gi1/0/1")
      ∷ save
      ∷ []
unfolding device_worker template_stages touch_beq
done = refl

-- The port depends on a row that was rejected, so that nothing is sent for it.
rejected_rows :
    (device_worker bad_device entries).log
    ≡ backup
      ∷ command (codes "r1") 1 (codes "vlan 10")
      ∷ command (codes "r2") 1 (codes "vlan 20")
      ∷ save
      ∷ []
unfolding device_worker template_stages touch_beq
rejected_rows = refl

device_worker-IsJustified_example : IsJustified entries (device_worker good_device entries)
device_worker-IsJustified_example = device_worker-IsJustified good_device entries

device_worker-RowProved_example :
    All (RowProved good_device entries) (device_worker good_device entries).rows
device_worker-RowProved_example = device_worker-RowProved good_device entries

row_ids-device_worker_example :
    row_ids (device_worker bad_device entries).rows ≡ codes "r1" ∷ codes "r2" ∷ codes "r3" ∷ []
row_ids-device_worker_example = row_ids-device_worker bad_device entries

verified_ids-device_worker_example :
    verified_ids (device_worker good_device entries).rows
    ≡ codes "r1" ∷ codes "r2" ∷ codes "r3" ∷ []
verified_ids-device_worker_example =
    verified_ids-device_worker good_device good_Favourable entries entries-IsClosed

abbrev request : Text → List Text → Request
request rid dependencies = record {
  row_id = rid;
  family = codes "C3750X";
  function = Function.vlan_database;
  decision = codes "Approve";
  deployment_ready = true;
  dependencies = dependencies;
  has_owner = false;
  uncertain = false;
  capture_incomplete = false;
}

abbrev requests : List Request
requests =
    request (codes "a") []
    ∷ request (codes "b") (codes "c" ∷ [])
    ∷ request (codes "c") (codes "a" ∷ [])
    ∷ []

selected :
    (prepare_selection requests).executable
    ≡ request (codes "a") [] ∷ request (codes "c") (codes "a" ∷ []) ∷ []
unfolding prepare_selection
selected = refl

prepare_selection-IsClosed_example :
    ClosedRequests [] (prepare_selection requests).executable
    × All Chosen (prepare_selection requests).executable
prepare_selection-IsClosed_example = prepare_selection-IsClosed requests
