-- ===== src/Tests/Transport.antt =====
-- Tests of the models of src/orbitflow/transport/.
use orbit_flow_evo.Base.{
  ℕ, zero, suc, ◌≡◌, ◌↔◌, refl, true, false, Option, none, some, List, [], ◌∷◌, any,
}
use orbit_flow_evo.Base.Texts.{codes}
use orbit_flow_evo.Transport.Failures.{
  Failure, plain, os_error, no_valid_connections, wrapped, no_cause, cause, nil, cons, timeout,
  other, connection_cleanup, tunnel_timeout, device_connection, retryable, Transient, retryable_iff,
}
use orbit_flow_evo.Transport.Pacing.{Pacer, Caller, admissions, Spaced, admissions-Spaced}
use orbit_flow_evo.Transport.Authentication.{
  SshFailure, lost_connection, rejected, Client, connect_target,
}
use orbit_flow_evo.Transport.Authentication.Laws.{
  OnlyPasswords, may_retry, connect_target-OnlyPasswords,
}
use orbit_flow_evo.Transport.Resources.{
  proxy, bastion, channel, target, process, client, socket, Raised, exception, run_steps,
}
use orbit_flow_evo.Transport.Linux.{LinuxHost, connect_linux, all_opened, connect_linux-closed}
use orbit_flow_evo.Transport.Windows.{
  WindowsHost, port_refused, connected_alive, survives, connect_windows, close_fails, forward_steps,
  in_dependency_order, connect_windows-closed,
}
use orbit_flow_evo.Transport.Connect.{start_slot, attempt, connect_device, connect_device-cleanup}

-- A device error whose cause is that every address timed out.
abbrev unreachable : Failure
unreachable =
    wrapped device_connection
      (cause (no_valid_connections (cons (os_error 110) (cons (os_error 111) nil))))

unreachable-retryable : retryable unreachable ≡ true
unfolding retryable
unreachable-retryable = refl

retryable_iff_example : (retryable unreachable ≡ true) ↔ Transient unreachable
retryable_iff_example = retryable_iff unreachable

abbrev pacer : Pacer
pacer = record { interval = 10; last = none }

abbrev callers : List Caller
callers =
    record { gap = 0; late = 1 } ∷ record { gap = 2; late = 0 } ∷ record { gap = 30; late = 0 } ∷ []

paced : admissions pacer 5 callers ≡ 6 ∷ 16 ∷ 46 ∷ []
unfolding admissions
paced = refl

admissions-Spaced_example : Spaced 10 5 (admissions pacer 5 callers)
admissions-Spaced_example = admissions-Spaced pacer 5 callers refl

abbrev asking : Client
asking = record {
  connect = rejected (some ("publickey" ∷ "keyboard-interactive" ∷ []));
  active = true;
  rounds = (codes "Password: " ∷ []) ∷ (codes "One-time code: " ∷ []) ∷ [];
  interactive = none;
}

asked : (connect_target asking (some (codes "pw"))).interactive ≡ some ((codes "pw" ∷ []) ∷ [])
unfolding connect_target
asked = refl

connect_target-OnlyPasswords_example :
    OnlyPasswords ((codes "pw" ∷ []) ∷ []) asking.rounds
    × (true ≡ true)
    × (may_retry asking.connect ≡ true)
connect_target-OnlyPasswords_example =
    connect_target-OnlyPasswords asking (some (codes "pw")) ((codes "pw" ∷ []) ∷ []) asked

abbrev lost : SshFailure
lost = record {
  no_existing_session = true;
  frames = false ∷ true ∷ [];
  transport = some lost_connection;
  failure = plain other;
}

-- The bastion connects, and nothing fails.
abbrev reachable : LinuxHost
reachable = record {
  has_identity = true;
  has_tsh = true;
  load_key = none;
  proxy_command = none;
  bastion_client = none;
  bastion_policy = none;
  bastion_connect = none;
  get_transport = none;
  transport_active = true;
  open_channel = none;
  target_client = none;
  target_policy = none;
  connect_target = none;
  close_fails = λ r. false;
}

-- The target times out.
abbrev silent : LinuxHost
silent = record reachable { connect_target = some (exception (plain timeout)) }

-- The target times out, and a close of the cleanup raises.
abbrev stuck : LinuxHost
stuck = record silent { close_fails = λ r. true }

silent_raised :
    (connect_linux silent).raised
    ≡ some (exception (wrapped device_connection (cause (plain timeout))))
unfolding connect_linux
silent_raised = refl

silent_closed : (connect_linux silent).closed ≡ target ∷ channel ∷ bastion ∷ proxy ∷ []
unfolding connect_linux
silent_closed = refl

connect_linux-closed_example : (connect_linux silent).closed ≡ all_opened silent
connect_linux-closed_example =
    connect_linux-closed silent (exception (wrapped device_connection (cause (plain timeout)))) refl
      refl silent_raised

reachable_returns : (connect_linux reachable).raised ≡ none
unfolding connect_linux
reachable_returns = refl

stuck_close : any stuck.close_fails (connect_linux stuck).closed ≡ true
unfolding connect_linux
stuck_close = refl

abbrev stuck_connector : ℕ → Option Raised
stuck_connector n = (connect_linux stuck).raised

connect_device-cleanup_example :
    (connect_device true stuck_connector (some "enable")).actions ≡ start_slot ∷ attempt ∷ []
connect_device-cleanup_example =
    connect_device-cleanup stuck stuck_connector (some "enable") refl stuck_close

-- The first attempt times out, and the second one connects.
abbrev second_time : ℕ → Option Raised
second_time zero = some (exception (wrapped tunnel_timeout no_cause))
second_time (suc n) = none

-- The port opens, the target rejects, and the process survives both signals.
abbrev clinging : WindowsHost
clinging = record {
  has_tsh = true;
  start_error = none;
  ssh_client = none;
  policy = none;
  rounds = port_refused ∷ connected_alive ∷ [];
  connect_target = some (exception (plain other));
  client_close_fails = false;
  socket_close_fails = false;
  process_state = survives;
}

clinging_raised : (connect_windows clinging).raised ≡ some (exception (plain connection_cleanup))
unfolding connect_windows
clinging_raised = refl

clinging_closed : (connect_windows clinging).closed ≡ client ∷ socket ∷ process ∷ []
unfolding connect_windows
clinging_closed = refl

connect_windows-closed_example :
    (connect_windows clinging).closed
    ≡ in_dependency_order (run_steps (forward_steps clinging) (process ∷ [])).opened
connect_windows-closed_example =
    connect_windows-closed clinging (exception (plain connection_cleanup)) refl refl clinging_raised

process_survives : any (close_fails clinging) (connect_windows clinging).closed ≡ true
unfolding connect_windows
process_survives = refl
