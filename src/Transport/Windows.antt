-- ===== src/Transport/Windows.antt =====
-- transport/windows.py: the connector over a local forward of `tsh`. The rounds of the wait for the
-- forwarded port are those that begin before the deadline; what each call answers is a parameter.
use orbit_flow_evo.Base.{
  ◌≡◌, Bool, true, false, not, Option, none, some, List, [], ◌∷◌, any, arith, if◌then◌else◌,
}
use orbit_flow_evo.Transport.Failures.{
  Failure, cause, no_cause, plain, wrapped, connection_cleanup, teleport, tunnel, tunnel_timeout,
}
use orbit_flow_evo.Transport.Resources.{
  Resource, process, client, socket, Raised, exception, Step, call, acquire, run_steps, close_all,
  Outcome, refused,
}
use orbit_flow_evo.Transport.Linux.{device_failed}

-- One round of `_open_forwarded_socket`: the process has exited before it, the port refuses, or a
-- socket is connected, and the process then lives or has exited; the close of that socket is taken to
-- succeed.
pub data Round : Type 0 where
  exited port_refused connected_alive connected_exited : Round

unfoldable pub open_forwarded_socket : List Round → Option Raised
open_forwarded_socket [] = some (exception (wrapped tunnel_timeout no_cause))
open_forwarded_socket (exited ∷ rounds) = some (exception (wrapped tunnel no_cause))
open_forwarded_socket (port_refused ∷ rounds) = open_forwarded_socket rounds
open_forwarded_socket (connected_alive ∷ rounds) = none
open_forwarded_socket (connected_exited ∷ rounds) = some (exception (wrapped tunnel no_cause))

-- What `_stop_process` meets: an exited process, one that ends when it is told to, one that has to
-- be killed, or one that survives that too.
pub data ProcessState : Type 0 where
  gone ends killed survives : ProcessState

pub data Signal : Type 0 where
  terminate kill : Signal

-- The signals that are sent, and whether the last wait timed out.
unfoldable pub stop_process : ProcessState → List Signal × Bool
stop_process gone = ([], false)
stop_process ends = (terminate ∷ [], false)
stop_process killed = (terminate ∷ kill ∷ [], false)
stop_process survives = (terminate ∷ kill ∷ [], true)

pub record WindowsHost : Type 0 where
  pub has_tsh : Bool
  -- The `OSError` of `Popen`, if it raises one.
  pub start_error : Option Failure
  pub ssh_client : Option Raised
  pub policy : Option Raised
  pub rounds : List Round
  pub connect_target : Option Raised
  pub client_close_fails : Bool
  pub socket_close_fails : Bool
  pub process_state : ProcessState

unfoldable pub close_fails : WindowsHost → Resource → Bool
unfolding stop_process
close_fails h client = h.client_close_fails
close_fails h socket = h.socket_close_fails
close_fails h process = (stop_process h.process_state).1
close_fails h _ = false

unfoldable pub forward_steps : WindowsHost → List Step
unfolding open_forwarded_socket
forward_steps h =
    acquire client h.ssh_client
    ∷ call h.policy
    ∷ acquire socket (open_forwarded_socket h.rounds)
    ∷ call h.connect_target
    ∷ []

-- The connection once the process runs.
unfoldable pub connect_forwarded : WindowsHost → Outcome
unfolding run_steps close_all device_failed forward_steps close_fails
connect_forwarded h =
    let s = run_steps (forward_steps h) (process ∷ []) in
    elim s.raised [
      | some e ↦
          device_failed e (close_all (close_fails h) (client ∷ socket ∷ process ∷ []) s.opened)
      | none ↦ record { raised = none; closed = []; opened = s.opened }
    ]

unfoldable pub connect_windows : WindowsHost → Outcome
unfolding connect_forwarded
connect_windows h =
    if not h.has_tsh then refused (wrapped teleport no_cause) else elim h.start_error [
      | some f ↦ refused (wrapped teleport (cause f))
      | none ↦ connect_forwarded h
    ]

-- The client is closed before its socket, and that before the process behind it.
abbrev pub in_dependency_order : List Resource → List Resource
in_dependency_order (socket ∷ client ∷ rs) = client ∷ socket ∷ rs
in_dependency_order rs = rs

-- A connection that raises once the process runs has attempted to close all that it had opened, the
-- client before its socket and that before the process.
pub connect_windows-closed :
    (h : WindowsHost) (e : Raised)
    → h.has_tsh ≡ true
    → h.start_error ≡ none
    → (connect_windows h).raised ≡ some e
    → (connect_windows h).closed
      ≡ in_dependency_order (run_steps (forward_steps h) (process ∷ [])).opened
unfolding connect_windows
connect_windows-closed h e t s r = ground arith

-- Where a close of the cleanup raised, or the process survived both signals, the failure is one that
-- is not retried.
pub connect_windows-cleanup :
    (h : WindowsHost)
    → any (close_fails h) (connect_windows h).closed ≡ true
    → (connect_windows h).raised ≡ some (exception (plain connection_cleanup))
unfolding connect_windows
connect_windows-cleanup h r = ground arith
