-- ===== src/Transport/Linux.antt =====
-- transport/linux.py: the connector over a Teleport bastion. What each call of paramiko answers is a
-- parameter.
use orbit_flow_evo.Base.{
  ◌≡◌, Bool, true, false, not, Option, none, some, List, [], ◌∷◌, ◌++◌, any, arith, if◌then◌else◌,
}
use orbit_flow_evo.Transport.Failures.{
  Failure, no_cause, cause, plain, wrapped, transport_configuration, connection_cleanup, teleport,
  tunnel, device_connection, tunnel_timeout,
}
use orbit_flow_evo.Transport.Resources.{
  Resource, proxy, bastion, channel, target, Raised, exception, interrupt, Step, call, acquire,
  run_steps, Closed, close_all, Outcome, refused,
}

-- The settings that are present, the answers of the calls, and which closes raise.
pub record LinuxHost : Type 0 where
  pub has_identity : Bool
  pub has_tsh : Bool
  pub load_key : Option Raised
  pub proxy_command : Option Raised
  pub bastion_client : Option Raised
  pub bastion_policy : Option Raised
  pub bastion_connect : Option Raised
  pub get_transport : Option Raised
  pub transport_active : Bool
  pub open_channel : Option Raised
  pub target_client : Option Raised
  pub target_policy : Option Raised
  pub connect_target : Option Raised
  pub close_fails : Resource → Bool

abbrev pub is_tunnel : Failure → Bool
is_tunnel (wrapped tunnel _) = true
is_tunnel (wrapped tunnel_timeout _) = true
is_tunnel _ = false

-- The handler of the first block, over what was raised.
unfoldable pub bastion_failed : Raised → Closed → Outcome
bastion_failed e c =
    if c.failed
    then record {
      raised = some (exception (plain connection_cleanup));
      closed = c.closed;
      opened = [];
    }
    else record {
      raised =
          some (elim e [
            | interrupt ↦ interrupt
            | exception f ↦ exception (wrapped teleport (cause f))
          ]);
      closed = c.closed;
      opened = [];
    }

-- The handler of the second block.
unfoldable pub device_failed : Raised → Closed → Outcome
device_failed e c =
    if c.failed
    then record {
      raised = some (exception (plain connection_cleanup));
      closed = c.closed;
      opened = [];
    }
    else record {
      raised = some (elim e [
        | interrupt ↦ interrupt
        | exception f ↦ exception (if is_tunnel f then f else wrapped device_connection (cause f))
      ]);
      closed = c.closed;
      opened = [];
    }

unfoldable pub bastion_steps : LinuxHost → List Step
bastion_steps h =
    call h.load_key
    ∷ acquire proxy h.proxy_command
    ∷ acquire bastion h.bastion_client
    ∷ call h.bastion_policy
    ∷ call h.bastion_connect
    ∷ []

unfoldable pub device_steps : LinuxHost → List Step
device_steps h =
    call h.get_transport
    ∷ call (if h.transport_active then none else some (exception (wrapped tunnel no_cause)))
    ∷ acquire channel h.open_channel
    ∷ acquire target h.target_client
    ∷ call h.target_policy
    ∷ call h.connect_target
    ∷ []

unfoldable pub connect_device_steps : LinuxHost → List Resource → Outcome
unfolding run_steps close_all device_failed device_steps
connect_device_steps h opened =
    let s = run_steps (device_steps h) opened in
    elim s.raised [
      | some e ↦
          device_failed e
            (close_all h.close_fails (target ∷ channel ∷ bastion ∷ proxy ∷ []) s.opened)
      | none ↦ record { raised = none; closed = []; opened = s.opened }
    ]

unfoldable pub connect_bastion : LinuxHost → Outcome
unfolding run_steps close_all bastion_failed bastion_steps connect_device_steps
connect_bastion h =
    let s = run_steps (bastion_steps h) [] in
    elim s.raised [
      | some e ↦ bastion_failed e (close_all h.close_fails (bastion ∷ proxy ∷ []) s.opened)
      | none ↦ connect_device_steps h s.opened
    ]

unfoldable pub connect_linux : LinuxHost → Outcome
unfolding connect_bastion
connect_linux h =
    if not h.has_identity
    then refused (plain transport_configuration)
    else if not h.has_tsh
    then refused (wrapped teleport no_cause)
    else connect_bastion h

-- The resources that are open where the steps of both blocks stop, the latest first.
abbrev pub all_opened : LinuxHost → List Resource
all_opened h = (run_steps (bastion_steps h ++ device_steps h) []).opened

-- A connection that raises, whatever its closes do, has attempted to close every resource that it had
-- opened, the latest first.
pub connect_linux-closed :
    (h : LinuxHost) (e : Raised)
    → h.has_identity ≡ true
    → h.has_tsh ≡ true
    → (connect_linux h).raised ≡ some e
    → (connect_linux h).closed ≡ all_opened h
unfolding connect_linux
connect_linux-closed h e i t r = ground arith

-- A connection that succeeds holds the target, its channel, the bastion and the proxy, and has closed
-- nothing.
pub connect_linux-opened :
    (h : LinuxHost)
    → (connect_linux h).raised ≡ none
    → ((connect_linux h).opened ≡ target ∷ channel ∷ bastion ∷ proxy ∷ [])
      × ((connect_linux h).closed ≡ [])
unfolding connect_linux
connect_linux-opened h r = ground arith

-- Where a close of the cleanup raised, the failure is one that is not retried.
pub connect_linux-cleanup :
    (h : LinuxHost)
    → any h.close_fails (connect_linux h).closed ≡ true
    → (connect_linux h).raised ≡ some (exception (plain connection_cleanup))
unfolding connect_linux
connect_linux-cleanup h r = ground arith
