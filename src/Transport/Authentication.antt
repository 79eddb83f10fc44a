-- ===== src/Transport/Authentication.antt =====
-- transport/authentication.py: the connection to the target, with the one interactive retry of a
-- rejected password. What paramiko answers is a parameter; a prompt is a list of ASCII code points.
pub mod Laws
use mathlib.Core.Path.{subst}
use mathlib.Core.Bool.{false≢true}
use orbit_flow_evo.Base.{
  suc, ◌↔◌, and_true, ◌≡◌, refl, ap, inl, inr, Bool, true, false, not, ◌&&◌, ◌||◌, Option, none,
  some, List, [], ◌∷◌, String, any, all, map, arith, if◌then◌else◌, length, Bool-cases,
}
use orbit_flow_evo.Base.Equality.{string_eq, contains}
use orbit_flow_evo.Base.Texts.{Text, codes, casefold, infix_of, is_nil}
use orbit_flow_evo.Transport.Failures.{Failure, plain, authentication, transient_handshake}

-- What `transport.get_exception()` holds: nothing, one of the four classes that a lost connection
-- leaves, or any other exception.
pub data Underlying : Type 0 where
  nothing lost_connection protocol_failure : Underlying

-- An `SSHException` of `client.connect`: whether it is the plain "No existing session", which frames
-- of its traceback are those of `get_remote_server_key`, and the client's transport then.
pub record SshFailure : Type 0 where
  pub no_existing_session : Bool
  pub frames : List Bool
  pub transport : Option Underlying
  pub failure : Failure

unfoldable pub lost_handshake_transport : Option Underlying → Bool
lost_handshake_transport (some Underlying.nothing) = true
lost_handshake_transport (some Underlying.lost_connection) = true
lost_handshake_transport _ = false

-- The walk over the traceback: the first frame of that function decides.
unfoldable pub lost_in_trace : List Bool → Option Underlying → Bool
unfolding lost_handshake_transport
lost_in_trace [] transport = false
lost_in_trace (frame ∷ frames) transport =
    let rest = lost_in_trace frames transport in
    if frame then lost_handshake_transport transport else rest

unfoldable pub lost_handshake_session : SshFailure → Bool
unfolding lost_in_trace
lost_handshake_session e = e.no_existing_session && lost_in_trace e.frames e.transport

-- The answer to `client.connect`: done, the password was rejected, with the methods that the server
-- allows, another `SSHException`, or any other exception.
pub data Connected : Type 0 where
  accepted : Connected
  rejected : Option (List String) → Connected
  ssh_failed : SshFailure → Connected
  failed : Failure → Connected

abbrev is_password_prompt : Text → Bool
is_password_prompt prompt = infix_of (codes "password") (casefold prompt)

-- `handler(_title, _instructions, prompts)`: `none` is the `AuthenticationException`.
unfoldable pub password_handler : Text → List Text → Option (List Text)
unfolding infix_of casefold
password_handler password prompts =
    if is_nil prompts || any (λ prompt. not (is_password_prompt prompt)) prompts
    then none
    else some (map (λ _. password) prompts)

-- The client and its server: the answer to the first attempt, whether its transport is there and
-- active after a rejection, the rounds of prompts of an interactive login, and its outcome.
pub record Client : Type 0 where
  pub connect : Connected
  pub active : Bool
  pub rounds : List (List Text)
  pub interactive : Option Failure

-- The rounds of one interactive login: the answers that were sent, and whether all were answered.
unfoldable pub answer_rounds : Text → List (List Text) → List (List Text) × Bool
unfolding password_handler
answer_rounds password [] = ([], true)
answer_rounds password (prompts ∷ rounds) =
    let (answers, done) = answer_rounds password rounds in
    elim (password_handler password prompts) [
      | none ↦ ([], false)
      | some answer ↦ (answer ∷ answers, done)
    ]

pub record Login : Type 0 where
  pub raised : Option Failure
  -- The answers sent to the prompts of an interactive login, if one was tried.
  pub interactive : Option (List (List Text))

abbrev raises : Failure → Login
raises f = record { raised = some f; interactive = none }

unfoldable pub login_interactive : Client → Text → Login
unfolding answer_rounds
login_interactive c password =
    let (answers, done) = answer_rounds password c.rounds in
    record {
      raised = if done then c.interactive else some (plain authentication);
      interactive = some answers;
    }

-- Whether the server named its methods, and the interactive login is not among them.
unfoldable pub excludes_interactive : Option (List String) → Bool
excludes_interactive none = false
excludes_interactive (some types) = not (contains types "keyboard-interactive")

-- The retry after a rejection.
unfoldable pub retry_rejected : Client → Option Text → Option (List String) → Login
unfolding login_interactive excludes_interactive
retry_rejected c none allowed = raises (plain authentication)
retry_rejected c (some password) allowed =
    if excludes_interactive allowed || not c.active
    then raises (plain authentication)
    else login_interactive c password

unfoldable pub connect_target : Client → Option Text → Login
unfolding retry_rejected lost_handshake_session
connect_target c password = elim c.connect [
  | accepted ↦ record { raised = none; interactive = none }
  | rejected allowed ↦ retry_rejected c password allowed
  | ssh_failed e ↦
      raises (if lost_handshake_session e then plain transient_handshake else e.failure)
  | failed f ↦ raises f
]
