-- ===== src/Transport/Authentication/Laws.antt =====
-- transport/authentication.py: to which prompts a password is sent, and which failures count as a lost handshake.
use mathlib.Core.Path.{subst}
use mathlib.Core.Bool.{false≢true}
use orbit_flow_evo.Base.{
  suc, ◌↔◌, and_true, ◌≡◌, refl, ap, inl, inr, Bool, true, false, not, ◌||◌, Option, none, some,
  List, [], ◌∷◌, String, any, all, map, arith, if◌then◌else◌, length, Bool-cases,
}
use orbit_flow_evo.Base.Equality.{string_eq}
use orbit_flow_evo.Base.Texts.{Text}
use orbit_flow_evo.Transport.Failures.{plain, transient_handshake}
use orbit_flow_evo.Transport.Authentication.{
  Client, Connected, Login, SshFailure, Underlying, accepted, answer_rounds, connect_target,
  excludes_interactive, failed, is_password_prompt, login_interactive, lost_handshake_session,
  lost_handshake_transport, lost_in_trace, raises, rejected, retry_rejected, ssh_failed,
}

-- Every answer that is sent stands against a prompt that asks for a password.
abbrev pub OnlyPasswords : List (List Text) → List (List Text) → Type 0
OnlyPasswords [] rounds = Unit
OnlyPasswords (answer ∷ answers) [] = ⊥
OnlyPasswords (answer ∷ answers) (prompts ∷ rounds) =
    (all is_password_prompt prompts ≡ true)
    × (length answer ≡ length prompts)
    × OnlyPasswords answers rounds

length-map_const :
    (password : Text) (prompts : List Text) → length (map (λ _. password) prompts) ≡ length prompts
length-map_const password [] = refl
length-map_const password (p ∷ prompts) = ap suc (length-map_const password prompts)

none_other :
    (prompts : List Text)
    → any (λ prompt. not (is_password_prompt prompt)) prompts ≡ false
    → all is_password_prompt prompts ≡ true
none_other [] h = refl
none_other (p ∷ prompts) h = ground (arith, none_other prompts)

answer_rounds-OnlyPasswords :
    (password : Text) (rounds : List (List Text))
    → OnlyPasswords (answer_rounds password rounds).0 rounds
unfolding answer_rounds
answer_rounds-OnlyPasswords password [] = tt
answer_rounds-OnlyPasswords password (prompts ∷ rounds) = ground (
  arith,
  answer_rounds-OnlyPasswords password rounds,
  none_other prompts,
  length-map_const password prompts,
)

lost_in_trace_iff :
    (frames : List Bool) (t : Option Underlying)
    → (lost_in_trace frames t ≡ true)
      ↔ ((any (λ frame. frame) frames ≡ true) × (lost_handshake_transport t ≡ true))
unfolding lost_in_trace
lost_in_trace_iff [] t = (λ h. absurd (false≢true h), λ h. h.0)
lost_in_trace_iff (frame ∷ frames) t = ground (arith, lost_in_trace_iff frames t)

-- A rejection after which an interactive login may be tried.
abbrev pub may_retry : Connected → Bool
may_retry (rejected allowed) = not (excludes_interactive allowed)
may_retry _ = false

retry_rejected-OnlyPasswords :
    (c : Client) (password : Option Text) (allowed : Option (List String))
    (answers : List (List Text))
    → (retry_rejected c password allowed).interactive ≡ some answers
    → OnlyPasswords answers c.rounds × (c.active ≡ true) × (excludes_interactive allowed ≡ false)
unfolding retry_rejected login_interactive
retry_rejected-OnlyPasswords c none allowed answers h = cc
retry_rejected-OnlyPasswords c (some password) allowed answers h =
    elim (Bool-cases (excludes_interactive allowed || not c.active)) [
      | inl refused ↦ absurd (contradiction refused)
      | inr tried ↦ (
        subst (λ t. OnlyPasswords t c.rounds) (sent tried)
            (answer_rounds-OnlyPasswords password c.rounds),
        ground (arith, tried),
        ground (arith, tried),
      )
    ]
  where
    contradiction : (excludes_interactive allowed || not c.active) ≡ true → ⊥
    contradiction e = ground (arith, e)

    sent :
        (excludes_interactive allowed || not c.active) ≡ false
        → (answer_rounds password c.rounds).0 ≡ answers
    sent e = ground (arith, e)

-- In an interactive login, whatever the server does, the password is sent only in answer to prompts that ask for one,
-- one answer to each prompt; and it follows only a first attempt whose authentication was rejected by a server that is
-- still connected and does not exclude interactive logins. What the first attempt itself sends is not stated.
pub connect_target-OnlyPasswords :
    (c : Client) (password : Option Text) (answers : List (List Text))
    → (connect_target c password).interactive ≡ some answers
    → OnlyPasswords answers c.rounds × (c.active ≡ true) × (may_retry c.connect ≡ true)
unfolding connect_target
connect_target-OnlyPasswords c password answers h = by_outcome c.connect h
  where
    by_outcome :
        (o : Connected)
        → (let l : Login = elim o [
          | accepted ↦ record { raised = none; interactive = none }
          | rejected allowed ↦ retry_rejected c password allowed
          | ssh_failed e ↦
              raises (if lost_handshake_session e then plain transient_handshake else e.failure)
          | failed f ↦ raises f
        ] in
            l.interactive)
          ≡ some answers
        → OnlyPasswords answers c.rounds × (c.active ≡ true) × (may_retry o ≡ true)
    by_outcome accepted h = cc
    by_outcome (ssh_failed e) h = cc
    by_outcome (failed f) h = cc
    by_outcome (rejected allowed) h =
        let (only, active, open_to) = retry_rejected-OnlyPasswords c password allowed answers h in
        (only, active, ground (arith, open_to))

-- A lost handshake is reported as the transient failure exactly where the walk over the traceback
-- finds the retrieval of the server's key, on a transport that is there and recorded no failure of
-- the protocol.
pub lost_handshake_session_iff :
    (e : SshFailure)
    → (lost_handshake_session e ≡ true) ↔ (
        (e.no_existing_session ≡ true)
        × (any (λ frame. frame) e.frames ≡ true)
        × (lost_handshake_transport e.transport ≡ true))
unfolding lost_handshake_session
lost_handshake_session_iff e = (
  λ h.
      let (a, b) = and_true e.no_existing_session _ h in
      let (f, t) = (lost_in_trace_iff e.frames e.transport).0 b in (a, f, t),
  λ (a, f, t). ground (arith, a, (lost_in_trace_iff e.frames e.transport).1 (f, t)),
)
