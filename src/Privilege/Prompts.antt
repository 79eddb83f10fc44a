-- ===== src/Privilege/Prompts.antt =====
-- The texts of src/orbitflow/vendors/privilege.py: the hostname of a prompt, the challenge, and what a denial looks like.
use orbit_flow_evo.Base.{
  ℕ, Bool, false, not, ◌&&◌, ◌||◌, Option, none, some, List, [], ◌∷◌, ◌++◌, nat_beq, if◌then◌else◌,
}
use mathlib.Core.List.{reverse}
use orbit_flow_evo.Base.Equality.{contains, list_eq, list_beq, nat_eq, ◌==◌}
use orbit_flow_evo.Base.Texts.{Text, codes, is_space, casefold, lstrip, is_nil, starts_with}

-- What one round of the loop meets: the deadline has passed, the call raises, or a number of bytes with the text that
-- the decoder gives for them.
pub data Receive : Type 0 where
  expired call_raised : Receive
  chunk : ℕ → Text → Receive

pub record Terminal : Type 0 where
  pub normalize : Text → Text
  -- None when the prompt is not recognised.
  pub edge_hostname : Text → Option Text
  pub enable_raises : Bool
  pub secret_raises : Bool

pub data Sent : Type 0 where
  enable secret : Sent

pub data EnableState : Type 0 where
  wait_password wait_privileged : EnableState

pub data PrivilegeError : Type 0 where
  unrecognized_prompt missing_enable_secret enable_authentication_failed : PrivilegeError

pub data Outcome : Type 0 where
  raises : PrivilegeError → Outcome
  returns : Text → Outcome

-- `[^:#<>\s()\[\]]`
unfoldable pub is_host_char : ℕ → Bool
unfolding is_space
is_host_char c = not (contains (codes ":#<>()[]") c) && not (is_space c)

-- `([^:#<>\s()\[\]]+)[#>]` from the host characters read so far on.
unfoldable pub host_onto : Text → Text → Option Text
unfolding is_host_char
host_onto host [] = none
host_onto host (c ∷ []) =
    if not (is_nil host) && (nat_beq c b'#' || nat_beq c b'>') then some host else none
host_onto host (c ∷ d ∷ s) =
    let rest = host_onto (host ++ c ∷ []) (d ∷ s) in if is_host_char c then rest else none

pub data Host : Type 0 where
  unrecognized unmatched : Host
  host : Text → Host

abbrev pub of_edge : Option Text → Host
of_edge none = unrecognized
of_edge (some h) = host h

abbrev pub of_match : Option Text → Host
of_match none = unmatched
of_match (some h) = host h

unfoldable pub exec_hostname : Terminal → Text → Host
unfolding host_onto starts_with
exec_hostname t prompt =
    if starts_with prompt (codes "(")
    then of_edge (t.edge_hostname prompt)
    else of_match (host_onto [] prompt)

-- `s.endswith(c)` for one code point.
unfoldable pub ends_in : ℕ → Text → Bool
ends_in c [] = false
ends_in c (d ∷ []) = nat_beq d c
ends_in c (_ ∷ d ∷ s) = ends_in c (d ∷ s)

-- `str.split("\n")`
unfoldable pub split_lines : Text → Text → List Text
split_lines line [] = line ∷ []
split_lines line (c ∷ s) =
    let rest = split_lines [] s in
    let more = split_lines (line ++ c ∷ []) s in if nat_beq c 10 then line ∷ rest else more

-- `(?im)^\s*(?:%|access denied|authentication failed|invalid password)`
unfoldable pub is_denial : Text → Bool
unfolding casefold lstrip starts_with
is_denial line =
    let text = casefold (lstrip line) in
    starts_with text (codes "%")
    || starts_with text (codes "access denied")
    || starts_with text (codes "authentication failed")
    || starts_with text (codes "invalid password")

-- `(?i)(?:enable )?password:[ \t]*`, over a text without outer spaces.
unfoldable pub is_challenge : Text → Bool
unfolding casefold list_beq
is_challenge last = casefold last == codes "password:" || casefold last == codes "enable password:"

-- `last[:-6].rstrip() if last.endswith("enable") else last`
unfoldable pub without_echo : Text → Text
unfolding lstrip starts_with
without_echo last = elim (reverse last) [
  | (e ∷ l ∷ b ∷ a ∷ n ∷ d ∷ s) ↦
      if starts_with (e ∷ l ∷ b ∷ a ∷ n ∷ d ∷ []) (codes "elbane") then reverse (lstrip s) else last
  | _ ↦ last
]
