-- ===== src/Privilege/Rounds.antt =====
-- The rounds of `ensure_privileged` of src/orbitflow/vendors/privilege.py, and what comes before them.
use orbit_flow_evo.Base.{
  ℕ, ◌+◌, true, false, ◌||◌, Option, none, some, List, [], ◌∷◌, ◌++◌, any, nat_beq, ltb,
  if◌then◌else◌,
}
use orbit_flow_evo.Base.Equality.{contains, list_eq, nat_eq}
use orbit_flow_evo.Base.Texts.{Text, is_nil}
use orbit_flow_evo.Privilege.Prompts.{
  Receive, Terminal, Sent, EnableState, Outcome, Host, exec_hostname, ends_in, split_lines,
  is_denial, expired, call_raised, chunk, enable, secret, wait_password, unrecognized_prompt,
  missing_enable_secret, enable_authentication_failed, raises, returns, unrecognized, unmatched,
  host,
}
use orbit_flow_evo.Privilege.Lines.{Verdict, read_line, reject, accept, go}

-- The lines of one round, and then the rounds, with what was sent. The list of rounds ends where the deadline passes.
pub data Read : Type 0 where
  ended : Outcome → List Sent → Read
  waiting : EnableState → Text → List Sent → Read

abbrev pub failure : Outcome
failure = raises enable_authentication_failed

-- The lines of a round: what the first of them does is followed by what the rest gives.
unfoldable pub after_line : Verdict → List Sent → (EnableState → Text → List Sent → Read) → Read
after_line reject sent rest = ended failure sent
after_line (accept prompt) sent rest = ended (returns prompt) sent
after_line (go state text true) sent rest = rest state text (sent ++ secret ∷ [])
after_line (go state text false) sent rest = rest state text sent

unfoldable pub read_lines :
    Terminal → Text → Text → EnableState → Text → List Sent → List Text → Read
unfolding read_line after_line
read_lines t secret_text hostname state kept sent [] = waiting state kept sent
read_lines t secret_text hostname state kept sent (line ∷ rest) =
    after_line (read_line t secret_text hostname state line rest) sent
      (λ next text now. read_lines t secret_text hostname next text now rest)

-- One round, over the text kept from the last and the number of bytes so far.
unfoldable pub read_round :
    Terminal → Text → Text → EnableState → Text → List Sent → ℕ → Receive → Read
unfolding read_lines split_lines is_denial
read_round t secret_text hostname state kept sent total expired = ended failure sent
read_round t secret_text hostname state kept sent total call_raised = ended failure sent
read_round t secret_text hostname state kept sent total (chunk size text) =
    let lines = split_lines [] (t.normalize (kept ++ text)) in
    let read = read_lines t secret_text hostname state [] sent lines in
    if nat_beq size 0 || ltb 131072 (total + size) || any is_denial lines
    then ended failure sent
    else read

abbrev pub size_of : Receive → ℕ
size_of (chunk size _) = size
size_of _ = 0

pub record Exchange : Type 0 where
  pub outcome : Outcome
  pub sent : List Sent

unfoldable pub after_round : Read → (EnableState → Text → List Sent → Exchange) → Exchange
after_round (ended o sent) rest = record { outcome = o; sent = sent }
after_round (waiting state kept sent) rest = rest state kept sent

unfoldable pub read_rounds :
    Terminal → Text → Text → EnableState → Text → List Sent → ℕ → List Receive → Exchange
unfolding read_round after_round
read_rounds t secret_text hostname state kept sent total [] = record {
  outcome = failure;
  sent = sent;
}
read_rounds t secret_text hostname state kept sent total (r ∷ receives) =
    after_round (read_round t secret_text hostname state kept sent total r) (λ next text now.
      read_rounds t secret_text hostname next text now (total + size_of r) receives)

abbrev pub nothing_sent : Outcome → Exchange
nothing_sent o = record { outcome = o; sent = [] }

-- `enable`, with a secret.
unfoldable pub enable_with : Terminal → Text → Text → List Receive → Exchange
unfolding read_rounds
enable_with t hostname secret_text receives =
    if is_nil secret_text
    then nothing_sent (raises missing_enable_secret)
    else if contains secret_text 10 || contains secret_text 13 || t.enable_raises
    then nothing_sent failure
    else read_rounds t secret_text hostname wait_password [] (enable ∷ []) 0 receives

unfoldable pub enable_from : Terminal → Text → Option Text → List Receive → Exchange
unfolding enable_with
enable_from t hostname none receives = nothing_sent (raises missing_enable_secret)
enable_from t hostname (some s) receives = enable_with t hostname s receives

unfoldable pub ensure_at : Terminal → Host → Text → Option Text → List Receive → Exchange
unfolding enable_from ends_in
ensure_at t unrecognized prompt s receives = nothing_sent (raises unrecognized_prompt)
ensure_at t unmatched prompt s receives = nothing_sent (returns prompt)
ensure_at t (host hostname) prompt s receives =
    let enabled = enable_from t hostname s receives in
    if ends_in b'#' prompt then nothing_sent (returns prompt) else enabled

unfoldable pub ensure_privileged : Terminal → Text → Option Text → List Receive → Exchange
unfolding ensure_at exec_hostname
ensure_privileged t prompt s receives = ensure_at t (exec_hostname t prompt) prompt s receives
