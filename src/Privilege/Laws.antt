-- ===== src/Privilege/Laws.antt =====
-- What `ensure_privileged` sends, and what a prompt that it returns proves.
use orbit_flow_evo.Base.{
  ℕ, ◌+◌, ◌≤◌, ◌≡◌, ◌⊎◌, refl, sym, ap, ◌∙◌, true, false, ◌||◌, Option, none, some, List, [], ◌∷◌,
  ◌++◌, any, arith, inl, inr, Bool-cases, nat_beq, ltb,
}
use mathlib.Core.Path.{subst}
use orbit_flow_evo.Base.Equality.{contains, list_eq, nat_eq}
use orbit_flow_evo.Base.Texts.{Text, is_nil}
use orbit_flow_evo.Privilege.Prompts.{
  Receive, Terminal, Sent, EnableState, Outcome, Host, exec_hostname, ends_in, split_lines,
  is_denial, expired, call_raised, chunk, enable, secret, wait_password, wait_privileged, raises,
  returns, unrecognized, unmatched, host,
}
use orbit_flow_evo.Privilege.Lines.{Verdict, read_line, reject, accept, go}
use orbit_flow_evo.Privilege.Rounds.{
  Read, after_line, read_lines, read_round, size_of, Exchange, after_round, read_rounds,
  enable_with, enable_from, ensure_at, ensure_privileged, ended, waiting,
}
use orbit_flow_evo.Privilege.Verdicts.{sent_in, IsPrivileged, Fits, read_line-Fits}

-- What was sent when the exchange ends: nothing of the secret, or the secret once; a prompt that is returned is one of
-- the host in privileged EXEC, and the secret was sent.
unfoldable pub Proper : Terminal → Text → Outcome → List Sent → Type 0
Proper t hostname (returns prompt) sent =
    (sent ≡ sent_in wait_privileged) × IsPrivileged t hostname prompt
Proper t hostname (raises e) sent = (state : EnableState) × (sent ≡ sent_in state)

unfoldable Sound : Terminal → Text → Read → Type 0
Sound t hostname (ended o sent) = Proper t hostname o sent
Sound t hostname (waiting state kept sent) = sent ≡ sent_in state

after_line-Sound :
    (t : Terminal) (hostname : Text) (state : EnableState) (v : Verdict) (sent : List Sent)
    (rest : EnableState → Text → List Sent → Read)
    → Fits t hostname state v
    → sent ≡ sent_in state
    → ((next : EnableState) (text : Text) (now : List Sent)
        → now ≡ sent_in next
        → Sound t hostname (rest next text now))
    → Sound t hostname (after_line v sent rest)
unfolding Fits Sound Proper after_line
after_line-Sound t hostname state reject sent rest f h k = (state, h)
after_line-Sound t hostname state (accept prompt) sent rest f h k = (h ∙ ap sent_in f.0, f.1)
after_line-Sound t hostname state (go next text true) sent rest f h k =
    k next text (sent ++ secret ∷ []) (ap (λ l. l ++ secret ∷ []) h ∙ sym f)
after_line-Sound t hostname state (go next text false) sent rest f h k =
    k next text sent (h ∙ sym f)

read_lines-Sound :
    (t : Terminal) (s hostname : Text) (state : EnableState) (kept : Text) (sent : List Sent)
    (lines : List Text)
    → sent ≡ sent_in state
    → Sound t hostname (read_lines t s hostname state kept sent lines)
unfolding Sound read_lines
read_lines-Sound t s hostname state kept sent [] h = h
read_lines-Sound t s hostname state kept sent (line ∷ rest) h =
    after_line-Sound t hostname state (read_line t s hostname state line rest) sent _
      (read_line-Fits t s hostname state line rest) h
      (λ next text now e. read_lines-Sound t s hostname next text now rest e)

read_round-Sound :
    (t : Terminal) (s hostname : Text) (state : EnableState) (kept : Text) (sent : List Sent)
    (total : ℕ) (r : Receive)
    → sent ≡ sent_in state
    → Sound t hostname (read_round t s hostname state kept sent total r)
unfolding Sound Proper read_round
read_round-Sound t s hostname state kept sent total expired h = (state, h)
read_round-Sound t s hostname state kept sent total call_raised h = (state, h)
read_round-Sound t s hostname state kept sent total (chunk size text) h =
    let lines = split_lines [] (t.normalize (kept ++ text)) in
    elim (Bool-cases (nat_beq size 0 || ltb 131072 (total + size) || any is_denial lines)) [
      | inl y ↦ rw y (state, h)
      | inr n ↦ rw n (read_lines-Sound t s hostname state [] sent lines h)
    ]

after_round-Proper :
    (t : Terminal) (hostname : Text) (r : Read) (rest : EnableState → Text → List Sent → Exchange)
    → Sound t hostname r
    → ((next : EnableState) (text : Text) (now : List Sent)
        → now ≡ sent_in next
        → Proper t hostname (rest next text now).outcome (rest next text now).sent)
    → Proper t hostname (after_round r rest).outcome (after_round r rest).sent
unfolding Sound after_round
after_round-Proper t hostname (ended o sent) rest h k = h
after_round-Proper t hostname (waiting state kept sent) rest h k = k state kept sent h

read_rounds-Proper :
    (t : Terminal) (s hostname : Text) (state : EnableState) (kept : Text) (sent : List Sent)
    (total : ℕ) (receives : List Receive)
    → sent ≡ sent_in state
    → Proper t hostname
        (read_rounds t s hostname state kept sent total receives).outcome
        (read_rounds t s hostname state kept sent total receives).sent
unfolding Proper read_rounds
read_rounds-Proper t s hostname state kept sent total [] h = (state, h)
read_rounds-Proper t s hostname state kept sent total (r ∷ receives) h =
    after_round-Proper t hostname (read_round t s hostname state kept sent total r) _
      (read_round-Sound t s hostname state kept sent total r h)
      (λ next text now e.
        read_rounds-Proper t s hostname next text now (total + size_of r) receives e)

-- How often the secret was sent.
unfoldable pub secrets : List Sent → ℕ
secrets [] = 0
secrets (secret ∷ sent) = secrets sent + 1
secrets (enable ∷ sent) = secrets sent

abbrev IsRaised : Outcome → Type 0
IsRaised (raises e) = Unit
IsRaised (returns p) = ⊥

abbrev text_of : Outcome → Text
text_of (returns p) = p
text_of (raises e) = []

-- Of an exchange that sends anything.
module _ (t : Terminal) (hostname : Text) where
  abbrev Good : Exchange → Type 0
  Good x = Proper t hostname x.outcome x.sent ⊎ ((x.sent ≡ []) × IsRaised x.outcome)

  enable_with-Good : (s : Text) (receives : List Receive) → Good (enable_with t hostname s receives)
  unfolding enable_with
  enable_with-Good s receives = elim (Bool-cases (is_nil s)) [
    | inl y ↦ rw y (inr (refl, tt))
    | inr n ↦ elim (Bool-cases (contains s 10 || contains s 13 || t.enable_raises)) [
      | inl y ↦ rw (n, y) (inr (refl, tt))
      | inr m ↦
          rw (n, m)
            (inl (read_rounds-Proper t s hostname wait_password [] (enable ∷ []) 0 receives refl))
    ]
  ]

  enable_from-Good :
      (s : Option Text) (receives : List Receive) → Good (enable_from t hostname s receives)
  unfolding enable_from
  enable_from-Good none receives = inr (refl, tt)
  enable_from-Good (some s) receives = enable_with-Good s receives

  returned_well :
      (o : Outcome) (sent : List Sent) (q : Text)
      → Proper t hostname o sent ⊎ ((sent ≡ []) × IsRaised o)
      → o ≡ returns q
      → (sent ≡ enable ∷ secret ∷ []) × IsPrivileged t hostname q
  unfolding Proper
  returned_well (raises e) sent q g h = absurd (subst IsRaised h tt)
  returned_well (returns p) sent q (inl g) h =
      (g.0, subst (IsPrivileged t hostname) (ap text_of h) g.1)
  returned_well (returns p) sent q (inr g) h = absurd g.1

  secret_at_most_once : (x : Exchange) → Good x → secrets x.sent ≤ 1
  unfolding Proper secrets
  secret_at_most_once x g = secrets_at x.outcome x.sent g
    where
      secrets_at :
          (o : Outcome) (sent : List Sent)
          → Proper t hostname o sent ⊎ ((sent ≡ []) × IsRaised o)
          → secrets sent ≤ 1
      secrets_at o sent (inr g) = rw g.0 (omega arith)
      secrets_at (returns p) sent (inl g) = rw g.0 (omega arith)
      secrets_at (raises e) sent (inl (wait_password, g)) = rw g (omega arith)
      secrets_at (raises e) sent (inl (wait_privileged, g)) = rw g (omega arith)

ensure_at-Good :
    (t : Terminal) (h : Host) (prompt hostname : Text) (s : Option Text) (receives : List Receive)
    → h ≡ host hostname
    → ends_in b'#' prompt ≡ false
    → Good t hostname (ensure_at t h prompt s receives)
unfolding ensure_at
ensure_at-Good t h prompt hostname s receives e n =
    rw e (rw n (enable_from-Good t hostname s receives))

-- When the prompt is one of user EXEC of a host, a prompt that is returned is one of the same host in privileged EXEC,
-- and what was sent is the enable command and then the secret.
pub ensure_privileged-IsPrivileged :
    (t : Terminal) (prompt hostname : Text) (s : Option Text) (receives : List Receive) (q : Text)
    → exec_hostname t prompt ≡ host hostname
    → ends_in b'#' prompt ≡ false
    → (ensure_privileged t prompt s receives).outcome ≡ returns q
    → ((ensure_privileged t prompt s receives).sent ≡ enable ∷ secret ∷ [])
      × IsPrivileged t hostname q
unfolding ensure_privileged
ensure_privileged-IsPrivileged t prompt hostname s receives q e n h =
    returned_well t hostname (ensure_privileged t prompt s receives).outcome
      (ensure_privileged t prompt s receives).sent q
      (ensure_at-Good t (exec_hostname t prompt) prompt hostname s receives e n) h

-- Whatever the terminal answers and however the exchange ends, the secret is sent at most once.
pub secrets-ensure_privileged :
    (t : Terminal) (prompt : Text) (s : Option Text) (receives : List Receive)
    → secrets (ensure_privileged t prompt s receives).sent ≤ 1
unfolding ensure_privileged ensure_at secrets
secrets-ensure_privileged t prompt s receives = secrets_at_host (exec_hostname t prompt)
  where
    secrets_at_host : (h : Host) → secrets (ensure_at t h prompt s receives).sent ≤ 1
    secrets_at_host unrecognized = omega arith
    secrets_at_host unmatched = omega arith
    secrets_at_host (host hostname) = elim (Bool-cases (ends_in b'#' prompt)) [
      | inl y ↦ rw y (omega arith)
      | inr n ↦ rw n (secret_at_most_once t hostname _ (enable_from-Good t hostname s receives))
    ]
