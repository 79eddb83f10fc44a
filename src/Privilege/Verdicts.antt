-- ===== src/Privilege/Verdicts.antt =====
-- What one line may do in a state of `ensure_privileged`.
use orbit_flow_evo.Base.{
  ℕ, ◌≡◌, refl, ap, ◌∙◌, Bool, true, false, ◌||◌, List, [], ◌∷◌, ◌++◌, inl, inr, Bool-cases,
  if◌then◌else◌,
}
use orbit_flow_evo.Base.Equality.{list_eq, list_beq_iff, nat_eq, ◌==◌}
use orbit_flow_evo.Base.Texts.{Text, codes, starts_with, strip, is_nil}
use orbit_flow_evo.Privilege.Prompts.{
  Terminal, Sent, EnableState, Host, exec_hostname, ends_in, is_challenge, without_echo, enable,
  secret, wait_password, wait_privileged, unrecognized, unmatched, host,
}
use orbit_flow_evo.Privilege.Lines.{
  Verdict, challenge, privileged_prompt, own_prompt, no_prompt, read_host, read_line, reject,
  accept, go,
}

-- What was sent in a state of the exchange.
abbrev pub sent_in : EnableState → List Sent
sent_in wait_password = enable ∷ []
sent_in wait_privileged = enable ∷ secret ∷ []

-- A prompt of a host that is one of privileged EXEC.
pub record IsPrivileged (t : Terminal) (hostname prompt : Text) : Type 0 where
  pub own : exec_hostname t prompt ≡ host hostname
  pub exec : ends_in b'#' prompt ≡ true

-- What a verdict may be in a state.
unfoldable pub Fits : Terminal → Text → EnableState → Verdict → Type 0
Fits t hostname state reject = Unit
Fits t hostname state (accept prompt) = (state ≡ wait_privileged) × IsPrivileged t hostname prompt
Fits t hostname state (go next text now) =
    sent_in next ≡ (if now then sent_in state ++ secret ∷ [] else sent_in state)

challenge-Fits :
    (t : Terminal) (hostname : Text) (state : EnableState)
    → Fits t hostname state (challenge t state)
unfolding Fits challenge
challenge-Fits t hostname wait_privileged = tt
challenge-Fits t hostname wait_password = elim (Bool-cases t.secret_raises) [
  | inl y ↦ rw y tt
  | inr n ↦ rw n refl
]

privileged_prompt-Fits :
    (t : Terminal) (hostname : Text) (state : EnableState) (candidate kept : Text) (final : Bool)
    → IsPrivileged t hostname candidate
    → Fits t hostname state (privileged_prompt state candidate kept final)
unfolding Fits privileged_prompt
privileged_prompt-Fits t hostname wait_password candidate kept final h = tt
privileged_prompt-Fits t hostname wait_privileged candidate kept true h = (refl, h)
privileged_prompt-Fits t hostname wait_privileged candidate kept false h = refl

own_prompt-Fits :
    (t : Terminal) (hostname : Text) (state : EnableState) (candidate line : Text)
    (complete final : Bool)
    → exec_hostname t candidate ≡ host hostname
    → Fits t hostname state (own_prompt state candidate line complete final)
unfolding Fits own_prompt
own_prompt-Fits t hostname state candidate line complete final h =
    elim (Bool-cases (ends_in b'#' candidate)) [
      | inr n ↦ rw n refl
      | inl y ↦
          rw y (
            privileged_prompt-Fits t hostname state candidate _ final
              (record { own = h; exec = y }))
    ]

no_prompt-Fits :
    (t : Terminal) (hostname : Text) (state : EnableState) (candidate line : Text) (complete : Bool)
    → Fits t hostname state (no_prompt state candidate line complete)
unfolding Fits no_prompt
no_prompt-Fits t hostname state candidate line false = refl
no_prompt-Fits t hostname state candidate line true =
    elim (Bool-cases
      (ends_in b'>' candidate || ends_in b'#' candidate || starts_with candidate (codes "("))) [
        | inl y ↦ rw y tt
        | inr n ↦ rw n refl
      ]

read_host-Fits :
    (t : Terminal) (hostname : Text) (state : EnableState) (h : Host) (candidate line : Text)
    (complete final : Bool)
    → exec_hostname t candidate ≡ h
    → Fits t hostname state (read_host state hostname h candidate line complete final)
unfolding Fits read_host
read_host-Fits t hostname state unmatched candidate line complete final e =
    no_prompt-Fits t hostname state candidate line complete
read_host-Fits t hostname state unrecognized candidate line complete final e =
    no_prompt-Fits t hostname state candidate line complete
read_host-Fits t hostname state (host h) candidate line complete final e =
    elim (Bool-cases (h == hostname)) [
      | inr n ↦ rw n tt
      | inl y ↦ rw y (
          own_prompt-Fits t hostname state candidate line complete final
            (e ∙ ap host ((list_beq_iff {A = ℕ} h hostname).0 y)))
    ]

pub read_line-Fits :
    (t : Terminal) (s hostname : Text) (state : EnableState) (line : Text) (rest : List Text)
    → Fits t hostname state (read_line t s hostname state line rest)
unfolding Fits read_line
read_line-Fits t s hostname state line rest =
    let last = strip line in
    let candidate = without_echo last in
    elim (Bool-cases (is_nil last || last == s)) [
      | inl y ↦ rw y refl
      | inr n ↦ elim (Bool-cases (is_challenge last)) [
        | inl c ↦ rw (n, c) (challenge-Fits t hostname state)
        | inr m ↦
            rw (n, m)
              (read_host-Fits t hostname state (exec_hostname t candidate) candidate line _ _ refl)
      ]
    ]
