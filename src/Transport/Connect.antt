-- ===== src/Transport/Connect.antt =====
-- `connect_device` of transport/__init__.py: at most two attempts, each behind a start slot.
use orbit_flow_evo.Base.{
  ℕ, zero, suc, ◌+◌, ◌≡◌, refl, ◌∙◌, any, Bool, true, false, not, Option, none, some, List, [], ◌∷◌,
  String, Result, ok, err, arith, nat_beq, if◌then◌else◌,
}
use orbit_flow_evo.Transport.Failures.{
  cause, plain, wrapped, unsupported_platform, connection_retry_exhausted, retryable,
}
use orbit_flow_evo.Transport.Linux.{LinuxHost, connect_linux, connect_linux-cleanup}
use orbit_flow_evo.Transport.Resources.{Raised, exception, interrupt}

pub data Action : Type 0 where
  start_slot attempt backoff : Action

-- What the call returned or raised, and what it did.
pub record Connection : Type 0 where
  -- The secret that the returned session carries, or what was raised.
  pub result : Result Raised (Option String)
  pub actions : List Action

abbrev prefixed : List Action → Connection → Connection
prefixed [] c = c
prefixed (a ∷ more) c = let rest = prefixed more c in record rest { actions = a ∷ rest.actions }

abbrev once : Result Raised (Option String) → Connection
once r = record { result = r; actions = start_slot ∷ attempt ∷ [] }

-- `for attempt in range(2)`, from attempt `n` with `left` attempts left, over the answer of the
-- connector to each attempt.
unfoldable pub attempts : (ℕ → Option Raised) → Option String → ℕ → ℕ → Connection
attempts connector secret n zero = record { result = ok none; actions = [] }
attempts connector secret n (suc left) =
    let again =
      prefixed (start_slot ∷ attempt ∷ backoff ∷ []) (attempts connector secret (n + 1) left) in
    elim (connector n) [
      | none ↦ once (ok secret)
      | some interrupt ↦ once (err interrupt)
      | some (exception f) ↦
          if not (retryable f)
          then once (err (exception f))
          else if nat_beq n 0
          then again
          else once (err (exception (wrapped connection_retry_exhausted (cause f))))
    ]

unfoldable pub connect_device : Bool → (ℕ → Option Raised) → Option String → Connection
unfolding attempts
connect_device supported connector secret =
    if supported
    then attempts connector secret 0 2
    else record { result = err (exception (plain unsupported_platform)); actions = [] }

-- Whether what an attempt raised allows another one.
abbrev pub allows_retry : Option Raised → Bool
allows_retry (some (exception f)) = retryable f
allows_retry _ = false

-- On a supported system there is one attempt, and a second one exactly if the first raised a
-- retryable failure; each stands behind a start slot of its own, and the pause between the two.
pub connect_device-actions :
    (connector : ℕ → Option Raised) (secret : Option String)
    → (connect_device true connector secret).actions ≡ (
        if allows_retry (connector 0)
        then start_slot ∷ attempt ∷ backoff ∷ start_slot ∷ attempt ∷ []
        else start_slot ∷ attempt ∷ [])
unfolding connect_device
connect_device-actions connector secret = ground arith

-- What the last of the attempts decides: its session, or what it raised, as an exhausted retry where
-- that is retryable once more.
abbrev pub decided : Option String → Option Raised → Result Raised (Option String)
decided secret none = ok secret
decided secret (some interrupt) = err interrupt
decided secret (some (exception f)) =
    err (exception (if retryable f then wrapped connection_retry_exhausted (cause f) else f))

-- The result is that of the last attempt.
pub connect_device-result :
    (connector : ℕ → Option Raised) (secret : Option String)
    → (connect_device true connector secret).result
      ≡ decided secret (connector (if allows_retry (connector 0) then 1 else 0))
unfolding connect_device
connect_device-result connector secret = ground arith

-- After a Linux attempt whose cleanup failed there is no second attempt.
pub connect_device-cleanup :
    (h : LinuxHost) (connector : ℕ → Option Raised) (secret : Option String)
    → connector 0 ≡ (connect_linux h).raised
    → any h.close_fails (connect_linux h).closed ≡ true
    → (connect_device true connector secret).actions ≡ start_slot ∷ attempt ∷ []
unfolding retryable
connect_device-cleanup h connector secret first failed =
    connect_device-actions connector secret ∙ rw (first ∙ connect_linux-cleanup h failed) refl
