-- ===== src/Transport/Failures.antt =====
-- The exceptions of transport/exceptions.py, of paramiko and of the operating system that a
-- connection can raise, and `retryable_connection_failure` of transport/policy.py. A chain of
-- causes is finite: an exception is never its own cause, so the test `id(error) in seen` of the
-- source never holds.
use mathlib.Core.Bool.{false≢true}
use orbit_flow_evo.Base.{
  and_true, ℕ, ◌≡◌, refl, ◌↔◌, Bool, true, false, ◌&&◌, ◌||◌, not, arith, nat_beq, nat_beq_iff,
  Bool-cases, inl, inr,
}

-- The classes whose explicit cause is inspected: `DeviceConnectionError`, its subclass
-- `ConnectionRetryExhausted`, `TeleportError`, `TunnelError` and its subclass `TunnelTimeout`.
pub data Wrapper : Type 0 where
  device_connection connection_retry_exhausted teleport tunnel tunnel_timeout : Wrapper

-- Exact built-in classes, and those of paramiko and of the transport that carry no cause.
pub data Plain : Type 0 where
  authentication bad_host_key transport_configuration unsupported_platform : Plain
  connection_cleanup transient_handshake : Plain
  timeout connection_reset connection_aborted connection_refused : Plain
  other : Plain

mutual
  pub data Failure : Type 0 where
    plain : Plain → Failure
    -- An `OSError` of exactly that class, with its `errno`.
    os_error : ℕ → Failure
    no_valid_connections : Failures → Failure
    wrapped : Wrapper → Cause → Failure

  pub data Cause : Type 0 where
    no_cause : Cause
    cause : Failure → Cause

  pub data Failures : Type 0 where
    nil : Failures
    cons : Failure → Failures → Failures

-- `{errno.ETIMEDOUT, errno.ECONNRESET, errno.ECONNABORTED, errno.ECONNREFUSED}`, on Linux.
unfoldable pub is_transient_errno : ℕ → Bool
is_transient_errno n = nat_beq n 110 || nat_beq n 104 || nat_beq n 103 || nat_beq n 111

unfoldable pub is_transient : Plain → Bool
is_transient transient_handshake = true
is_transient timeout = true
is_transient connection_reset = true
is_transient connection_aborted = true
is_transient connection_refused = true
is_transient _ = false

unfoldable pub is_timeout : Wrapper → Bool
is_timeout tunnel_timeout = true
is_timeout _ = false

abbrev is_nil : Failures → Bool
is_nil nil = true
is_nil (cons _ _) = false

unfoldable mutual
  unfolding is_transient_errno is_transient is_timeout

  pub retryable : Failure → Bool
  retryable (plain p) = is_transient p
  retryable (os_error n) = is_transient_errno n
  retryable (no_valid_connections fs) = not (is_nil fs) && all_retryable fs
  retryable (wrapped w c) = is_timeout w || cause_retryable c

  pub cause_retryable : Cause → Bool
  cause_retryable no_cause = false
  cause_retryable (cause f) = retryable f

  pub all_retryable : Failures → Bool
  all_retryable nil = true
  all_retryable (cons f fs) = retryable f && all_retryable fs

-- Evidence that a failure is transient.
mutual
  pub data Transient : Failure → Type 0 where
    by_handshake : Transient (plain transient_handshake)
    by_timeout : Transient (plain timeout)
    by_reset : Transient (plain connection_reset)
    by_abort : Transient (plain connection_aborted)
    by_refusal : Transient (plain connection_refused)
    -- `ETIMEDOUT`, `ECONNRESET`, `ECONNABORTED` and `ECONNREFUSED`.
    by_errno_110 : Transient (os_error 110)
    by_errno_104 : Transient (os_error 104)
    by_errno_103 : Transient (os_error 103)
    by_errno_111 : Transient (os_error 111)
    every_address :
        {f : Failure} {fs : Failures}
        → Transient f
        → AllTransient fs
        → Transient (no_valid_connections (cons f fs))
    by_deadline : {c : Cause} → Transient (wrapped tunnel_timeout c)
    by_cause : {w : Wrapper} {f : Failure} → Transient f → Transient (wrapped w (cause f))

  pub data AllTransient : Failures → Type 0 where
    none_left : AllTransient nil
    one_more :
        {f : Failure} {fs : Failures} → Transient f → AllTransient fs → AllTransient (cons f fs)

is_transient_sound : (p : Plain) → is_transient p ≡ true → Transient (plain p)
unfolding is_transient
is_transient_sound authentication h = absurd (false≢true h)
is_transient_sound bad_host_key h = absurd (false≢true h)
is_transient_sound transport_configuration h = absurd (false≢true h)
is_transient_sound unsupported_platform h = absurd (false≢true h)
is_transient_sound connection_cleanup h = absurd (false≢true h)
is_transient_sound transient_handshake h = by_handshake
is_transient_sound timeout h = by_timeout
is_transient_sound connection_reset h = by_reset
is_transient_sound connection_aborted h = by_abort
is_transient_sound connection_refused h = by_refusal
is_transient_sound other h = absurd (false≢true h)

is_transient_errno_sound : (n : ℕ) → is_transient_errno n ≡ true → Transient (os_error n)
unfolding is_transient_errno
is_transient_errno_sound n h = elim (Bool-cases (nat_beq n 110)) [
  | inl e ↦ rw ((nat_beq_iff n 110).0 e) by_errno_110
  | inr a ↦ elim (Bool-cases (nat_beq n 104)) [
    | inl e ↦ rw ((nat_beq_iff n 104).0 e) by_errno_104
    | inr b ↦ elim (Bool-cases (nat_beq n 103)) [
      | inl e ↦ rw ((nat_beq_iff n 103).0 e) by_errno_103
      | inr c ↦
          let e : nat_beq n 111 ≡ true = ground (arith, h, a, b, c) in
          rw ((nat_beq_iff n 111).0 e) by_errno_111
    ]
  ]
]

mutual
  unfolding retryable

  retryable_sound : (f : Failure) → retryable f ≡ true → Transient f
  retryable_sound (plain p) h = is_transient_sound p h
  retryable_sound (os_error n) h = is_transient_errno_sound n h
  retryable_sound (no_valid_connections nil) h = absurd (false≢true h)
  retryable_sound (no_valid_connections (cons f fs)) h =
      let (a, b) = and_true (retryable f) (all_retryable fs) h in
      every_address (retryable_sound f a) (all_retryable_sound fs b)
  retryable_sound (wrapped tunnel_timeout c) h = by_deadline
  retryable_sound (wrapped device_connection c) h = cause_retryable_sound device_connection c h
  retryable_sound (wrapped connection_retry_exhausted c) h =
      cause_retryable_sound connection_retry_exhausted c h
  retryable_sound (wrapped teleport c) h = cause_retryable_sound teleport c h
  retryable_sound (wrapped tunnel c) h = cause_retryable_sound tunnel c h

  cause_retryable_sound :
      (w : Wrapper) (c : Cause) → cause_retryable c ≡ true → Transient (wrapped w c)
  cause_retryable_sound w no_cause h = absurd (false≢true h)
  cause_retryable_sound w (cause f) h = by_cause (retryable_sound f h)

  all_retryable_sound : (fs : Failures) → all_retryable fs ≡ true → AllTransient fs
  all_retryable_sound nil h = none_left
  all_retryable_sound (cons f fs) h =
      let (a, b) = and_true (retryable f) (all_retryable fs) h in
      one_more (retryable_sound f a) (all_retryable_sound fs b)

mutual
  unfolding retryable is_transient is_transient_errno

  retryable_complete : {f : Failure} → Transient f → retryable f ≡ true
  retryable_complete by_handshake = refl
  retryable_complete by_timeout = refl
  retryable_complete by_reset = refl
  retryable_complete by_abort = refl
  retryable_complete by_refusal = refl
  retryable_complete by_errno_110 = refl
  retryable_complete by_errno_104 = refl
  retryable_complete by_errno_103 = refl
  retryable_complete by_errno_111 = refl
  retryable_complete (every_address t ts) =
      ground (arith, retryable_complete t, all_retryable_complete ts)
  retryable_complete by_deadline = refl
  retryable_complete (by_cause {w = w} t) = ground (arith, retryable_complete t)

  all_retryable_complete : {fs : Failures} → AllTransient fs → all_retryable fs ≡ true
  all_retryable_complete none_left = refl
  all_retryable_complete (one_more t ts) =
      ground (arith, retryable_complete t, all_retryable_complete ts)

-- A failure is retried exactly if it is a transient handshake, a timeout, a reset, an abort or a refusal of the
-- connection, an operating system error 110, 104, 103 or 111, a tunnel's deadline, a wrapper whose explicit cause
-- is retried, or a failure of one address or more each of which is retried.
pub retryable_iff : (f : Failure) → (retryable f ≡ true) ↔ Transient f
retryable_iff f = (retryable_sound f, retryable_complete)
