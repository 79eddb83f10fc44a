-- ===== src/Transport/Pacing.antt =====
-- `ConnectionStartPacer` of transport/policy.py. Time is a number of ticks. `sleep` is that of the
-- standard library: it returns no earlier than asked, here `late` ticks later, and the clock is
-- monotonic.
use orbit_flow_evo.Base.{
  ℕ, ◌+◌, ◌-◌, ◌≤◌, ◌≡◌, refl, Option, none, some, List, [], ◌∷◌, arith, ltb, if◌then◌else◌,
}

pub record Pacer : Type 0 where
  pub interval : ℕ
  pub last : Option ℕ

-- One caller: the time that passes before it calls, and by how much its pause and its return are late.
pub record Caller : Type 0 where
  pub gap : ℕ
  pub late : ℕ

-- `_last + interval - clock()`, the pause, and the second reading of the clock.
unfoldable pub admitted_at : Option ℕ → ℕ → ℕ → ℕ → ℕ
admitted_at none interval now late = now + late
admitted_at (some last) interval now late =
    if ltb now (last + interval) then now + (last + interval - now) + late else now + late

-- `wait`, at time `now`: the pacer after it, and the time of the admission.
unfoldable pub wait : Pacer → ℕ → ℕ → Pacer × ℕ
unfolding admitted_at
wait p now late = let t = admitted_at p.last p.interval now late in (record p { last = some t }, t)

-- The admissions of callers that come one after another under the lock.
unfoldable pub admissions : Pacer → ℕ → List Caller → List ℕ
unfolding wait
admissions p now [] = []
admissions p now (c ∷ cs) = let (p', t) = wait p (now + c.gap) c.late in t ∷ admissions p' t cs

-- From `start` on, with `interval` between each two.
abbrev pub Spaced : ℕ → ℕ → List ℕ → Type 0
Spaced interval start [] = Unit
Spaced interval start (t ∷ ts) = (start ≤ t) × Spaced interval (t + interval) ts

after_last :
    (p : Pacer) (last now : ℕ) (cs : List Caller)
    → p.last ≡ some last
    → Spaced p.interval (last + p.interval) (admissions p now cs)
unfolding admissions
after_last p last now [] h = tt
after_last p last now (c ∷ cs) h =
    let t = admitted_at p.last p.interval (now + c.gap) c.late in
    (ground arith, after_last (record p { last = some t }) t t cs refl)

-- Connection starts are at least the interval apart, however the callers come.
pub admissions-Spaced :
    (p : Pacer) (now : ℕ) (cs : List Caller)
    → p.last ≡ none
    → Spaced p.interval now (admissions p now cs)
unfolding admissions
admissions-Spaced p now [] h = tt
admissions-Spaced p now (c ∷ cs) h =
    let t = admitted_at p.last p.interval (now + c.gap) c.late in
    (ground arith, after_last (record p { last = some t }) t t cs refl)

-- A caller that comes when the interval has passed is not held back.
pub wait_free :
    (p : Pacer) (last now late : ℕ)
    → p.last ≡ some last
    → last + p.interval ≤ now
    → (wait p now late).1 ≡ now + late
unfolding wait
wait_free p last now late h k = ground arith
