-- ===== src/Spool/Retry/Laws.antt =====
-- src/orbitflow/result_spool.py: how often `_permission_retry` calls its operation, and for how long.
use orbit_flow_evo.Base.{
  ℕ, suc, ◌+◌, ◌≤◌, ◌<◌, ◌≡◌, refl, sym, List, [], ◌∷◌, arith, length, inl, inr, ◌⊎◌,
}
use mathlib.Core.Path.{subst}
use orbit_flow_evo.Spool.Retry.{
  Attempt, Retried, first_attempt, retry_from, delays, permission_retry,
}

abbrev pub sum : List ℕ → ℕ
sum [] = 0
sum (x ∷ xs) = x + sum xs

-- The retries end with the call `last`: it is the first that is not denied, or the last that the
-- delays allow.
pub record EndsAt (limit : ℕ) (pause : ℕ) (operation : ℕ → Attempt) (first : ℕ) (r : Retried)
    : Type 0 where
  pub last : ℕ
  pub calls : r.calls ≡ last + 1
  pub outcome : r.outcome ≡ operation last
  pub within : (first ≤ last) × (last ≤ first + limit)
  pub denied : (i : ℕ) → first ≤ i → i < last → operation i ≡ Attempt.denied
  pub exhausted : r.outcome ≡ Attempt.denied → last ≡ first + limit
  pub slept : sum r.slept ≤ pause

ends_now :
    (limit pause first : ℕ) (operation : ℕ → Attempt) (a : Attempt)
    → operation first ≡ a
    → (a ≡ Attempt.denied → limit ≡ 0)
    → EndsAt limit pause operation first (record { outcome = a; calls = first + 1; slept = [] })
ends_now limit pause first operation a e d = record {
  last = first;
  calls = refl;
  outcome = sym e;
  within = (omega arith, omega arith);
  denied = λ i l h. absurd (omega arith);
  exhausted = λ h. omega (arith, d h);
  slept = omega arith;
}

nat_cases : (n i : ℕ) → n ≤ i → (n ≡ i) ⊎ (n + 1 ≤ i)
nat_cases n i h = ground arith

-- One more delay before the retries, and what the first call came to.
retries_later :
    (d : ℕ) (ds : List ℕ) (operation : ℕ → Attempt) (first : ℕ)
    → operation first ≡ Attempt.denied
    → EndsAt (length ds) (sum ds) operation (first + 1) (retry_from ds operation (first + 1))
    → (let r = retry_from ds operation (first + 1) in
        EndsAt (suc (length ds)) (d + sum ds) operation first (record r { slept = d ∷ r.slept }))
retries_later d ds operation first e r = record {
  last = r.last;
  calls = r.calls;
  outcome = r.outcome;
  within = (omega (arith, r.within), omega (arith, r.within));
  denied = λ i l h. elim (nat_cases first i l) [
    | inl same ↦ subst (λ j. operation j ≡ Attempt.denied) same e
    | inr later ↦ r.denied i later h
  ];
  exhausted = λ h. omega (arith, r.exhausted h);
  slept = omega (arith, r.slept);
}

after_first :
    (d : ℕ) (ds : List ℕ) (operation : ℕ → Attempt) (first : ℕ) (a : Attempt)
    → operation first ≡ a
    → EndsAt (length ds) (sum ds) operation (first + 1) (retry_from ds operation (first + 1))
    → EndsAt
        (suc (length ds))
        (d + sum ds)
        operation
        first
        (first_attempt d first a (retry_from ds operation (first + 1)))
after_first d ds operation first Attempt.done e r =
    ends_now (suc (length ds)) (d + sum ds) first operation Attempt.done e (λ h. cc)
after_first d ds operation first Attempt.broken e r =
    ends_now (suc (length ds)) (d + sum ds) first operation Attempt.broken e (λ h. cc)
after_first d ds operation first Attempt.denied e r = retries_later d ds operation first e r

retry_from-EndsAt :
    (ds : List ℕ) (operation : ℕ → Attempt) (first : ℕ)
    → EndsAt (length ds) (sum ds) operation first (retry_from ds operation first)
unfolding retry_from
retry_from-EndsAt [] operation first =
    ends_now 0 0 first operation (operation first) refl (λ h. refl)
retry_from-EndsAt (d ∷ ds) operation first =
    let rest = retry_from-EndsAt ds operation (first + 1) in
    after_first d ds operation first (operation first) refl rest

-- The operation is called at most four times, with pauses of at most 700 milliseconds together. The last call
-- decides the outcome; every call before it was denied permission, and only a fourth denial is raised.
pub permission_retry-EndsAt :
    (operation : ℕ → Attempt) → EndsAt 3 700 operation 0 (permission_retry operation)
unfolding permission_retry
permission_retry-EndsAt operation = retry_from-EndsAt delays operation 0
