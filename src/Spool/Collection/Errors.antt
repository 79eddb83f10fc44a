-- ===== src/Spool/Collection/Errors.antt =====
-- src/orbitflow/result_spool.py: what an `append` that raises leaves, and what may follow it.
use orbit_flow_evo.Base.{
  ℕ, ◌≡◌, refl, ◌∙◌, ap, true, List, [], ◌∷◌, Result, ok, err, ◌>>=◌, arith, inl, inr, ◌⊎◌,
  Bool-cases,
}
use orbit_flow_evo.Base.Texts.{Text}
use orbit_flow_evo.Json.{Json}
use orbit_flow_evo.Spool.{Run, SpoolError, not_owner, stopped}
use orbit_flow_evo.Spool.Safe.{safe}
use orbit_flow_evo.Spool.Append.{
  Codec, Append, owned_by, validate, chosen, latched, record_staged, record_outcome, prepare,
  append, append_all, envelope_of, is_failed, stage,
}

validate-stopped :
    (a : Append) (run : Run)
    → run.append_failed ≡ true
    → (e : SpoolError) × (validate a run ≡ err e)
unfolding validate
validate-stopped a run h = elim (Bool-cases (owned_by a.thread run.writer)) [
  | inl owned ↦ (stopped, ground (arith, owned, h))
  | inr other ↦ (not_owner, ground (arith, other))
]

latched-error :
    (r : Result SpoolError (Unit {0})) (run : Run) (e : SpoolError)
    → (latched (r, run)).0 ≡ err e
    → (latched (r, run)).1.append_failed ≡ true
latched-error (ok _) run e h = cc
latched-error (err _) run e h = refl

record_staged-error :
    (a : Append) (p : ℕ) (t : Text) (failed : _) (staging : Result SpoolError Text) (run : Run)
    (e : SpoolError)
    → (record_staged a p t failed staging run).0 ≡ err e
    → (record_staged a p t failed staging run).1.append_failed ≡ true
record_staged-error a p t failed (err x) run e h = refl
record_staged-error a p t failed (ok stored) run e h = latched-error _ _ e h

module _ (codec : Codec) (clean : Text → Text) where
  prepare-stopped :
      (a : Append) (run : Run)
      → run.append_failed ≡ true
      → (e : SpoolError) × (prepare codec clean a run ≡ err e)
  unfolding prepare
  prepare-stopped a run h =
      let (e, v) = validate-stopped a run h in
      (
        e,
        ap
            (λ r. r >>= λ position.
              safe clean (chosen a.payload a.value) >>= λ payload. ok (position, payload))
            v,
      )

  append_stopped :
      (a : Append) (run : Run) → run.append_failed ≡ true → (append codec clean a run).1 ≡ run
  unfolding append
  append_stopped a run h =
      let (e, p) = prepare-stopped a run h in ap (λ r. (record_outcome codec clean a run r).1) p

  append_all-stopped :
      (calls : List Append) (run : Run)
      → run.append_failed ≡ true
      → append_all codec clean calls run ≡ run
  unfolding append_all
  append_all-stopped [] run h = refl
  append_all-stopped (a ∷ calls) run h =
      let same = append_stopped a run h in
      ap (append_all codec clean calls) same ∙ append_all-stopped calls run h

  record_outcome-error :
      (a : Append) (run : Run) (r : Result SpoolError (ℕ × Json)) (e : SpoolError)
      → (record_outcome codec clean a run r).0 ≡ err e
      → ((record_outcome codec clean a run r).1 ≡ run)
        ⊎ ((record_outcome codec clean a run r).1.append_failed ≡ true)
  record_outcome-error a run (err x) e h = inl refl
  record_outcome-error a run (ok (p, payload)) e h = inr (
      record_staged-error a p (clean a.target) (is_failed codec clean a)
        (stage codec a (envelope_of codec clean a run p payload)) run e h)

  -- An append that raises either leaves the run as it was, or no later call of `append` changes the
  -- run any more.
  pub append-error :
      (a : Append) (run : Run) (e : SpoolError)
      → (append codec clean a run).0 ≡ err e
      → ((append codec clean a run).1 ≡ run)
        ⊎ ((later : List Append)
            → append_all codec clean later (append codec clean a run).1
              ≡ (append codec clean a run).1)
  unfolding append
  append-error a run e h = elim (record_outcome-error a run (prepare codec clean a run) e h) [
    | inl same ↦ inl same
    | inr stops ↦ inr (λ later. append_all-stopped later _ stops)
  ]
