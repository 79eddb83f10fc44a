-- ===== src/Spool/Journal/Laws.antt =====
-- src/orbitflow/result_spool.py: the events of a journal, after any calls of its `append`.
use mathlib.Core.List.{append-nil, append_assoc, map-append}
use mathlib.Core.Path.{subst}
use orbit_flow_evo.Base.{
  ℕ, zero, suc, ◌+◌, ◌≡◌, refl, sym, ◌∙◌, ap, Bool, true, false, List, [], ◌∷◌, ◌++◌, Result, ok,
  err, arith, length, length-append, map, if◌then◌else◌,
}
use orbit_flow_evo.Base.Texts.{Text}
use orbit_flow_evo.Json.{Json}
use orbit_flow_evo.Execution.Defs.{positions}
use orbit_flow_evo.Spool.{SpoolError}
use orbit_flow_evo.Spool.Append.{Codec}
use orbit_flow_evo.Spool.Journal.{
  Event, Journal, Append, stage_event, record_event, append, append_all, empty, followed_by,
  recorded, content,
}

if_failed :
    (codec : Codec) (clean : Text → Text) (a : Append) (j : Journal) (b : Bool)
    → j.failed ≡ b
    → append codec clean a j
      ≡ (if b then (err SpoolError.stopped, j) else record_event (stage_event codec clean a) j)
unfolding append
if_failed codec clean a j b h =
    ap
      (λ b'. if b' then (err SpoolError.stopped, j) else record_event (stage_event codec clean a) j)
      h

append_all-failed :
    (codec : Codec) (clean : Text → Text) (calls : List Append) (j : Journal)
    → j.failed ≡ true
    → append_all codec clean calls j ≡ j
unfolding append_all
append_all-failed codec clean [] j h = refl
append_all-failed codec clean (a ∷ calls) j h =
    ap (λ z. append_all codec clean calls z.1) (if_failed codec clean a j true h)
    ∙ append_all-failed codec clean calls j h

positions-snoc : (first n : ℕ) → positions first n ++ (first + n) ∷ [] ≡ positions first (suc n)
unfolding positions
positions-snoc first zero = ap (λ p. p ∷ []) (omega arith)
positions-snoc first (suc n) =
    ap (λ p. first ∷ (positions (first + 1) n ++ p ∷ [])) (omega arith)
    ∙ ap (◌∷◌ first) (positions-snoc (first + 1) n)

-- The events are numbered from one on.
abbrev IsNumbered : Journal → Type 0
IsNumbered j = map (λ e. e.position) j.events ≡ positions 1 (length j.events)

IsNumbered-snoc :
    (j : Journal) (e : Event)
    → IsNumbered j
    → e.position ≡ length j.events + 1
    → IsNumbered (record { failed = j.failed; events = j.events ++ e ∷ [] })
IsNumbered-snoc j e n p =
    map-append (λ e. e.position) j.events (e ∷ [])
    ∙ ap (λ ps. ps ++ e.position ∷ []) n
    ∙ ap (λ q. positions 1 (length j.events) ++ q ∷ []) (p ∙ omega arith)
    ∙ positions-snoc 1 (length j.events)
    ∙ ap (positions 1) (sym (length-append j.events (e ∷ []) ∙ omega arith))

-- What the calls have recorded, after the events of before.
record Records (before : List (Json × Text)) (more : List (Json × Text)) (j : Journal)
    : Type 0 where
  pub contents : map content j.events ≡ before ++ more
  pub numbered : IsNumbered j

step :
    (codec : Codec) (clean : Text → Text) (a : Append) (calls : List Append) (j : Journal)
    (r : Result SpoolError (Json × Text))
    → IsNumbered j
    → j.failed ≡ false
    → ((k : Journal)
        → IsNumbered k
        → k.failed ≡ false
        → Records
            (map content k.events)
            (recorded codec clean calls)
            (append_all codec clean calls k))
    → Records
        (map content j.events)
        (followed_by (recorded codec clean calls) r)
        (append_all codec clean calls (record_event r j).1)
step codec clean a calls j (err e) n f rest =
    let same =
      append_all-failed codec clean calls (record { failed = true; events = j.events }) refl in
    rw same (record { contents = sym (append-nil _); numbered = n })
step codec clean a calls j (ok (target, stored)) n f rest =
    let e : Event = record { position = length j.events + 1; target = target; stored = stored } in
    let k : Journal = record { failed = j.failed; events = j.events ++ e ∷ [] } in
    let more = rest k (IsNumbered-snoc j e n refl) f in
    record {
      contents =
          more.contents
          ∙ ap (λ xs. xs ++ recorded codec clean calls) (map-append content j.events (e ∷ []))
          ∙ append_assoc (map content j.events) ((target, stored) ∷ [])
              (recorded codec clean calls);
      numbered = more.numbered;
    }

append_all-Records :
    (codec : Codec) (clean : Text → Text) (calls : List Append) (j : Journal)
    → IsNumbered j
    → j.failed ≡ false
    → Records (map content j.events) (recorded codec clean calls) (append_all codec clean calls j)
unfolding append_all recorded
append_all-Records codec clean [] j n f = record { contents = sym (append-nil _); numbered = n }
append_all-Records codec clean (a ∷ calls) j n f =
    subst
      (λ z.
        Records (map content j.events)
          (followed_by (recorded codec clean calls) (stage_event codec clean a))
          (append_all codec clean calls z.1))
      (sym (if_failed codec clean a j false f))
      (step codec clean a calls j (stage_event codec clean a) n f
        (λ k. append_all-Records codec clean calls k))

-- After any calls, the journal of a new run holds what the calls recorded up to the first that raised,
-- in their order and numbered from one on.
pub append_all-recorded :
    (codec : Codec) (clean : Text → Text) (calls : List Append)
    → (let j = append_all codec clean calls empty in
        (map content j.events ≡ recorded codec clean calls)
        × (map (λ e. e.position) j.events ≡ positions 1 (length j.events)))
append_all-recorded codec clean calls =
    let r = append_all-Records codec clean calls empty (unfold positions in refl) refl in
    (r.contents, r.numbered)
