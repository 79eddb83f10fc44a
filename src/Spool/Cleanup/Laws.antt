-- ===== src/Spool/Cleanup/Laws.antt =====
-- src/orbitflow/result_spool.py: what a removal may delete, and what is left where it raises.
use orbit_flow_evo.Base.{
  ℕ, suc, ◌<◌, ◌≡◌, ◌≢◌, refl, ap, sym, ◌∙◌, Bool, true, false, not, Option, none, some, List, [],
  ◌∷◌, ◌++◌, Result, ok, err, arith, if_elim, inl, inr, ◌⊎◌,
}
use mathlib.Core.List.{append-nil}
use orbit_flow_evo.Spool.{Status, consumed, Manifest, SpoolError, permission, storage}
use orbit_flow_evo.Spool.Retry.{Attempt}
use orbit_flow_evo.Spool.Cleanup.{
  Entry, Item, survey, Left, untouched, marked, bare, damaged, gone, Removing, mark, outcome_of,
  clear_first, clear, rewritten, remove_directory, unlink_manifest, cleared, delete_marked,
  deletions, delete_surveyed, is_consumed, is_recent, is_forbidden, remove_run, deferred, remove,
}

-- What remains of the deletions, with what was done before it, is all of them.
abbrev pub IsRest : List Item → List Item → Type 0
IsRest items rest = (done : List Item) × (items ≡ done ++ rest)

clear_first-IsRest :
    (a : Attempt) (i : Item) (items : List Item) (z : Result SpoolError (Unit {0}) × List Item)
    → IsRest items z.1
    → IsRest (i ∷ items) (clear_first a (i ∷ items) z).1
clear_first-IsRest Attempt.done i items z (done, e) = (i ∷ done, ap (◌∷◌ i) e)
clear_first-IsRest Attempt.denied i items z r = ([], refl)
clear_first-IsRest Attempt.broken i items z r = ([], refl)

clear-IsRest :
    (delete : ℕ → ℕ → Attempt) (step : ℕ) (items : List Item)
    → IsRest items (clear delete step items).1
unfolding clear
clear-IsRest delete step [] = ([], refl)
clear-IsRest delete step (i ∷ items) =
    clear_first-IsRest (outcome_of (delete step)) i items _ (clear-IsRest delete (suc step) items)

-- What a removal of a run may leave.
abbrev pub IsLeft : Manifest → List Item → Result SpoolError Bool → Left → Type 0
IsLeft m items r untouched = r ≢ ok true
IsLeft m items r (marked m' rest) = (r ≢ ok true) × (m' ≡ mark m) × IsRest items rest
IsLeft m items r bare = r ≢ ok true
IsLeft m items r damaged = r ≡ err storage
IsLeft m items r gone = r ≡ ok true

clear_ok-IsNil :
    (delete : ℕ → ℕ → Attempt) (step : ℕ) (items : List Item)
    → (clear delete step items).0 ≡ ok tt
    → (clear delete step items).1 ≡ []
unfolding clear
clear_ok-IsNil delete step [] h = refl
clear_ok-IsNil delete step (i ∷ items) h =
    let rest = clear_ok-IsNil delete (suc step) items in ground arith

module _ (r : Removing) (m : Manifest) (items : List Item) where
  rewritten-IsLeft : (a : Attempt) → (let z = rewritten m a in IsLeft m items z.0 z.1)
  rewritten-IsLeft Attempt.done = (λ h. cc, refl, (items, sym (append-nil items)))
  rewritten-IsLeft Attempt.denied = λ h. cc
  rewritten-IsLeft Attempt.broken = refl

  remove_directory-IsLeft :
      (a : Attempt) → (let z = remove_directory r m a in IsLeft m items z.0 z.1)
  remove_directory-IsLeft Attempt.done = refl
  remove_directory-IsLeft Attempt.denied = rewritten-IsLeft (outcome_of r.rewrite)
  remove_directory-IsLeft Attempt.broken = λ h. cc

  unlink_manifest-IsLeft : (a : Attempt) → (let z = unlink_manifest r m a in IsLeft m items z.0 z.1)
  unlink_manifest-IsLeft Attempt.done = remove_directory-IsLeft (outcome_of r.rmdir)
  unlink_manifest-IsLeft Attempt.denied = (λ h. cc, refl, (items, sym (append-nil items)))
  unlink_manifest-IsLeft Attempt.broken = (λ h. cc, refl, (items, sym (append-nil items)))

  cleared-IsLeft :
      (c : Result SpoolError (Unit {0})) (rest : List Item)
      → IsRest items rest
      → (let z = cleared r m (c, rest) in IsLeft m items z.0 z.1)
  cleared-IsLeft (ok _) rest i = unlink_manifest-IsLeft (outcome_of r.unlink)
  cleared-IsLeft (err e) rest i = (λ h. cc, refl, i)

  delete_marked-IsLeft :
      (a : Attempt) → (let z = delete_marked r m items a in IsLeft m items z.0 z.1)
  delete_marked-IsLeft Attempt.done =
      cleared-IsLeft (clear r.delete 0 items).0 (clear r.delete 0 items).1
        (clear-IsRest r.delete 0 items)
  delete_marked-IsLeft Attempt.denied = λ h. cc
  delete_marked-IsLeft Attempt.broken = refl

-- Who may be removed: a consumed run, or where a cutoff is given one that was updated before it.
abbrev pub Authorizes : Option ℕ → Manifest → Type 0
Authorizes none m = m.status ≡ consumed
Authorizes (some before) m = m.updated_at < before

is_consumed_lem : (s : Status) → is_consumed s ≡ true → s ≡ consumed
is_consumed_lem s h = ground (arith, h)

authorized :
    (before : Option ℕ) (m : Manifest)
    → is_recent before m ≡ false
    → is_forbidden before m ≡ false
    → Authorizes before m
authorized none m a b = is_consumed_lem m.status (ground (arith, b))
authorized (some before) m a b = ground (arith, a)

-- What a removal comes to: it does nothing, or it was authorized and surveyed.
abbrev pub IsRemoval : Removing → List Entry → Manifest → Result SpoolError Bool × Left → Type 0
IsRemoval r entries m z =
    ((z.1 ≡ untouched) × (z.0 ≢ ok true))
    ⊎ (Authorizes r.before m
        × (found : List Item × List Item) × (survey entries ≡ ok found)
        × IsLeft m (deletions found) z.0 z.1)

delete_surveyed-IsRemoval :
    (r : Removing) (entries : List Entry) (m : Manifest)
    (found : Result SpoolError (List Item × List Item))
    → survey entries ≡ found
    → Authorizes r.before m
    → IsRemoval r entries m (delete_surveyed r m found)
delete_surveyed-IsRemoval r entries m (err e) s a = inl (refl, λ h. cc)
delete_surveyed-IsRemoval r entries m (ok found) s a =
    inr (a, found, s, delete_marked-IsLeft r m (deletions found) (outcome_of r.write))

IsLeft-deferred :
    (m : Manifest) (items : List Item) (z : Result SpoolError Bool × Left)
    → IsLeft m items z.0 z.1
    → IsLeft m items (deferred z).0 (deferred z).1
IsLeft-deferred m items (ok b, left) h = h
IsLeft-deferred m items (err permission, untouched) h = λ e. cc
IsLeft-deferred m items (err permission, marked m' rest) h = (λ e. cc, h.1, h.2)
IsLeft-deferred m items (err permission, bare) h = λ e. cc
IsLeft-deferred m items (err permission, damaged) h = cc
IsLeft-deferred m items (err permission, gone) h = cc
IsLeft-deferred m items (err e, left) h = h

deferred-same : (z : Result SpoolError Bool × Left) → (deferred z).1 ≡ z.1
deferred-same (ok b, left) = refl
deferred-same (err permission, left) = refl
deferred-same (err e, left) = refl

deferred-ok : (e : SpoolError) (left : Left) → (deferred (err e, left)).0 ≢ ok true
deferred-ok permission left h = cc
deferred-ok e left h = cc

IsRemoval-deferred :
    (r : Removing) (entries : List Entry) (m : Manifest) (z : Result SpoolError Bool × Left)
    → IsRemoval r entries m z
    → IsRemoval r entries m (deferred z)
IsRemoval-deferred r entries m (ok b, left) h = h
IsRemoval-deferred r entries m (err e, left) (inl (u, n)) =
    inl (deferred-same (err e, left) ∙ u, deferred-ok e left)
IsRemoval-deferred r entries m (err e, left) (inr (a, found, s, h)) =
    inr (a, found, s, IsLeft-deferred m (deletions found) (err e, left) h)

-- A removal either changes nothing, and does not say that it removed the run; or the run was consumed (with a cutoff: last
-- updated before it), every entry of its directory was recognized, and the removal is complete and says so, or it stops
-- in the order of the deletions with the cleanup marker stored, or with no file left at all, unless a
-- write of the manifest itself broke off.
pub remove-IsRemoval :
    (r : Removing) (entries : List Entry) (m : Manifest)
    → IsRemoval r entries m (remove r entries m)
unfolding remove remove_run
remove-IsRemoval r entries m = IsRemoval-deferred r entries m _ (
    if_elim (IsRemoval r entries m) r.links _ _ (λ _. inl (refl, λ h. cc))
      (λ _.
        if_elim (IsRemoval r entries m) (not r.free) _ _ (λ _. inl (refl, λ h. cc))
          (λ _.
            if_elim (IsRemoval r entries m) (is_recent r.before m) _ _ (λ _. inl (refl, λ h. cc))
              (λ late.
                if_elim (IsRemoval r entries m) (is_forbidden r.before m) _ _
                  (λ _. inl (refl, λ h. cc))
                  (λ permitted.
                    delete_surveyed-IsRemoval r entries m (survey entries) refl
                      (authorized r.before m late permitted))))))

-- Whether the operation ends without an error.
abbrev pub Succeeds : (ℕ → Attempt) → Type 0
Succeeds operation = outcome_of operation ≡ Attempt.done

clear-Succeeds :
    (delete : ℕ → ℕ → Attempt) (step : ℕ) (items : List Item)
    → ((i : ℕ) → Succeeds (delete i))
    → clear delete step items ≡ (ok tt, [])
unfolding clear
clear-Succeeds delete step [] h = refl
clear-Succeeds delete step (i ∷ items) h =
    rw (h step, clear-Succeeds delete (suc step) items h) refl

-- A removal of a consumed run whose entries are all recognized removes it, where the lease is free and
-- every step succeeds within its retries.
pub remove-gone :
    (r : Removing) (entries : List Entry) (m : Manifest) (found : List Item × List Item)
    → r.links ≡ false
    → r.free ≡ true
    → r.before ≡ none
    → m.status ≡ consumed
    → survey entries ≡ ok found
    → Succeeds r.write
    → ((i : ℕ) → Succeeds (r.delete i))
    → Succeeds r.unlink
    → Succeeds r.rmdir
    → remove r entries m ≡ (ok true, gone)
unfolding remove remove_run
remove-gone r entries m found l f b c s w d u g =
    rw (l, f, b, c, s, w, clear-Succeeds r.delete 0 (deletions found) d, u, g) refl
