-- ===== src/Configuration/Selection/Laws.antt =====
-- What the selection keeps, and what it promises of the requests that are executed.
use orbit_flow_evo.Base.{
  ◌≡◌, refl, ap, ◌∙◌, true, Option, none, some, List, [], ◌∷◌, ◌++◌, inl, inr, Bool-cases,
  Option-cases, All,
}
use mathlib.Core.List.{Perm, perm_middle, append_assoc}
use mathlib.Core.List.Perm
use orbit_flow_evo.Base.Texts.{Text}
use orbit_flow_evo.Configuration.Selection.{
  Request, Reason, dependency_not_executable, Skipped, Selection, reason, select_one, select,
  is_ready, closure, prepare_selection,
}

-- Each request depends on earlier ones only.
abbrev pub IsClosed : List Text → List Request → Type 0
IsClosed ready [] = Unit
IsClosed ready (r ∷ requests) =
    (is_ready ready r ≡ true) × IsClosed (ready ++ r.row_id ∷ []) requests

IsClosed-closure :
    (ready : List Text) (requests : List Request)
    → IsClosed ready (closure ready requests).executable
unfolding closure select_one
IsClosed-closure ready [] = tt
IsClosed-closure ready (r ∷ requests) = elim (Bool-cases (is_ready ready r)) [
  | inl y ↦ rw y (y, IsClosed-closure (ready ++ r.row_id ∷ []) requests)
  | inr n ↦ rw n (IsClosed-closure ready requests)
]

abbrev pub Chosen : Request → Type 0
Chosen r = reason r ≡ none

select-Chosen : (requests : List Request) → All Chosen (select requests).executable
unfolding select select_one
select-Chosen [] = tt
select-Chosen (r ∷ requests) = elim (Option-cases (reason r)) [
  | inl n ↦ rw n (n, select-Chosen requests)
  | inr w ↦ rw w.1 (select-Chosen requests)
]

closure-Chosen :
    (ready : List Text) (requests : List Request)
    → All Chosen requests
    → All Chosen (closure ready requests).executable
unfolding closure select_one
closure-Chosen ready [] h = tt
closure-Chosen ready (r ∷ requests) h = elim (Bool-cases (is_ready ready r)) [
  | inl y ↦ rw y (h.0, closure-Chosen (ready ++ r.row_id ∷ []) requests h.1)
  | inr n ↦ rw n (closure-Chosen ready requests h.1)
]

-- A request is executed only without a reason to skip it, and only after every row that it depends on, each of
-- which is executed before it.
pub prepare_selection-IsClosed :
    (requests : List Request)
    → IsClosed [] (prepare_selection requests).executable
      × All Chosen (prepare_selection requests).executable
unfolding prepare_selection
prepare_selection-IsClosed requests = (
  IsClosed-closure [] (select requests).executable,
  closure-Chosen [] (select requests).executable (select-Chosen requests),
)

abbrev pub requests_of : List Skipped → List Request
requests_of [] = []
requests_of (s ∷ skipped) = s.request ∷ requests_of skipped

requests_of-append :
    (xs ys : List Skipped) → requests_of (xs ++ ys) ≡ requests_of xs ++ requests_of ys
requests_of-append [] ys = refl
requests_of-append (s ∷ xs) ys = ap (λ l. s.request ∷ l) (requests_of-append xs ys)

-- All the requests of a selection, the skipped first.
abbrev pub everything : Selection → List Request
everything s = requests_of s.skipped ++ s.executable

select_one-Perm :
    (o : Option Reason) (r : Request) (s : Selection)
    → Perm (everything (select_one o r s)) (r ∷ everything s)
unfolding select_one
select_one-Perm none r s = perm_middle (requests_of s.skipped) s.executable
select_one-Perm (some why) r s = Perm.rfl

select-Perm : (requests : List Request) → Perm (everything (select requests)) requests
unfolding select
select-Perm [] = Perm.rfl
select-Perm (r ∷ requests) =
    Perm.trans (select_one-Perm (reason r) r (select requests)) (Perm.cons r (select-Perm requests))

closure-Perm :
    (ready : List Text) (requests : List Request)
    → Perm (everything (closure ready requests)) requests
unfolding closure
closure-Perm ready [] = Perm.rfl
closure-Perm ready (r ∷ requests) = elim (Bool-cases (is_ready ready r)) [
  | inl y ↦ rw y (
      Perm.trans (select_one-Perm none r (closure (ready ++ r.row_id ∷ []) requests))
        (Perm.cons r (closure-Perm (ready ++ r.row_id ∷ []) requests)))
  | inr n ↦ rw n (
      Perm.trans (select_one-Perm (some dependency_not_executable) r (closure ready requests))
        (Perm.cons r (closure-Perm ready requests)))
]

-- Every request of the plan is either executed or skipped, and only once.
pub prepare_selection-Perm :
    (requests : List Request) → Perm (everything (prepare_selection requests)) requests
unfolding prepare_selection
prepare_selection-Perm requests =
    let s = select requests in
    let c = closure [] s.executable in
    let split : everything (prepare_selection requests) ≡ requests_of s.skipped ++ everything c =
      ap (λ l. l ++ c.executable) (requests_of-append s.skipped c.skipped)
      ∙ append_assoc (requests_of s.skipped) (requests_of c.skipped) c.executable in
    rw split (
      Perm.trans (Perm.append_left (requests_of s.skipped) (closure-Perm [] s.executable))
        (select-Perm requests))
