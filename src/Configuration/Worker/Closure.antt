-- ===== src/Configuration/Worker/Closure.antt =====
-- What an entry of a stage depends on, when each entry of a device depends on earlier ones.
use orbit_flow_evo.Base.{
  ℕ, ◌≡◌, refl, sym, ap, ◌∙◌, Bool, true, false, not, List, [], ◌∷◌, ◌++◌, all, arith, inl, inr,
  Bool-cases, All,
}
use mathlib.Core.Path.{subst}
use mathlib.Core.List.{append_assoc, append-nil}
use orbit_flow_evo.Base.Equality.{
  contains, contains-append, list_eq, list_beq_iff, nat_eq, eq_self, ◌==◌,
}
use orbit_flow_evo.Base.Texts.{Text}
use orbit_flow_evo.Configuration.Stages.{Entry}
use orbit_flow_evo.Configuration.Stages.Laws.{Apart, IsIndependent}
use orbit_flow_evo.Configuration.Worker.Rows.{dependencies_met}
use orbit_flow_evo.Configuration.Worker.Laws.{entry_ids}

-- Each entry depends only on entries before it.
abbrev pub IsClosed : List Text → List Entry → Type 0
IsClosed ready [] = Unit
IsClosed ready (e ∷ entries) =
    (dependencies_met ready e ≡ true) × IsClosed (ready ++ e.row_id ∷ []) entries

abbrev pub avoids : List Text → Entry → Bool
avoids ids e = all (λ id. not (contains e.dependencies id)) ids

avoids_at :
    (deps ids : List Text) (x : Text)
    → all (λ id. not (contains deps id)) ids ≡ true
    → contains deps x ≡ true
    → contains ids x ≡ false
avoids_at deps [] x h k = refl
avoids_at deps (id ∷ ids) x h k = elim (Bool-cases (id == x)) [
  | inr n ↦ ground (arith, avoids_at deps ids x)
  | inl y ↦
      let same : contains deps id ≡ true =
        ap (contains deps) ((list_beq_iff {A = ℕ} id x).0 y) ∙ k in
      ground arith
]

-- What an entry depends on, the ids that it avoids left out.
met_without :
    (ready ids deps : List Text)
    → all (contains (ready ++ ids)) deps ≡ true
    → ((x : Text) → contains deps x ≡ true → contains ids x ≡ false)
    → all (contains ready) deps ≡ true
met_without ready ids [] h k = refl
met_without ready ids (y ∷ deps) h k =
    let rest = met_without ready ids deps (ground arith) (λ x m. k x (ground arith)) in
    let new = k y (ground (arith, eq_self y)) in ground (arith, contains-append ready ids y)

all-snoc :
    (p : Text → Bool) (xs : List Text) (x : Text)
    → all p xs ≡ true
    → p x ≡ true
    → all p (xs ++ x ∷ []) ≡ true
all-snoc p [] x h k = ground arith
all-snoc p (y ∷ xs) x h k = ground (arith, all-snoc p xs x)

avoid_more :
    (before : List Text) (e : Entry) (stage : List Entry)
    → All (λ f. avoids before f ≡ true) stage
    → All (Apart e) stage
    → All (λ f. avoids (before ++ e.row_id ∷ []) f ≡ true) stage
avoid_more before e [] h k = tt
avoid_more before e (f ∷ stage) h k = (
  all-snoc (λ id. not (contains f.dependencies id)) before e.row_id h.0 (ap not k.0.dependency),
  avoid_more before e stage h.1 k.1,
)

-- The entries of a stage depend on entries of the stages before it.
pub earlier_stages :
    (ready before : List Text) (stage rest : List Entry)
    → IsClosed (ready ++ before) (stage ++ rest)
    → IsIndependent stage
    → All (λ e. avoids before e ≡ true) stage
    → All (λ e. dependencies_met ready e ≡ true) stage
      × IsClosed (ready ++ (before ++ entry_ids stage)) rest
unfolding dependencies_met
earlier_stages ready before [] rest c i a =
    (tt, subst (λ l. IsClosed (ready ++ l) rest) (sym (append-nil before)) c)
earlier_stages ready before (e ∷ stage) rest c i a =
    let more =
      earlier_stages ready (before ++ e.row_id ∷ []) stage rest
        (subst (λ l. IsClosed l (stage ++ rest)) (append_assoc ready before (e.row_id ∷ [])) c.1)
        i.1 (avoid_more before e stage a.1 i.0) in
    (
      (
        met_without ready before e.dependencies c.0
            (λ x m. avoids_at e.dependencies before x a.0 m),
        more.0,
      ),
      subst (λ l. IsClosed (ready ++ l) rest)
          (append_assoc before (e.row_id ∷ []) (entry_ids stage)) more.1,
    )
