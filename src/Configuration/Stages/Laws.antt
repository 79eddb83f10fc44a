-- ===== src/Configuration/Stages/Laws.antt =====
-- What splitting into stages (_template_stages) keeps, and what holds of the entries that share a stage.
use orbit_flow_evo.Base.{
  ℕ, ◌≡◌, refl, sym, ap, ◌∙◌, Bool, true, false, ◌||◌, List, [], ◌∷◌, ◌++◌, arith, inl, inr,
  Bool-cases, All,
}
use mathlib.Core.List.{append_assoc}
use orbit_flow_evo.Base.Equality.{Eq, contains, contains-append, list_eq, list_beq_iff, nat_eq}
use orbit_flow_evo.Base.Texts.{Text, is_nil}
use orbit_flow_evo.Configuration.Stages.{
  Touch, touch_eq, Entry, touched, meets, same_template, splits, stages_from, template_stages,
}

-- The stages, one after the other.
unfoldable pub flatten : List (List Entry) → List Entry
flatten [] = []
flatten (stage ∷ stages) = stage ++ flatten stages

flatten-stages_from :
    (pending : List Entry) (targets : List Touch) (ids : List Text) (entries : List Entry)
    → flatten (stages_from pending targets ids entries) ≡ pending ++ entries
unfolding flatten stages_from
flatten-stages_from [] targets ids [] = refl
flatten-stages_from (p ∷ pending) targets ids [] = refl
flatten-stages_from pending targets ids (e ∷ entries) =
    elim (Bool-cases (splits pending targets ids e)) [
      | inl split ↦ rw split (
          ap (λ r. pending ++ r) (flatten-stages_from (e ∷ []) (touched e) (e.row_id ∷ []) entries))
      | inr join ↦ rw join (
          flatten-stages_from (pending ++ e ∷ []) (targets ++ touched e) (ids ++ e.row_id ∷ [])
            entries
          ∙ append_assoc pending (e ∷ []) entries)
    ]

-- The stages of a device hold its approved entries, each once and in the approved order.
pub template_stages-flatten : (entries : List Entry) → flatten (template_stages entries) ≡ entries
unfolding template_stages
template_stages-flatten entries = flatten-stages_from [] [] [] entries

module _ {ℓ} {A : Type ℓ} ⦃eq : Eq A⦄ where
  meets-append : (xs ys zs : List A) → meets (xs ++ ys) zs ≡ (meets xs zs || meets ys zs)
  unfolding meets
  meets-append xs ys [] = refl
  meets-append xs ys (z ∷ zs) = ground (arith, meets-append xs ys zs, contains-append xs ys z)

  meets-one : (x : A) (zs : List A) → meets (x ∷ []) zs ≡ contains zs x
  unfolding meets
  meets-one x [] = refl
  meets-one x (z ∷ zs) = ground (arith, meets-one x zs, eq.beq_iff x z, eq.beq_iff z x)

-- The second entry can share the stage of the first, which comes before it.
pub record Apart (e f : Entry) : Type 0 where
  pub template : e.template_id ≡ f.template_id
  pub targets : meets (touched e) (touched f) ≡ false
  pub dependency : contains f.dependencies e.row_id ≡ false

abbrev pub IsIndependent : List Entry → Type 0
IsIndependent [] = Unit
IsIndependent (e ∷ es) = All (Apart e) es × IsIndependent es

All-snoc :
    (P : Entry → Type 0) (es : List Entry) (f : Entry) → All P es → P f → All P (es ++ f ∷ [])
All-snoc P [] f h k = (k, tt)
All-snoc P (e ∷ es) f h k = (h.0, All-snoc P es f h.1 k)

IsIndependent-snoc :
    (es : List Entry) (f : Entry)
    → IsIndependent es
    → All (λ e. Apart e f) es
    → IsIndependent (es ++ f ∷ [])
IsIndependent-snoc [] f h k = (tt, tt)
IsIndependent-snoc (e ∷ es) f h k =
    (All-snoc (Apart e) es f h.0 k.0, IsIndependent-snoc es f h.1 k.1)

-- What the pending stage knows: a next entry that its tests let pass is apart from every entry it has.
record Pending (es : List Entry) (targets : List Touch) (ids : List Text) : Type 0 where
  independent : IsIndependent es
  apart :
      (f : Entry)
      → same_template es f ≡ true
      → meets targets (touched f) ≡ false
      → meets ids f.dependencies ≡ false
      → All (λ e. Apart e f) es

Pending-one : (e : Entry) → Pending (e ∷ []) (touched e) (e.row_id ∷ [])
unfolding same_template
Pending-one e = record {
  independent = (tt, tt);
  apart = λ f t m d. (
    record {
      template = (list_beq_iff {A = ℕ} e.template_id f.template_id).0 t;
      targets = m;
      dependency = sym (meets-one e.row_id f.dependencies) ∙ d;
    },
    tt,
  );
}

same_template-snoc :
    (es : List Entry) (e f : Entry)
    → same_template es e ≡ true
    → same_template (es ++ e ∷ []) f ≡ true
    → (same_template es f ≡ true) × (e.template_id ≡ f.template_id)
unfolding same_template
same_template-snoc [] e f h k = (refl, (list_beq_iff {A = ℕ} e.template_id f.template_id).0 k)
same_template-snoc (first ∷ es) e f h k = (
  k,
  sym ((list_beq_iff {A = ℕ} first.template_id e.template_id).0 h)
      ∙ (list_beq_iff {A = ℕ} first.template_id f.template_id).0 k,
)

neither : (a b c : Bool) → c ≡ (a || b) → c ≡ false → (a ≡ false) × (b ≡ false)
neither a b c h k = ground arith

-- What an entry that does not split passed.
joins :
    (es : List Entry) (targets : List Touch) (ids : List Text) (e : Entry)
    → Pending es targets ids
    → splits es targets ids e ≡ false
    → (same_template es e ≡ true) × All (λ x. Apart x e) es
unfolding splits same_template
joins [] targets ids e p h = (refl, tt)
joins (first ∷ es) targets ids e p h =
    let t : same_template (first ∷ es) e ≡ true = ground arith in
    let m : meets targets (touched e) ≡ false = ground arith in
    let d : meets ids e.dependencies ≡ false = ground arith in (t, p.apart e t m d)

Pending-snoc :
    (es : List Entry) (targets : List Touch) (ids : List Text) (e : Entry)
    → Pending es targets ids
    → splits es targets ids e ≡ false
    → Pending (es ++ e ∷ []) (targets ++ touched e) (ids ++ e.row_id ∷ [])
Pending-snoc es targets ids e p h =
    let j = joins es targets ids e p h in
    record {
      independent = IsIndependent-snoc es e p.independent j.1;
      apart = λ f t m d.
          let ts = same_template-snoc es e f j.0 t in
          let ms =
            neither (meets targets (touched f)) (meets (touched e) (touched f))
              (meets (targets ++ touched e) (touched f))
              (meets-append targets (touched e) (touched f)) m in
          let ds =
            neither (meets ids f.dependencies) (meets (e.row_id ∷ []) f.dependencies)
              (meets (ids ++ e.row_id ∷ []) f.dependencies)
              (meets-append ids (e.row_id ∷ []) f.dependencies) d in
          All-snoc (λ x. Apart x f) es e (p.apart f ts.0 ms.0 ds.0)
            (record {
              template = ts.1;
              targets = ms.1;
              dependency = sym (meets-one e.row_id f.dependencies) ∙ ds.1;
            });
    }

pending_present :
    (pending : List Entry) (targets : List Touch) (ids : List Text) (e : Entry)
    → splits pending targets ids e ≡ true
    → is_nil pending ≡ false
unfolding splits
pending_present pending targets ids e h = ground arith

stages_from-IsIndependent :
    (pending : List Entry) (targets : List Touch) (ids : List Text) (entries : List Entry)
    → Pending pending targets ids
    → All (λ s. (is_nil s ≡ false) × IsIndependent s) (stages_from pending targets ids entries)
unfolding stages_from
stages_from-IsIndependent [] targets ids [] p = tt
stages_from-IsIndependent (e ∷ es) targets ids [] p = ((refl, p.independent), tt)
stages_from-IsIndependent pending targets ids (e ∷ entries) p =
    elim (Bool-cases (splits pending targets ids e)) [
      | inl split ↦ rw split (
        (pending_present pending targets ids e split, p.independent),
        stages_from-IsIndependent (e ∷ []) (touched e) (e.row_id ∷ []) entries (Pending-one e),
      )
      | inr join ↦ rw join (
          stages_from-IsIndependent (pending ++ e ∷ []) (targets ++ touched e)
            (ids ++ e.row_id ∷ []) entries (Pending-snoc pending targets ids e p join))
    ]

-- No stage is empty, and of two entries of one stage the later has the template of the earlier, touches no VLAN
-- or interface that the earlier touches, and does not depend on it.
pub template_stages-IsIndependent :
    (entries : List Entry)
    → All (λ s. (is_nil s ≡ false) × IsIndependent s) (template_stages entries)
unfolding template_stages same_template meets
template_stages-IsIndependent entries =
    stages_from-IsIndependent [] [] [] entries (record { independent = tt; apart = λ f t m d. tt })
