-- ===== src/Orchestration/Labels.antt =====
-- scripts/orchestration_v2/github_ops.py: the labels that hold the state of a task, and its transition. What
-- `gh issue edit` does is a parameter: a function from the labels of the issue and from those that it is told
-- to add and to remove, to its labels afterwards.
use orbit_flow_evo.Base.{
  ◌≡◌, refl, Bool, true, false, not, ◌&&◌, ◌||◌, List, [], ◌∷◌, keep, arith, String, Bool-cases,
  inl, inr, ap, ◌∙◌,
}
use orbit_flow_evo.Base.Equality.{◌==◌, string_eq, contains}

-- `STATE_LABELS`
abbrev pub state_labels : List String
state_labels =
    "codex-task" ∷ "codex-revise" ∷ "codex-running" ∷ "codex-pr" ∷ "codex-review" ∷ "codex-approved"
    ∷ "codex-failed" ∷ "codex-replan-required" ∷ []

-- The arguments of `gh issue edit` that `transition` builds.
pub record Edit : Type 0 where
  pub add : String
  pub remove : List String

unfoldable pub edit : List String → String → Edit
edit present state = record {
  add = state;
  remove = keep (λ label. not (label == state) && contains present label) state_labels;
}

-- `transition`: the edit, and the labels after it.
unfoldable pub transition : (List String → Edit → List String) → List String → String → List String
unfolding edit
transition gh present state = gh present (edit present state)

pub contains-keep :
    (p : String → Bool) (xs : List String) (a : String)
    → contains (keep p xs) a ≡ (p a && contains xs a)
contains-keep p [] a = ground arith
contains-keep p (x ∷ xs) a = elim (Bool-cases (x == a)) [
  | inl same ↦
      let e : p x ≡ p a = ap p ((string_eq.beq_iff x a).0 same) in
      ground (arith, e, contains-keep p xs a)
  | inr other ↦ ground (arith, contains-keep p xs a)
]

merged : (new p l : Bool) → (new || (p && not ((not new && p) && l))) ≡ (new || (p && not l))
merged true p l = refl
merged false true l = refl
merged false false l = refl

module _ (gh : List String → Edit → List String)
    (gh-edits : (present : List String) (e : Edit) (label : String)
      → contains (gh present e) label
        ≡ (label == e.add || (contains present label && not (contains e.remove label))))
    (present : List String) (state : String) where
  -- If the edit adds and removes the labels that it is told to, then after a transition the issue has the
  -- label of the new state, no other label of a state, and every label that is none of a state as before.
  pub transition-contains :
      (label : String)
      → contains (transition gh present state) label
        ≡ (label == state || (contains present label && not (contains state_labels label)))
  unfolding transition
  transition-contains label =
      gh-edits present (edit present state) label
      ∙ ap (λ r. label == state || (contains present label && not r))
          (contains-keep (λ l. not (l == state) && contains present l) state_labels label)
      ∙ merged (label == state) (contains present label) (contains state_labels label)
