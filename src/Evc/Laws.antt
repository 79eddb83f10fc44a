-- ===== src/Evc/Laws.antt =====
-- When two services overlap, and which settings are reported as omitted.
use orbit_flow_evo.Base.{
  ℕ, ◌≡◌, ◌↔◌, refl, sym, ap, ◌∙◌, Bool, true, false, not, ◌&&◌, ◌||◌, some, List, [], ◌∷◌, keep,
  arith, inl, inr, Bool-cases, nat_beq, nat_beq_iff, and_true,
}
use mathlib.Core.Bool.{true≢false}
use orbit_flow_evo.Base.Equality.{eq_self, contains, list_eq, list_beq_iff, ◌==◌, nat_eq}
use orbit_flow_evo.Base.Texts.{Text, is_nil}
use orbit_flow_evo.Evc.Services.{
  Inputs, Signature, share, overlaps, child_commands, untagged, tagged,
}
use orbit_flow_evo.Evc.Omitted.{
  Nodes, visit, excerpts, source_child_commands, excerpts_where, drops_group, is_omitted,
  omitted_of, omitted_child_commands,
}
use orbit_flow_evo.Base.Keys.{contains-from_keys}

-- A frame as it enters a port, without a tag or with an outer and an inner one.
pub data Frame : Type 0 where
  plain : Frame
  double : ℕ → ℕ → Frame

-- The frames of a service; one without inner tags takes every inner tag.
unfoldable pub takes : Signature → Frame → Bool
takes untagged plain = true
takes (tagged outer inner) (double o i) = contains outer o && (is_nil inner || contains inner i)
takes _ _ = false

common :
    (xs ys : List ℕ)
    → share xs ys ≡ true
    → (x : ℕ) × (contains xs x ≡ true) × (contains ys x ≡ true)
unfolding share
common xs [] h = absurd (true≢false (sym h))
common xs (y ∷ ys) h = elim (Bool-cases (contains xs y)) [
  | inl c ↦ (y, c, ground (arith, eq_self y))
  | inr n ↦ let rest = common xs ys (ground arith) in (rest.0, rest.1, ground arith)
]

shared : (xs ys : List ℕ) (x : ℕ) → contains xs x ≡ true → contains ys x ≡ true → share xs ys ≡ true
unfolding share
shared xs [] x h k = absurd (true≢false (sym k))
shared xs (y ∷ ys) x h k = elim (Bool-cases (nat_beq y x)) [
  | inl e ↦
      let same : contains xs y ≡ true = ap (contains xs) ((nat_beq_iff y x).0 e) ∙ h in ground arith
  | inr n ↦ ground (arith, shared xs ys x)
]

overlaps_shared :
    (l r : Signature) (f : Frame) → takes l f ≡ true → takes r f ≡ true → overlaps l r ≡ true
unfolding overlaps takes
overlaps_shared untagged untagged f h k = refl
overlaps_shared untagged (tagged _ _) plain h k = k
overlaps_shared untagged (tagged _ _) (double _ _) h k = h
overlaps_shared (tagged _ _) untagged plain h k = h
overlaps_shared (tagged _ _) untagged (double _ _) h k = k
overlaps_shared (tagged a b) (tagged c d) plain h k = absurd (true≢false (sym h))
overlaps_shared (tagged a b) (tagged c d) (double o i) h k =
    ground (arith, shared a c o, shared b d i)

-- The inner tag of a frame that two services with these inner tags take.
inner_tag :
    (b d : List ℕ)
    → is_nil b || is_nil d || share b d ≡ true
    → (i : ℕ) × (is_nil b || contains b i ≡ true) × (is_nil d || contains d i ≡ true)
inner_tag [] [] h = (0, refl, refl)
inner_tag [] (y ∷ d) h = (y, refl, ground (arith, eq_self y))
inner_tag (x ∷ b) [] h = (x, ground (arith, eq_self x), refl)
inner_tag (x ∷ b) (y ∷ d) h = common (x ∷ b) (y ∷ d) h

overlaps_taken :
    (l r : Signature) → overlaps l r ≡ true → (f : Frame) × (takes l f ≡ true) × (takes r f ≡ true)
unfolding overlaps takes
overlaps_taken untagged untagged h = (plain, refl, refl)
overlaps_taken untagged (tagged _ _) h = absurd (true≢false (sym h))
overlaps_taken (tagged _ _) untagged h = absurd (true≢false (sym h))
overlaps_taken (tagged a b) (tagged c d) h =
    let o = common a c (and_true (share a c) _ h).0 in
    let i = inner_tag b d (and_true (share a c) _ h).1 in
    (double o.0 i.0, ground (arith, o.1, i.1), ground (arith, o.2, i.2))

-- Two services overlap exactly when some frame is one that both take, a service without inner tags counted as taking
-- every inner tag.
pub overlaps-takes :
    (l r : Signature)
    → (overlaps l r ≡ true) ↔ ((f : Frame) × (takes l f ≡ true) × (takes r f ≡ true))
overlaps-takes l r = (λ h. overlaps_taken l r h, λ s. overlaps_shared l r s.0 s.1 s.2)

contains-keep :
    (p : Text → Bool) (xs : List Text) (x : Text) → contains (keep p xs) x ≡ (p x && contains xs x)
contains-keep p [] x = ground arith
contains-keep p (y ∷ xs) x = elim (Bool-cases (y == x)) [
  | inl e ↦
      let same : p y ≡ p x = ap p ((list_beq_iff {A = ℕ} y x).0 e) in
      ground (arith, contains-keep p xs x)
  | inr n ↦ ground (arith, contains-keep p xs x)
]

-- When the commands of the request can be formed, a line is reported as omitted exactly when it is the stripped excerpt
-- of some source line below the service, no command of the request is that line, and it drops a split-horizon group,
-- or is no excerpt of a fact that the request replaces, or is an excerpt of a fact that it does not replace.
pub contains-omitted_child_commands :
    (nodes : Nodes) (p : Inputs) (desired lines : List Text) (line : Text)
    → child_commands p ≡ some desired
    → omitted_child_commands nodes p ≡ some lines
    → contains lines line ≡ (
        not (contains desired line)
        && (drops_group p line
            || not (contains (excerpts_where p true nodes) line)
            || contains (excerpts_where p false nodes) line)
        && contains (excerpts (visit nodes [])) line)
unfolding omitted_child_commands omitted_of is_omitted source_child_commands
contains-omitted_child_commands nodes p desired lines line h k =
    let kept : some (keep (is_omitted p desired nodes) (source_child_commands nodes)) ≡ some lines =
      ap (omitted_of p nodes) (sym h) ∙ k in
    let same : lines ≡ keep (is_omitted p desired nodes) (source_child_commands nodes) = cc in
    rw same (
      contains-keep (is_omitted p desired nodes) (source_child_commands nodes) line
      ∙ ap (λ b. is_omitted p desired nodes line && b)
          (contains-from_keys (excerpts (visit nodes [])) line))
