-- ===== src/Vlans/Bounds.antt =====
-- What a parsed VLAN list holds: its order, its bounds, and which identifiers it contains.
use orbit_flow_evo.Base.{
  ℕ, zero, suc, ◌+◌, ◌-◌, ◌≤◌, ◌<◌, ◌≡◌, refl, Bool, true, false, ◌&&◌, ◌||◌, none, some, ok, err,
  Result, List, [], ◌∷◌, any, all, leb, ltb, nat_beq, arith, Option-cases, inl, inr, if◌then◌else◌,
}
use orbit_flow_evo.Base.Equality.{contains, nat_eq}
use orbit_flow_evo.Base.Texts.{Text, strip, is_nil}
use orbit_flow_evo.Vlans.{
  VlanListError, token_range, insert, update_range, in_range, add_tokens, list_tokens,
  parse_vlan_list,
}

-- Strictly ascending, from `lo` up to below `hi`.
abbrev pub Ascending : ℕ → ℕ → List ℕ → Type 0
Ascending lo hi [] = Unit
Ascending lo hi (x ∷ xs) = (lo ≤ x) × (x < hi) × Ascending (x + 1) hi xs

pub insert-Ascending :
    (lo hi v : ℕ) (xs : List ℕ)
    → lo ≤ v
    → v < hi
    → Ascending lo hi xs
    → Ascending lo hi (insert v xs)
unfolding insert
insert-Ascending lo hi v [] h k a = ground arith
insert-Ascending lo hi v (x ∷ xs) h k a = ground (arith, insert-Ascending (x + 1) hi v xs)

update_range-Ascending :
    (lo hi first count : ℕ) (xs : List ℕ)
    → lo ≤ first
    → first + count ≤ hi
    → Ascending lo hi xs
    → Ascending lo hi (update_range first count xs)
unfolding update_range
update_range-Ascending lo hi first zero xs h k a = a
update_range-Ascending lo hi first (suc count) xs h k a =
    update_range-Ascending lo hi (first + 1) count (insert first xs) (omega arith) (omega arith)
      (insert-Ascending lo hi first xs h (omega arith) a)

add_tokens-Ascending :
    (tokens : List Text) (result vs : List ℕ)
    → Ascending 1 4095 result
    → add_tokens tokens result ≡ ok vs
    → Ascending 1 4095 vs
unfolding add_tokens
add_tokens-Ascending [] result vs a h = ground arith
add_tokens-Ascending (token ∷ tokens) result vs a h = elim (Option-cases (token_range token)) [
  | inl no_range ↦ ground (arith, no_range)
  | inr ((first, last), read) ↦
      let next = update_range first (last + 1 - first) result in
      ground (
        arith,
        read,
        update_range-Ascending 1 4095 first (last + 1 - first) result,
        add_tokens-Ascending tokens next vs,
      )
]

pub contains-insert :
    (v w : ℕ) (xs : List ℕ) → contains (insert v xs) w ≡ (nat_beq v w || contains xs w)
unfolding insert
contains-insert v w [] = refl
contains-insert v w (x ∷ xs) = ground (arith, contains-insert v w xs)

contains-update_range :
    (first count w : ℕ) (xs : List ℕ)
    → contains (update_range first count xs) w
      ≡ ((leb first w && ltb w (first + count)) || contains xs w)
unfolding update_range
contains-update_range first zero w xs = ground arith
contains-update_range first (suc count) w xs =
    ground (
      arith,
      contains-update_range (first + 1) count w (insert first xs),
      contains-insert first w xs,
    )

-- A token covers the identifiers of its range.
abbrev pub covers : Text → ℕ → Bool
covers token w = elim (token_range token) [
  | none ↦ false
  | some (first, last) ↦ leb first w && leb w last
]

-- A token is accepted if it is a number or a range within 1 to 4094.
abbrev pub is_valid : Text → Bool
is_valid token = elim (token_range token) [
  | none ↦ false
  | some (first, last) ↦ in_range first last
]

abbrev pub is_ok : Result VlanListError (List ℕ) → Bool
is_ok (ok _) = true
is_ok (err _) = false

contains-add_tokens :
    (tokens : List Text) (result vs : List ℕ) (w : ℕ)
    → add_tokens tokens result ≡ ok vs
    → contains vs w ≡ (contains result w || any (λ t. covers t w) tokens)
unfolding add_tokens
contains-add_tokens [] result vs w h = ground arith
contains-add_tokens (token ∷ tokens) result vs w h = elim (Option-cases (token_range token)) [
  | inl no_range ↦ ground (arith, no_range)
  | inr ((first, last), read) ↦
      let next = update_range first (last + 1 - first) result in
      ground (
        arith,
        read,
        contains-update_range first (last + 1 - first) w result,
        contains-add_tokens tokens next vs w,
      )
]

add_tokens-is_ok :
    (tokens : List Text) (result : List ℕ) → is_ok (add_tokens tokens result) ≡ all is_valid tokens
unfolding add_tokens
add_tokens-is_ok [] result = refl
add_tokens-is_ok (token ∷ tokens) result = elim (Option-cases (token_range token)) [
  | inl no_range ↦ ground (arith, no_range)
  | inr ((first, last), read) ↦
      let next = update_range first (last + 1 - first) result in
      ground (arith, read, add_tokens-is_ok tokens next)
]

-- The identifiers of a list that parses are strictly ascending, and from 1 to 4094.
pub parse_vlan_list-Ascending :
    (value range_word : Text) (vs : List ℕ)
    → parse_vlan_list value range_word ≡ ok vs
    → Ascending 1 4095 vs
unfolding parse_vlan_list
parse_vlan_list-Ascending value range_word vs h =
    ground (arith, add_tokens-Ascending (list_tokens (strip value) range_word) [] vs)

tokens_of_nil : (range_word : Text) → list_tokens [] range_word ≡ []
unfolding list_tokens
tokens_of_nil range_word = ground arith

parse_text-is_ok :
    (text range_word : Text)
    → is_ok (if is_nil text then ok [] else add_tokens (list_tokens text range_word) [])
      ≡ all is_valid (list_tokens text range_word)
parse_text-is_ok [] range_word = rw tokens_of_nil refl
parse_text-is_ok (c ∷ s) range_word = add_tokens-is_ok (list_tokens (c ∷ s) range_word) []

contains-parse_text :
    (text range_word : Text) (vs : List ℕ) (w : ℕ)
    → (if is_nil text then ok [] else add_tokens (list_tokens text range_word) []) ≡ ok vs
    → contains vs w ≡ any (λ t. covers t w) (list_tokens text range_word)
contains-parse_text [] range_word vs w h = rw tokens_of_nil (ground arith)
contains-parse_text (c ∷ s) range_word vs w h =
    contains-add_tokens (list_tokens (c ∷ s) range_word) [] vs w h

-- A list parses exactly if each of its tokens is a number, or a range, within 1 to 4094.
pub is_ok-parse_vlan_list :
    (value range_word : Text)
    → is_ok (parse_vlan_list value range_word) ≡ all is_valid (list_tokens (strip value) range_word)
unfolding parse_vlan_list
is_ok-parse_vlan_list value range_word = parse_text-is_ok (strip value) range_word

-- A list that parses has exactly the identifiers that one of its tokens covers.
pub contains-parse_vlan_list :
    (value range_word : Text) (vs : List ℕ) (w : ℕ)
    → parse_vlan_list value range_word ≡ ok vs
    → contains vs w ≡ any (λ t. covers t w) (list_tokens (strip value) range_word)
unfolding parse_vlan_list
contains-parse_vlan_list value range_word vs w h =
    contains-parse_text (strip value) range_word vs w h
