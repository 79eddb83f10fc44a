-- ===== src/Vlans.antt =====
-- src/orbitflow/vendors/vlan_types.py: the VLAN lists that every vendor parser expands. The texts
-- are lists of ASCII code points.
pub mod Words
pub mod Bounds
pub mod Profiles
pub mod Grouping
pub mod Fields
use orbit_flow_evo.Base.{
  ℕ, zero, suc, ◌+◌, ◌-◌, Bool, true, false, not, ◌&&◌, Option, none, some, List, [], ◌∷◌, Result,
  ok, err, leb, ltb, if◌then◌else◌, nat_beq,
}
use orbit_flow_evo.Base.Equality.{list_beq, nat_eq}
use orbit_flow_evo.Base.Texts.{Text, codes, strip, is_digit, is_nil, decimal}
use orbit_flow_evo.Vlans.Words.{commas_to_spaces, join_dashes, to_dashes, split_words}

pub data VlanListError : Type 0 where
  invalid_token invalid_range : Text → VlanListError

-- The digits that a text begins with, and what follows them.
unfoldable pub span_digits : Text → Text × Text
unfolding is_digit
span_digits [] = ([], [])
span_digits (c ∷ s) =
    let (digits, rest) = span_digits s in if is_digit c then (c ∷ digits, rest) else ([], c ∷ s)

-- What follows the first number of a token: nothing, or a dash and a second number.
unfoldable pub second_number : ℕ → Text → Option (ℕ × ℕ)
unfolding span_digits decimal
second_number first [] = some (first, first)
second_number first (c ∷ s) =
    let (digits, rest) = span_digits s in
    if nat_beq c b'-' && not (is_nil digits) && is_nil rest
    then some (first, decimal 0 digits)
    else none

-- `re.fullmatch(r"(\d+)(?:-(\d+))?", token)`, with the two numbers read.
unfoldable pub token_range : Text → Option (ℕ × ℕ)
unfolding span_digits second_number decimal
token_range token =
    let (digits, rest) = span_digits token in
    if is_nil digits then none else second_number (decimal 0 digits) rest

-- `set.add` on a set that is kept as its sorted list.
unfoldable pub insert : ℕ → List ℕ → List ℕ
insert v [] = v ∷ []
insert v (x ∷ xs) =
    let later = x ∷ insert v xs in
    if ltb v x then v ∷ x ∷ xs else if nat_beq v x then x ∷ xs else later

-- `result.update(range(first, first + count))`
unfoldable pub update_range : ℕ → ℕ → List ℕ → List ℕ
unfolding insert
update_range first zero result = result
update_range first (suc count) result = update_range (first + 1) count (insert first result)

-- `1 <= first <= 4094 and 1 <= last <= 4094 and first <= last`
abbrev pub in_range : ℕ → ℕ → Bool
in_range first last = leb 1 first && leb first 4094 && leb 1 last && leb last 4094 && leb first last

-- The loop over the tokens.
unfoldable pub add_tokens : List Text → List ℕ → Result VlanListError (List ℕ)
unfolding token_range update_range
add_tokens [] result = ok result
add_tokens (token ∷ tokens) result = elim (token_range token) [
  | none ↦ err (invalid_token token)
  | some (first, last) ↦
      if in_range first last
      then add_tokens tokens (update_range first (last + 1 - first) result)
      else err (invalid_range token)
]

-- The tokens of a list: the `to` form is rewritten only for the range word `to`.
unfoldable pub list_tokens : Text → Text → List Text
unfolding commas_to_spaces join_dashes to_dashes split_words list_beq
list_tokens text range_word =
    let dashed = if list_beq range_word (codes "to") then to_dashes [] false 0 text else text in
    split_words (join_dashes [] false (commas_to_spaces dashed))

unfoldable pub parse_vlan_list : Text → Text → Result VlanListError (List ℕ)
unfolding strip list_tokens add_tokens
parse_vlan_list value range_word =
    let text = strip value in
    if is_nil text then ok [] else add_tokens (list_tokens text range_word) []
