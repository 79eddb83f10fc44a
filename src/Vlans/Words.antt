-- ===== src/Vlans/Words.antt =====
-- The rewriting of a VLAN list before it is split: `re.sub` of the range word, of the spaces round
-- a dash and of the commas, and `str.split`.
use orbit_flow_evo.Base.{
  ℕ, Bool, true, false, ◌&&◌, not, List, [], ◌∷◌, ◌++◌, map, if◌then◌else◌, nat_beq,
}
use orbit_flow_evo.Base.Texts.{Text, is_space, fold_char, is_nil}

-- `str.replace(",", " ")`
unfoldable pub commas_to_spaces : Text → Text
commas_to_spaces = map (λ c. if nat_beq c b',' then b' ' else c)

-- `re.sub(r"\s*-\s*", "-", …)`: `ws` is the run of spaces read last, which a dash drops, and
-- `skip` says that a dash was read last, which drops the spaces after it.
unfoldable pub join_dashes : Text → Bool → Text → Text
unfolding is_space
join_dashes ws skip [] = ws
join_dashes ws skip (c ∷ s) =
    let spaces = join_dashes (if skip then ws else ws ++ c ∷ []) skip s in
    let dash = b'-' ∷ join_dashes [] true s in
    let other = ws ++ (c ∷ join_dashes [] false s) in
    if is_space c then spaces else if nat_beq c b'-' then dash else other

-- What stands where `to`, in any case, and a space come next, the spaces before them being read.
unfoldable pub is_to_word : Text → Bool
unfolding is_space fold_char
is_to_word (t ∷ o ∷ sp ∷ s) =
    nat_beq (fold_char t) b't' && nat_beq (fold_char o) b'o' && is_space sp
is_to_word _ = false

-- `re.sub(r"\s+to\s+", "-", …, flags=re.IGNORECASE)`: `drop` counts the letters of a matched
-- word that are still to be dropped, and `skip` the spaces that belong to the match.
unfoldable pub to_dashes : Text → Bool → ℕ → Text → Text
unfolding is_to_word
to_dashes ws skip n [] = ws
to_dashes ws skip (ℕ.suc n) (c ∷ s) = to_dashes [] true n s
to_dashes ws skip ℕ.zero (c ∷ s) =
    let spaces = to_dashes (if skip then ws else ws ++ c ∷ []) skip 0 s in
    let matched = b'-' ∷ to_dashes [] true 1 s in
    let other = ws ++ (c ∷ to_dashes [] false 0 s) in
    if is_space c then spaces else if not (is_nil ws) && is_to_word (c ∷ s) then matched else other

-- `str.split()`: `word` is the word read so far.
unfoldable pub split_onto : Text → Text → List Text
unfolding is_space
split_onto word [] = if is_nil word then [] else word ∷ []
split_onto word (c ∷ s) =
    let more = split_onto (word ++ c ∷ []) s in
    let rest = split_onto [] s in
    if is_space c then (if is_nil word then rest else word ∷ rest) else more

unfoldable pub split_words : Text → List Text
unfolding split_onto
split_words = split_onto []
