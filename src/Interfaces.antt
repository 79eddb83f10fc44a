-- ===== src/Interfaces.antt =====
-- src/orbitflow/vendors/interface_names.py, with the names of src/orbitflow/vendors/huawei/interfaces.py:
-- the name under which the program joins what it read of an interface. Letters and digits are those of
-- ASCII.
use orbit_flow_evo.Base.{
  ℕ, Bool, false, not, ◌&&◌, ◌||◌, List, [], ◌∷◌, ◌++◌, all, any, nat_beq, if◌then◌else◌,
}
use orbit_flow_evo.Base.Equality.{list_eq, list_beq, nat_eq, ◌==◌}
use orbit_flow_evo.Base.Texts.{
  Text, codes, is_space, is_digit, is_lower, casefold, lstrip, strip, is_nil, starts_with, decimal,
}
use orbit_flow_evo.Base.Decimals.{str}

pub data Platform : Type 0 where
  huawei_vrp ubiquiti_edgeswitch cisco_ios cisco_xe cisco_xr other : Platform

-- The longest prefix of such code points, and what follows it.
unfoldable pub prefix_of : (ℕ → Bool) → Text → Text
prefix_of p [] = []
prefix_of p (c ∷ s) = let rest = prefix_of p s in if p c then c ∷ rest else []

unfoldable pub suffix_of : (ℕ → Bool) → Text → Text
suffix_of p [] = []
suffix_of p (c ∷ s) = let rest = suffix_of p s in if p c then rest else c ∷ s

-- `\d.*`
unfoldable pub is_number : Text → Bool
unfolding is_digit
is_number [] = false
is_number (c ∷ s) = is_digit c && not (any (nat_beq 10) s)

abbrev pub is_word : ℕ → Bool
is_word c = is_lower c || nat_beq c b'-'

abbrev pub Aliases : Type 0
Aliases = List (Text × Text)

-- `table.get(prefix, prefix)`
unfoldable pub expand : Aliases → Text → Text
unfolding list_beq
expand [] word = word
expand (alias ∷ aliases) word =
    let rest = expand aliases word in if alias.0 == word then alias.1 else rest

unfoldable pub cisco_aliases : Aliases
cisco_aliases =
    (codes "gi", codes "gigabitethernet")
    ∷ (codes "gig", codes "gigabitethernet")
    ∷ (codes "te", codes "tengige")
    ∷ (codes "tengigabitethernet", codes "tengige")
    ∷ (codes "fa", codes "fastethernet")
    ∷ (codes "et", codes "ethernet")
    ∷ (codes "eth", codes "ethernet")
    ∷ (codes "po", codes "port-channel")
    ∷ (codes "be", codes "bundle-ether")
    ∷ (codes "lo", codes "loopback")
    ∷ (codes "vl", codes "vlan")
    ∷ (codes "tu", codes "tunnel")
    ∷ (codes "hu", codes "hundredgige")
    ∷ (codes "hundredgigabitethernet", codes "hundredgige")
    ∷ (codes "fo", codes "fortygige")
    ∷ (codes "fortygigabitethernet", codes "fortygige")
    ∷ []

-- `re.fullmatch(r"([a-z-]+)\s*(\d.*)", key)`, over the name in lower case without outer spaces.
unfoldable pub cisco_name : Text → Text
unfolding prefix_of suffix_of is_lower is_number lstrip expand cisco_aliases
cisco_name key =
    let prefix = prefix_of is_word key in
    let suffix = lstrip (suffix_of is_word key) in
    if not (is_nil prefix) && is_number suffix then expand cisco_aliases prefix ++ suffix else key

-- The lowered names of _CANONICAL_INTERFACE_PREFIXES, those that stay included.
unfoldable pub huawei_aliases : Aliases
huawei_aliases =
    (codes "eth", codes "ethernet")
    ∷ (codes "ethernet", codes "ethernet")
    ∷ (codes "ge", codes "gigabitethernet")
    ∷ (codes "gigabitethernet", codes "gigabitethernet")
    ∷ (codes "loop", codes "loopback")
    ∷ (codes "loopback", codes "loopback")
    ∷ (codes "tun", codes "tunnel")
    ∷ (codes "tunnel", codes "tunnel")
    ∷ []

-- A known prefix in any case, and a number. The prefix is a run of letters that a digit ends, so that at most
-- one alternative of the pattern matches, and a run of letters that is no alternative expands to itself.
unfoldable pub huawei_name : Text → Text
unfolding prefix_of suffix_of is_lower is_number expand huawei_aliases
huawei_name key =
    let prefix = prefix_of is_lower key in
    let suffix = suffix_of is_lower key in
    if is_number suffix then expand huawei_aliases prefix ++ suffix else key

-- `re.fullmatch(r"(?:lag\s+|3/)(\d+)", key)`: the digits of a match, or no text.
unfoldable pub lag_digits : Text → Text
unfolding starts_with is_space suffix_of is_digit
lag_digits (l ∷ a ∷ g ∷ c ∷ s) =
    let digits = suffix_of is_space s in
    let short = g ∷ c ∷ s in
    if starts_with (l ∷ a ∷ g ∷ []) (codes "lag") && is_space c && all is_digit digits
    then digits
    else if starts_with (l ∷ a ∷ []) (codes "3/") && all is_digit short
    then short
    else []
lag_digits (three ∷ slash ∷ s) =
    if starts_with (three ∷ slash ∷ []) (codes "3/") && all is_digit s then s else []
lag_digits _ = []

unfoldable pub edge_name : Text → Text
unfolding lag_digits decimal str
edge_name key =
    if is_nil (lag_digits key) then key else codes "3/" ++ str (decimal 0 (lag_digits key))

unfoldable pub canonical_interface_name : Platform → Text → Bool → Text
unfolding strip casefold cisco_name huawei_name edge_name
canonical_interface_name Platform.huawei_vrp name normalize_aggregation =
    huawei_name (casefold (strip name))
canonical_interface_name Platform.ubiquiti_edgeswitch name normalize_aggregation =
    if normalize_aggregation then edge_name (casefold (strip name)) else casefold (strip name)
canonical_interface_name Platform.cisco_ios name normalize_aggregation =
    cisco_name (casefold (strip name))
canonical_interface_name Platform.cisco_xe name normalize_aggregation =
    cisco_name (casefold (strip name))
canonical_interface_name Platform.cisco_xr name normalize_aggregation =
    cisco_name (casefold (strip name))
canonical_interface_name Platform.other name normalize_aggregation = casefold (strip name)
