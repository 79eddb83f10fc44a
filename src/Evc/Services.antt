-- ===== src/Evc/Services.antt =====
-- src/orbitflow/vendors/cisco/evc.py: the ingress of an Ethernet service instance, whether two of them
-- overlap, and the commands of a service.
use orbit_flow_evo.Base.{
  ℕ, Bool, true, false, not, ◌&&◌, ◌||◌, Option, none, some, List, [], ◌∷◌, ◌++◌, any,
  if◌then◌else◌, Result, ok, ◌>>=◌,
}
use orbit_flow_evo.Base.Equality.{contains, list_eq, list_beq, nat_eq, ◌==◌}
use orbit_flow_evo.Base.Texts.{Text, codes, is_nil, starts_with}
use orbit_flow_evo.Vlans.{VlanListError, parse_vlan_list}
use orbit_flow_evo.Vlans.Words.{split_words}

-- The inputs of a request.
pub record Inputs : Type 0 where
  pub is_untagged : Bool
  pub outer_vlan : Text
  pub inner_vlan : Option Text
  pub description : Text
  pub rewrite : Text
  pub push_vlan : Text
  pub bridge_domain : Text
  pub split_horizon_group : Option Text

pub data Signature : Type 0 where
  untagged : Signature
  tagged : List ℕ → List ℕ → Signature

abbrev pub given : Option Text → Text
given none = []
given (some s) = s

unfoldable pub ingress : Inputs → Result VlanListError Signature
unfolding parse_vlan_list
ingress p =
    if p.is_untagged
    then ok untagged
    else parse_vlan_list p.outer_vlan [] >>= λ outer.
        parse_vlan_list (given p.inner_vlan) [] >>= λ inner. ok (tagged outer inner)

-- A fact of a parsed service, by its kind.
pub data Fact : Type 0 where
  untagged_fact : Text → Fact
  encapsulation : List ℕ → Fact
  inner_vlan : List ℕ → Fact
  bridge_domain description tag_rewrite split_horizon_group methodology_unknown : Fact
  other : Text → Fact

unfoldable pub untagged_values : List Fact → List Text
untagged_values [] = []
untagged_values (untagged_fact s ∷ facts) = s ∷ untagged_values facts
untagged_values (_ ∷ facts) = untagged_values facts

unfoldable pub outer_values : List Fact → List (List ℕ)
outer_values [] = []
outer_values (encapsulation tags ∷ facts) = tags ∷ outer_values facts
outer_values (_ ∷ facts) = outer_values facts

unfoldable pub inner_values : List Fact → List (List ℕ)
inner_values [] = []
inner_values (inner_vlan tags ∷ facts) = tags ∷ inner_values facts
inner_values (_ ∷ facts) = inner_values facts

abbrev pub is_unknown : Fact → Bool
is_unknown methodology_unknown = true
is_unknown _ = false

-- One outer value and at most one inner value.
unfoldable pub tags_of : List (List ℕ) → List (List ℕ) → Option Signature
tags_of (outer ∷ []) [] = some (tagged outer [])
tags_of (outer ∷ []) (inner ∷ []) = some (tagged outer inner)
tags_of _ _ = none

unfoldable pub service_signature : List Fact → Option Signature
unfolding untagged_values outer_values inner_values tags_of list_beq
service_signature facts =
    if untagged_values facts == (codes "untagged" ∷ [])
      && is_nil (outer_values facts)
      && is_nil (inner_values facts)
    then some untagged
    else if not (is_nil (untagged_values facts)) || any is_unknown facts
    then none
    else tags_of (outer_values facts) (inner_values facts)

-- `bool(set(left) & set(right))`
unfoldable pub share : List ℕ → List ℕ → Bool
share left right = any (contains left) right

unfoldable pub overlaps : Signature → Signature → Bool
unfolding share
overlaps untagged untagged = true
overlaps (tagged outer inner) (tagged outer' inner') =
    share outer outer' && (is_nil inner || is_nil inner' || share inner inner')
overlaps _ _ = false

abbrev pub prefixed : Text → Option Text → Text
prefixed words none = []
prefixed words (some s) = words ++ s

unfoldable pub encapsulation_command : Inputs → Text
encapsulation_command p =
    if p.is_untagged
    then codes "encapsulation untagged"
    else codes "encapsulation dot1q "
      ++ p.outer_vlan
      ++ prefixed (codes " second-dot1q ") p.inner_vlan

-- `s.endswith(suffix)`
unfoldable pub ends_with : Text → Text → Bool
unfolding list_beq
ends_with [] suffix = is_nil suffix
ends_with (c ∷ s) suffix = (c ∷ s) == suffix || ends_with s suffix

-- `rewrite.split()[1]`, which raises when there is no second word.
unfoldable pub second : List Text → Option Text
second (_ ∷ word ∷ _) = some word
second _ = none

unfoldable pub pop_command : Option Text → Option (List Text)
pop_command none = none
pop_command (some count) =
    some ((codes "rewrite ingress tag pop " ++ count ++ codes " symmetric") ∷ [])

unfoldable pub rewrite_commands : Inputs → Option (List Text)
unfolding starts_with ends_with split_words second pop_command
rewrite_commands p =
    if starts_with p.rewrite (codes "Push")
    then some (
        (codes "rewrite ingress tag push dot1q "
          ++ p.push_vlan
          ++ (if ends_with p.rewrite (codes "symmetric") then codes " symmetric" else []))
        ∷ [])
    else if starts_with p.rewrite (codes "Pop")
    then pop_command (second (split_words p.rewrite))
    else some []

unfoldable pub commands_round : Inputs → Option (List Text) → Option (List Text)
unfolding encapsulation_command
commands_round p none = none
commands_round p (some rewrite) = some (
    (if is_nil p.description then [] else (codes "description " ++ p.description) ∷ [])
    ++ encapsulation_command p ∷ []
    ++ rewrite
    ++ (codes "bridge-domain "
        ++ p.bridge_domain
        ++ prefixed (codes " split-horizon group ") p.split_horizon_group)
      ∷ [])

-- The commands of a service, when its rewrite has the words that it needs.
unfoldable pub child_commands : Inputs → Option (List Text)
unfolding commands_round rewrite_commands
child_commands p = commands_round p (rewrite_commands p)
