-- ===== src/Evc/Omitted.antt =====
-- src/orbitflow/vendors/cisco/evc.py: the settings of a service that its replacement would drop.
use orbit_flow_evo.Base.{
  ℕ, Bool, true, false, not, ◌&&◌, ◌||◌, Option, none, some, List, [], ◌∷◌, keep, nat_beq,
  if◌then◌else◌,
}
use orbit_flow_evo.Base.Equality.{contains, list_eq, list_beq, nat_eq, ◌==◌, from_keys}
use orbit_flow_evo.Base.Texts.{Text, codes, strip, is_nil, starts_with, infix_of}
use orbit_flow_evo.Evc.Services.{
  Inputs, Fact, child_commands, untagged_fact, encapsulation, inner_vlan, bridge_domain,
  description, tag_rewrite, split_horizon_group, methodology_unknown, other,
}

-- A node of the parsed configuration: its fact, whether its value is `stanza_end`, its file and line, its excerpt,
-- and the nodes below it.
mutual
  pub data Node : Type 0 where
    node : Fact → Bool → Text → ℕ → Text → Nodes → Node

  pub data Nodes : Type 0 where
    end : Nodes
    more : Node → Nodes → Nodes

abbrev pub Sources : Type 0
Sources = List (Text × ℕ × Text)

-- `sources[filename, line] = excerpt`
unfoldable pub put : Text → ℕ → Text → Sources → Sources
unfolding list_beq
put file line excerpt [] = (file, line, excerpt) ∷ []
put file line excerpt (s ∷ sources) =
    let rest = put file line excerpt sources in
    if s.0 == file && nat_beq s.1 line then (file, line, excerpt) ∷ sources else s ∷ rest

unfoldable mutual
  unfolding put strip

  pub visit_node : Node → Sources → Sources
  visit_node (node fact is_end file line excerpt below) sources =
      visit below (if is_end then sources else put file line (strip excerpt) sources)

  pub visit : Nodes → Sources → Sources
  visit end sources = sources
  visit (more n nodes) sources = visit nodes (visit_node n sources)

abbrev pub excerpts : Sources → List Text
excerpts [] = []
excerpts (s ∷ sources) = s.2 ∷ excerpts sources

-- One command per source line.
unfoldable pub source_child_commands : Nodes → List Text
unfolding visit from_keys
source_child_commands nodes = from_keys (excerpts (visit nodes []))

-- Whether the request sets what the fact is about.
unfoldable pub is_replaced : Inputs → Fact → Bool
unfolding list_beq
is_replaced p (untagged_fact _) = true
is_replaced p (encapsulation _) = true
is_replaced p (inner_vlan _) = true
is_replaced p bridge_domain = true
is_replaced p split_horizon_group = true
is_replaced p description = not (is_nil p.description)
is_replaced p tag_rewrite = not (p.rewrite == codes "None")
is_replaced p methodology_unknown = false
is_replaced p (other _) = false

-- The excerpts of the nodes of the service itself whose facts are replaced, or are not.
unfoldable pub excerpts_where : Inputs → Bool → Nodes → List Text
unfolding is_replaced strip
excerpts_where p wanted end = []
excerpts_where p wanted (more (node fact is_end file line excerpt below) nodes) =
    let rest = excerpts_where p wanted nodes in
    let same = if wanted then is_replaced p fact else not (is_replaced p fact) in
    if same then strip excerpt ∷ rest else rest

abbrev pub is_absent : Option Text → Bool
is_absent none = true
is_absent (some _) = false

-- A split-horizon setting that the request leaves out.
unfoldable pub drops_group : Inputs → Text → Bool
unfolding starts_with infix_of
drops_group p line =
    starts_with line (codes "bridge-domain ")
    && infix_of (codes " split-horizon group ") line
    && is_absent p.split_horizon_group

unfoldable pub is_omitted : Inputs → List Text → Nodes → Text → Bool
unfolding drops_group excerpts_where list_beq
is_omitted p desired nodes line =
    not (contains desired line)
    && (drops_group p line
        || not (contains (excerpts_where p true nodes) line)
        || contains (excerpts_where p false nodes) line)

unfoldable pub omitted_of : Inputs → Nodes → Option (List Text) → Option (List Text)
unfolding is_omitted source_child_commands
omitted_of p nodes none = none
omitted_of p nodes (some desired) =
    some (keep (is_omitted p desired nodes) (source_child_commands nodes))

unfoldable pub omitted_child_commands : Nodes → Inputs → Option (List Text)
unfolding omitted_of child_commands
omitted_child_commands nodes p = omitted_of p nodes (child_commands p)
