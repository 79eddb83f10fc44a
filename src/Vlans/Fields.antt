-- ===== src/Vlans/Fields.antt =====
-- src/orbitflow/vendors/vlan_types.py: which VLANs the aggregated fields let pass, and that VLAN 1 is left out
-- of the forwarding fields.
use mathlib.Core.Path.{sym, ◌∙◌}
use mathlib.Core.List.{nil≢cons}
use mathlib.Core.Bool.{true≢false}
use orbit_flow_evo.Base.{
  ℕ, Bool, true, false, not, ◌||◌, ◌≡◌, ◌≢◌, refl, Option, none, some, List, [], ◌∷◌, any, keep,
  if◌then◌else◌, arith, Bool-cases, inl, inr, ◌⊎◌,
}
use orbit_flow_evo.Base.Equality.{Eq, ◌==◌, nat_eq, list_eq, contains, from_keys, list_beq_iff}
use orbit_flow_evo.Base.Texts.{Text, is_nil}
use orbit_flow_evo.Vlans.Bounds.{contains-insert}
use orbit_flow_evo.Vlans.Profiles.{
  TaggedVlans, vlans, all_vlans, no_vlans, UntaggedVlan, InterfaceVlanObservation, forwarding,
  shown, one, split_arrow, default_mappings, without_one, explicit_tags, add_tags, aggregated_tags,
  is_all, is_none,
}

-- Whether a value of `tagged_vlans` lets a VLAN pass.
abbrev pub permits : TaggedVlans → ℕ → Bool
permits (vlans vs) w = contains vs w
permits all_vlans w = true
permits no_vlans w = false

abbrev permits_every : TaggedVlans → Bool
permits_every (vlans vs) = false
permits_every all_vlans = true
permits_every no_vlans = false

contains-add_tags :
    (vs tags : List ℕ) (w : ℕ) → contains (add_tags vs tags) w ≡ (contains vs w || contains tags w)
unfolding add_tags
contains-add_tags [] tags w = refl
contains-add_tags (v ∷ vs) tags w =
    ground (arith, contains-add_tags vs tags w, contains-insert v w (add_tags vs tags))

tags-cases :
    (t : TaggedVlans) → ((vs : List ℕ) × (t ≡ vlans vs)) ⊎ ((t ≡ all_vlans) ⊎ (t ≡ no_vlans))
tags-cases (vlans vs) = inl (vs, refl)
tags-cases all_vlans = inr (inl refl)
tags-cases no_vlans = inr (inr refl)

permits-chosen :
    (every nothing : Bool) (tags : List ℕ) (w : ℕ)
    → permits
        (if every
          then all_vlans
          else if not (is_nil tags)
          then vlans tags
          else if nothing
          then no_vlans
          else vlans [])
        w
      ≡ (every || contains tags w)
permits-chosen true nothing tags w = refl
permits-chosen false true [] w = refl
permits-chosen false false [] w = refl
permits-chosen false nothing (t ∷ tags) w = refl

contains-keep :
    {A : Type 0} ⦃e : Eq A⦄ (xs : List A) (a : A) → contains (keep (λ x. not (x == a)) xs) a ≡ false
contains-keep [] a = refl
contains-keep (x ∷ xs) a = elim (Bool-cases (x == a)) [
  | inl same ↦ ground (arith, same, contains-keep xs a)
  | inr other ↦ ground (arith, other, contains-keep xs a)
]

without_one-permits : (t : TaggedVlans) → permits (without_one t) 1 ≡ permits_every (without_one t)
unfolding without_one
without_one-permits (vlans vs) = contains-keep vs 1
without_one-permits all_vlans = refl
without_one-permits no_vlans = refl

without_text_one : (s : Text) → (if s == one then [] else s) ≢ one
without_text_one s = elim (Bool-cases (s == one)) [
  | inl same ↦ rw same (λ e. absurd (nil≢cons e))
  | inr other ↦ rw other (λ e. absurd (true≢false (sym ((list_beq_iff s one).1 e) ∙ other)))
]

any-keep : {A : Type 0} (p : A → Bool) (xs : List A) → any p (keep (λ x. not (p x)) xs) ≡ false
any-keep p [] = refl
any-keep p (x ∷ xs) = ground (arith, any-keep p xs)

module _ {Facts : Type 0} where
  permits-explicit_tags :
      (items : List (InterfaceVlanObservation Facts)) (w : ℕ)
      → (any is_all items || contains (explicit_tags items) w)
        ≡ any (λ i. permits i.tagged_vlans w) items
  unfolding explicit_tags
  permits-explicit_tags [] w = refl
  permits-explicit_tags (item ∷ items) w = elim (tags-cases item.tagged_vlans) [
    | inl (vs, e) ↦
        ground
          (arith, e, permits-explicit_tags items w, contains-add_tags vs (explicit_tags items) w)
    | inr (inl e) ↦ ground (arith, e, permits-explicit_tags items w)
    | inr (inr e) ↦ ground (arith, e, permits-explicit_tags items w)
  ]

  -- The aggregate of several services lets a VLAN pass exactly if one of the services does.
  pub permits-aggregated_tags :
      (items : List (InterfaceVlanObservation Facts)) (w : ℕ)
      → permits (aggregated_tags items) w ≡ any (λ i. permits i.tagged_vlans w) items
  unfolding aggregated_tags
  permits-aggregated_tags items w =
      permits-chosen (any is_all items) (any is_none items) (explicit_tags items) w
      ∙ permits-explicit_tags items w

  -- No field names VLAN 1 or domain 1, but for a `tagged_vlans` that is `ALL`, and no service mapping has a 1
  -- on a side.
  pub record OmitsOne (o : InterfaceVlanObservation Facts) : Type 0 where
    untagged : o.untagged_vlan ≢ one
    tagged : permits o.tagged_vlans 1 ≡ is_all o
    domains : contains o.bridge_domains one ≡ false
    mappings : any (λ m. contains (split_arrow m) one) o.service_mappings ≡ false

  pub forwarding-OmitsOne :
      (observation : InterfaceVlanObservation Facts) (port_type : Text) (untagged : UntaggedVlan)
      (tagged : TaggedVlans) (domains : List Text) (mappings : Option (List Text))
      → OmitsOne (forwarding observation port_type untagged tagged domains mappings)
  unfolding forwarding
  forwarding-OmitsOne observation port_type untagged tagged domains mappings = record {
    untagged = without_text_one (shown untagged);
    tagged = without_one-permits tagged;
    domains = contains-keep (from_keys domains) one;
    mappings =
        any-keep (λ m. contains (split_arrow m) one)
          (elim mappings [ none ↦ default_mappings untagged tagged | some ms ↦ ms ]);
  }
