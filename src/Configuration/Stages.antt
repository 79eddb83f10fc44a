-- ===== src/Configuration/Stages.antt =====
-- _template_stages of src/orbitflow/configuration/execution.py: the approved entries of a device, split into
-- stages that one observation can prove.
pub mod Laws
use orbit_flow_evo.Base.{
  ℕ, ◌≡◌, ◌↔◌, ap, Bool, true, false, not, ◌&&◌, ◌||◌, List, [], ◌∷◌, ◌++◌, any, arith,
  if◌then◌else◌, nat_beq,
}
use orbit_flow_evo.Base.Equality.{Eq, list_eq, list_beq, list_beq_iff, nat_eq, ◌==◌, contains}
use orbit_flow_evo.Base.Texts.{Text, is_nil}
use orbit_flow_evo.Interfaces.{Platform, canonical_interface_name}

-- What an entry touches: a VLAN of the database, or an interface under its canonical name.
pub data Touch : Type 0 where
  vlan : ℕ → Touch
  interface : Text → Touch

unfoldable pub touch_beq : Touch → Touch → Bool
touch_beq (vlan v) (vlan w) = nat_beq v w
touch_beq (interface a) (interface b) = a == b
touch_beq _ _ = false

abbrev name_of : Touch → Text
name_of (vlan _) = []
name_of (interface name) = name

pub touch_beq_iff : (x y : Touch) → (touch_beq x y ≡ true) ↔ (x ≡ y)
unfolding touch_beq
touch_beq_iff (vlan v) (vlan w) = ground arith
touch_beq_iff (interface a) (interface b) = (
  λ h. ap interface ((list_beq_iff {A = ℕ} a b).0 h),
  λ h. (list_beq_iff {A = ℕ} a b).1 (ap name_of h),
)
touch_beq_iff (vlan v) (interface b) = ground arith
touch_beq_iff (interface a) (vlan w) = ground arith

instance abbrev pub touch_eq : Eq Touch
touch_eq = record { beq = touch_beq; beq_iff = touch_beq_iff }

pub record Entry : Type 0 where
  pub row_id : Text
  pub template_id : Text
  -- The function of the template is VLAN Database.
  pub on_database : Bool
  pub platform : Platform
  pub vlan_id : ℕ
  pub source : Text
  -- Empty when the result names no target.
  pub resolved_target : Text
  pub dependencies : List Text
  pub commands : List Text

unfoldable pub touched : Entry → List Touch
unfolding canonical_interface_name
touched e =
    let key : Text → Touch = λ name. interface (canonical_interface_name e.platform name true) in
    if e.on_database
    then vlan e.vlan_id ∷ []
    else key e.source ∷ key (if is_nil e.resolved_target then e.source else e.resolved_target) ∷ []

-- `bool(left & right)`
unfoldable pub meets {ℓ} : {A : Type ℓ} ⦃e : Eq A⦄ → List A → List A → Bool
meets left right = any (contains left) right

unfoldable pub same_template : List Entry → Entry → Bool
unfolding list_beq
same_template [] e = true
same_template (first ∷ _) e = first.template_id == e.template_id

-- Whether an entry ends the stage that is pending.
unfoldable pub splits : List Entry → List Touch → List Text → Entry → Bool
unfolding meets same_template touched
splits pending targets ids e =
    not (is_nil pending)
    && (not (same_template pending e) || meets targets (touched e) || meets ids e.dependencies)

unfoldable pub stages_from : List Entry → List Touch → List Text → List Entry → List (List Entry)
unfolding splits touched
stages_from pending targets ids [] = if is_nil pending then [] else pending ∷ []
stages_from pending targets ids (e ∷ entries) =
    let joined =
      stages_from (pending ++ e ∷ []) (targets ++ touched e) (ids ++ e.row_id ∷ []) entries in
    let fresh = pending ∷ stages_from (e ∷ []) (touched e) (e.row_id ∷ []) entries in
    if splits pending targets ids e then fresh else joined

unfoldable pub template_stages : List Entry → List (List Entry)
unfolding stages_from
template_stages entries = stages_from [] [] [] entries
