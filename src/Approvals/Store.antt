-- ===== src/Approvals/Store.antt =====
-- src/orbitflow/configuration/approvals.py: `ApprovalStore.decide` and `ApprovalStore.verify`.
use orbit_flow_evo.Base.{
  ℕ, ◌+◌, Bool, true, false, not, ◌&&◌, ◌||◌, Option, none, some, List, [], ◌∷◌, ◌++◌, Result, ok,
  err, ◌>>=◌, ◌>>◌, guard, ltb, leb, length, if◌then◌else◌,
}
use orbit_flow_evo.Base.Equality.{list_eq, nat_eq, ◌==◌}
use orbit_flow_evo.Base.Texts.{Text, codes}
use orbit_flow_evo.Json.{Json, get}
use orbit_flow_evo.Approvals.{
  PlanError, Platform, Status, approved, Decision, to_json, Row, Authority, label, subscript,
  read_key, read_records,
}

abbrev pub is_some {ℓ} : {A : Type ℓ} → Option A → Bool
is_some none = false
is_some (some _) = true

abbrev pub or_default {ℓ} : {A : Type ℓ} → A → Option A → A
or_default a none = a
or_default a (some b) = b

-- `initialize`: a key is made where there is none, unless decisions exist without one.
unfoldable pub initialize : Text → Authority → Result PlanError Authority
initialize token a =
    guard (not (is_some a.decisions) || is_some a.key) PlanError.key_missing
    >> ok (record {
      key = some (or_default token a.key);
      decisions = some (or_default [] a.decisions);
    })

-- The expiry that a decision is stored with.
unfoldable pub expiry_of : Status → ℕ → Option ℕ → Result PlanError (Option ℕ)
expiry_of approved now none = err PlanError.expiry_required
expiry_of approved now (some t) = guard (ltb now t) PlanError.expiry_passed >> ok (some t)
expiry_of _ now expires_at = ok none

abbrev pub as_instant : Json → Result PlanError ℕ
as_instant (Json.integer t) = ok t
as_instant _ = err PlanError.wrong_type

abbrev pub last_of : Json → List Json → Json
last_of r [] = r
last_of r (s ∷ rs) = last_of s rs

-- `not records or issued >= records[-1]["issued_at"]`
unfoldable pub check_clock : ℕ → List Json → Result PlanError (Unit {0})
unfolding get
check_clock now [] = ok tt
check_clock now (r ∷ rs) = subscript (last_of r rs) (codes "issued_at") >>= λ issued.
    as_instant issued >>= λ t. guard (leb t now) PlanError.clock_backwards

-- The arguments of `decide`, with the bytes of a new key.
pub record Deciding : Type 0 where
  pub digest : Text
  pub status : Status
  pub actor : Text
  pub now : ℕ
  pub expires_at : Option ℕ
  pub token : Text
  pub commits : Bool

abbrev pub decision : Deciding → Option ℕ → Text → Decision
decision d expiry previous = record {
  digest = d.digest;
  status = d.status;
  actor = d.actor;
  issued_at = d.now;
  expires_at = expiry;
  previous = previous;
}

abbrev pub signed_row : Platform → Text → ℕ → Decision → Row
signed_row p key count d = record {
  sequence = count + 1;
  body = p.dumps (to_json d);
  signature = p.sign key (p.dumps (to_json d));
}

-- The transaction: the row to insert, with its decision.
unfoldable pub prepare_row :
    Platform → Deciding → Option ℕ → Option Text → List Row → Result PlanError (Decision × Row)
unfolding check_clock to_json
prepare_row p d expiry key rows = read_records p key rows >>= λ history.
    check_clock d.now history.0
    >> (read_key key >>= λ k.
        guard d.commits PlanError.storage
        >> (let made = decision d expiry history.1 in
            ok (made, signed_row p k (length history.0) made)))

abbrev pub insert :
    Authority
    → Option Text
    → List Row
    → Result PlanError (Decision × Row)
    → Result PlanError Decision × Authority
insert a key rows (err e) = (err e, record { key = key; decisions = some rows })
insert a key rows (ok (made, row)) =
    (ok made, record { key = key; decisions = some (rows ++ row ∷ []) })

abbrev pub transact :
    Platform
    → Deciding
    → Option ℕ
    → Authority
    → Result PlanError Authority
    → Result PlanError Decision × Authority
transact p d expiry a (err e) = (err e, a)
transact p d expiry a (ok opened) =
    let rows = or_default [] opened.decisions in
    insert opened opened.key rows (prepare_row p d expiry opened.key rows)

abbrev pub decide_checked :
    Platform
    → Deciding
    → Authority
    → Result PlanError (Option ℕ)
    → Result PlanError Decision × Authority
decide_checked p d a (err e) = (err e, a)
decide_checked p d a (ok expiry) = transact p d expiry a (initialize d.token a)

-- `decide`
unfoldable pub decide : Platform → Deciding → Authority → Result PlanError Decision × Authority
unfolding prepare_row initialize label expiry_of
decide p d a = decide_checked p d a (label p d.actor >>= λ _. expiry_of d.status d.now d.expires_at)

-- The handler around the reading of the records: a missing field or a wrong type is a corrupt authority.
abbrev pub as_corrupt {ℓ} : {A : Type ℓ} → Result PlanError A → Result PlanError A
as_corrupt (err PlanError.missing_field) = err PlanError.authority_corrupt
as_corrupt (err PlanError.wrong_type) = err PlanError.authority_corrupt
as_corrupt r = r

abbrev pub is_text : Text → Json → Bool
is_text t (Json.text s) = s == t
is_text t _ = false

-- The last of the records of a digest.
unfoldable pub last_match : Text → Option Json → List Json → Result PlanError (Option Json)
unfolding get
last_match digest found [] = ok found
last_match digest found (r ∷ rs) = subscript r (codes "digest") >>= λ d.
    last_match digest (if is_text digest d then some r else found) rs

-- The checks of the record that decides.
unfoldable pub check_record : ℕ → Option Json → Result PlanError Json
unfolding get
check_record now none = err PlanError.unapproved
check_record now (some r) = subscript r (codes "status") >>= λ status.
    guard (is_text (codes "approved") status) PlanError.not_approved
    >> (subscript r (codes "issued_at") >>= λ issued. as_instant issued >>= λ from.
        subscript r (codes "expires_at") >>= λ expires. as_instant expires >>= λ to.
        guard (leb from now && ltb now to) PlanError.not_valid_now >> ok r)

-- `verify`
unfoldable pub verify : Platform → Text → ℕ → Authority → Result PlanError Json
unfolding last_match check_record
verify p digest now a = elim a.decisions [
  | none ↦ err PlanError.unapproved
  | some rows ↦ as_corrupt (read_records p a.key rows) >>= λ history.
      last_match digest none history.0 >>= λ found. check_record now found
]
