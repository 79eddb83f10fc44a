-- ===== src/Approvals.antt =====
-- src/orbitflow/configuration/approvals.py: the decisions on change plans, each signed and naming the
-- signature of the one before it. An instant is a number, and a plan is its digest.
pub mod Store
pub mod Chain
pub mod Verdicts
pub mod Laws
use orbit_flow_evo.Base.{
  ℕ, ◌+◌, ◌<◌, Bool, true, false, not, ◌&&◌, ◌||◌, Option, none, some, List, [], ◌∷◌, ◌++◌, Result,
  ok, err, ◌>>=◌, ◌>>◌, guard, ltb, leb, all, keep, length, if◌then◌else◌, nat_beq,
}
use orbit_flow_evo.Base.Equality.{list_eq, nat_eq, ◌==◌}
use orbit_flow_evo.Base.Texts.{Text, codes, strip, is_alnum, is_nil}
use orbit_flow_evo.Json.{Json, Fields, end, field, get}

pub data PlanError : Type 0 where
  invalid_text unsafe_text secret_text invalid_label invalid_decision expiry_required : PlanError
  expiry_passed key_missing unavailable invalid_key history_corrupt tampered : PlanError
  invalid_json missing_field wrong_type clock_backwards unapproved not_approved : PlanError
  not_valid_now authority_corrupt storage : PlanError

-- What the store calls: HMAC-SHA-256 in hexadecimal, JSON in the form that `canonical` asks for and as `decode`
-- reads it, and the tests of a text for secrets.
pub record Platform : Type 0 where
  pub sign : Text → Text → Text
  pub dumps : Json → Text
  pub loads : Text → Option Json
  pub is_secret : Text → Bool

pub data Status : Type 0 where
  approved rejected expired : Status

pub record Decision : Type 0 where
  pub digest : Text
  pub status : Status
  pub actor : Text
  pub issued_at : ℕ
  pub expires_at : Option ℕ
  pub previous : Text

abbrev pub status_name : Status → Text
status_name approved = codes "approved"
status_name rejected = codes "rejected"
status_name expired = codes "expired"

abbrev pub expiry_json : Option ℕ → Json
expiry_json none = Json.null
expiry_json (some t) = Json.integer t

-- The dict of a decision, its names in their order.
unfoldable pub to_json : Decision → Json
to_json d = Json.object (
    field (codes "actor") (Json.text d.actor) (
      field (codes "digest") (Json.text d.digest) (
        field (codes "expires_at") (expiry_json d.expires_at) (
          field (codes "issued_at") (Json.integer d.issued_at) (
            field (codes "previous") (Json.text d.previous) (
              field (codes "schema_version") (Json.integer 1)
                (field (codes "status") (Json.text (status_name d.status)) end)))))))

-- A row of the table `decisions`.
pub record Row : Type 0 where
  pub sequence : ℕ
  pub body : Text
  pub signature : Text

-- approval.key, and the table of approvals.sqlite3 if that file is there.
pub record Authority : Type 0 where
  pub key : Option Text
  pub decisions : Option (List Row)

abbrev pub is_printable : ℕ → Bool
is_printable c = leb 32 c && ltb c 127

-- `[A-Za-z0-9][A-Za-z0-9_.:-]{0,127}`
abbrev pub is_label_char : ℕ → Bool
is_label_char c =
    is_alnum c || (nat_beq c b'_' || (nat_beq c b'.' || (nat_beq c b':' || nat_beq c b'-')))

abbrev pub matches_label : Text → Bool
matches_label [] = false
matches_label (c ∷ s) = is_alnum c && (all is_label_char s && leb (length s) 127)

-- `safe_text` and `label` of plans.py.
unfoldable pub label : Platform → Text → Result PlanError (Unit {0})
unfolding strip is_alnum
label p t =
    guard (not (is_nil t) && leb (length t) 256) PlanError.invalid_text
    >> (guard (strip t == t && all is_printable t) PlanError.unsafe_text
        >> (guard (not (p.is_secret t)) PlanError.secret_text
            >> guard (matches_label t) PlanError.invalid_label))

abbrev pub present : Option Json → Result PlanError Json
present none = err PlanError.missing_field
present (some value) = ok value

abbrev pub decoded : Option Json → Result PlanError Json
decoded none = err PlanError.invalid_json
decoded (some value) = ok value

-- `record[name]`
abbrev pub subscript : Json → Text → Result PlanError Json
subscript (Json.object fs) name = present (get fs name)
subscript _ name = err PlanError.wrong_type

abbrev pub as_text : Json → Result PlanError Text
as_text (Json.text t) = ok t
as_text _ = err PlanError.history_corrupt

-- `_key`
abbrev pub read_key : Option Text → Result PlanError Text
read_key none = err PlanError.unavailable
read_key (some key) = guard (nat_beq (length key) 32) PlanError.invalid_key >> ok key

abbrev pub decode : Platform → Text → Result PlanError Json
decode p body = decoded (p.loads body)

-- The checks of one row, after `count` rows, the last of which has the signature `previous`.
unfoldable pub check_row : Platform → Text → ℕ → Text → Row → Result PlanError Json
unfolding get
check_row p key count previous row =
    guard (nat_beq row.sequence (count + 1)) PlanError.history_corrupt
    >> (guard (p.sign key row.body == row.signature) PlanError.tampered
        >> (decode p row.body >>= λ record'. subscript record' (codes "previous") >>= λ named.
            as_text named >>= λ t. guard (t == previous) PlanError.history_corrupt >> ok record'))

-- The loop of `_records`: the records, and the last signature.
unfoldable pub read_rows :
    Platform → Text → ℕ → Text → List Row → Result PlanError (List Json × Text)
unfolding check_row
read_rows p key count previous [] = ok ([], previous)
read_rows p key count previous (row ∷ rows) = check_row p key count previous row >>= λ record'.
    read_rows p key (count + 1) row.signature rows >>= λ rest. ok (record' ∷ rest.0, rest.1)

-- `_records`
abbrev pub read_records : Platform → Option Text → List Row → Result PlanError (List Json × Text)
read_records p key rows = read_key key >>= λ k. read_rows p k 0 [] rows
