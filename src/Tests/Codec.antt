-- ===== src/Tests/Codec.antt =====
-- A writer and a reader of JSON values that stand in for Python's `json` in the runs of the spool and of the approvals.
use orbit_flow_evo.Base.{
  ℕ, zero, suc, ◌+◌, ◌≤◌, ◌≡◌, refl, ap, ◌∙◌, true, false, Option, none, some, [], ◌∷◌, ◌++◌, arith,
  length, if◌then◌else◌, nat_beq,
}
use mathlib.Core.List.{append_assoc}
use orbit_flow_evo.Base.Texts.{Text}
use orbit_flow_evo.Json.{Json, Items, Fields}

unfoldable mutual
  pub encode : Json → Text → Text
  encode Json.null rest = 0 ∷ rest
  encode (Json.boolean true) rest = 1 ∷ rest
  encode (Json.boolean false) rest = 2 ∷ rest
  encode (Json.integer n) rest = 3 ∷ n ∷ rest
  encode (Json.negative n) rest = 4 ∷ n ∷ rest
  encode (Json.real t) rest = 5 ∷ length t ∷ (t ++ rest)
  encode (Json.text t) rest = 6 ∷ length t ∷ (t ++ rest)
  encode (Json.array xs) rest = 7 ∷ encode_items xs rest
  encode (Json.object fs) rest = 8 ∷ encode_fields fs rest

  encode_items : Items → Text → Text
  encode_items Items.nil rest = 0 ∷ rest
  encode_items (Items.cons x xs) rest = 1 ∷ encode x (encode_items xs rest)

  encode_fields : Fields → Text → Text
  encode_fields Fields.end rest = 0 ∷ rest
  encode_fields (Fields.field n v fs) rest = 1 ∷ length n ∷ (n ++ encode v (encode_fields fs rest))

-- The fuel that reading takes.
unfoldable mutual
  pub cost : Json → ℕ
  cost (Json.array xs) = 1 + cost_items xs
  cost (Json.object fs) = 1 + cost_fields fs
  cost _ = 1

  cost_items : Items → ℕ
  cost_items Items.nil = 1
  cost_items (Items.cons x xs) = 1 + cost x + cost_items xs

  cost_fields : Fields → ℕ
  cost_fields Fields.end = 1
  cost_fields (Fields.field n v fs) = 1 + cost v + cost_fields fs

unfoldable split_at : ℕ → Text → Text × Text
split_at zero t = ([], t)
split_at (suc n) [] = ([], [])
split_at (suc n) (c ∷ t) = let rest = split_at n t in (c ∷ rest.0, rest.1)

split_at-append : (t rest : Text) → split_at (length t) (t ++ rest) ≡ (t, rest)
unfolding split_at
split_at-append [] rest = refl
split_at-append (c ∷ t) rest = rw (split_at-append t rest) refl

abbrev number_at : (ℕ → Json) → Text → Option (Json × Text)
number_at make [] = none
number_at make (n ∷ t) = some (make n, t)

abbrev text_at : (Text → Json) → Text → Option (Json × Text)
text_at make [] = none
text_at make (n ∷ t) = let (x, rest) = split_at n t in some (make x, rest)

abbrev array_at : Option (Items × Text) → Option (Json × Text)
array_at none = none
array_at (some (xs, t)) = some (Json.array xs, t)

abbrev object_at : Option (Fields × Text) → Option (Json × Text)
object_at none = none
object_at (some (fs, t)) = some (Json.object fs, t)

abbrev value_at : ℕ → Text → Option (Items × Text) → Option (Fields × Text) → Option (Json × Text)
value_at tag t items fields =
    if nat_beq tag 0
    then some (Json.null, t)
    else if nat_beq tag 1
    then some (Json.boolean true, t)
    else if nat_beq tag 2
    then some (Json.boolean false, t)
    else if nat_beq tag 3
    then number_at Json.integer t
    else if nat_beq tag 4
    then number_at Json.negative t
    else if nat_beq tag 5
    then text_at Json.real t
    else if nat_beq tag 6
    then text_at Json.text t
    else if nat_beq tag 7
    then array_at items
    else object_at fields

abbrev cons_at : Json → Option (Items × Text) → Option (Items × Text)
cons_at x none = none
cons_at x (some (xs, t)) = some (Items.cons x xs, t)

abbrev field_at : Text → Json → Option (Fields × Text) → Option (Fields × Text)
field_at n v none = none
field_at n v (some (fs, t)) = some (Fields.field n v fs, t)

unfoldable mutual
  unfolding split_at

  pub decode : ℕ → Text → Option (Json × Text)
  decode zero t = none
  decode (suc f) [] = none
  decode (suc f) (tag ∷ t) = value_at tag t (decode_items f t) (decode_fields f t)

  decode_items : ℕ → Text → Option (Items × Text)
  decode_items zero t = none
  decode_items (suc f) [] = none
  decode_items (suc f) (zero ∷ t) = some (Items.nil, t)
  decode_items (suc f) (suc _ ∷ t) = elim (decode f t) [
    | none ↦ none
    | some (x, t') ↦ cons_at x (decode_items f t')
  ]

  decode_fields : ℕ → Text → Option (Fields × Text)
  decode_fields zero t = none
  decode_fields (suc f) [] = none
  decode_fields (suc f) (zero ∷ t) = some (Fields.end, t)
  decode_fields (suc f) (suc _ ∷ []) = none
  decode_fields (suc f) (suc _ ∷ n ∷ t) = elim (decode f (split_at n t).1) [
    | none ↦ none
    | some (v, t') ↦ field_at (split_at n t).0 v (decode_fields f t')
  ]

mutual
  unfolding encode cost decode

  pub decode-encode :
      (j : Json) (f : ℕ) (rest : Text) → cost j ≤ f → decode f (encode j rest) ≡ some (j, rest)
  decode-encode Json.null zero rest h = absurd (omega arith)
  decode-encode (Json.boolean b) zero rest h = absurd (omega arith)
  decode-encode (Json.integer n) zero rest h = absurd (omega arith)
  decode-encode (Json.negative n) zero rest h = absurd (omega arith)
  decode-encode (Json.real t) zero rest h = absurd (omega arith)
  decode-encode (Json.text t) zero rest h = absurd (omega arith)
  decode-encode (Json.array xs) zero rest h = absurd (omega arith)
  decode-encode (Json.object fs) zero rest h = absurd (omega arith)
  decode-encode Json.null (suc f) rest h = refl
  decode-encode (Json.boolean true) (suc f) rest h = refl
  decode-encode (Json.boolean false) (suc f) rest h = refl
  decode-encode (Json.integer n) (suc f) rest h = refl
  decode-encode (Json.negative n) (suc f) rest h = refl
  decode-encode (Json.real t) (suc f) rest h = rw (split_at-append t rest) refl
  decode-encode (Json.text t) (suc f) rest h = rw (split_at-append t rest) refl
  decode-encode (Json.array xs) (suc f) rest h =
      rw (decode_items-encode_items xs f rest (omega arith)) refl
  decode-encode (Json.object fs) (suc f) rest h =
      rw (decode_fields-encode_fields fs f rest (omega arith)) refl

  decode_items-encode_items :
      (xs : Items) (f : ℕ) (rest : Text)
      → cost_items xs ≤ f
      → decode_items f (encode_items xs rest) ≡ some (xs, rest)
  decode_items-encode_items Items.nil zero rest h = absurd (omega arith)
  decode_items-encode_items (Items.cons x xs) zero rest h = absurd (omega arith)
  decode_items-encode_items Items.nil (suc f) rest h = refl
  decode_items-encode_items (Items.cons x xs) (suc f) rest h =
      rw
        (
          decode-encode x f (encode_items xs rest) (omega arith),
          decode_items-encode_items xs f rest (omega arith),
        )
        refl

  decode_fields-encode_fields :
      (fs : Fields) (f : ℕ) (rest : Text)
      → cost_fields fs ≤ f
      → decode_fields f (encode_fields fs rest) ≡ some (fs, rest)
  decode_fields-encode_fields Fields.end zero rest h = absurd (omega arith)
  decode_fields-encode_fields (Fields.field n v fs) zero rest h = absurd (omega arith)
  decode_fields-encode_fields Fields.end (suc f) rest h = refl
  decode_fields-encode_fields (Fields.field n v fs) (suc f) rest h =
      rw
        (
          split_at-append n (encode v (encode_fields fs rest)),
          decode-encode v f (encode_fields fs rest) (omega arith),
          decode_fields-encode_fields fs f rest (omega arith),
        )
        (ap (λ x. field_at x.0 v (some (fs, rest)))
          (split_at-append n (encode v (encode_fields fs rest))))

-- The text of a value: the fuel, and the value.
unfoldable pub write_json : Json → Text
unfolding cost encode
write_json j = cost j ∷ encode j []

abbrev first : Option (Json × Text) → Option Json
first none = none
first (some (j, rest)) = some j

unfoldable pub read_json : Text → Option Json
unfolding decode
read_json [] = none
read_json (fuel ∷ t) = first (decode fuel t)

mutual
  unfolding encode

  encode-append : (j : Json) (a rest : Text) → encode j a ++ rest ≡ encode j (a ++ rest)
  encode-append Json.null a rest = refl
  encode-append (Json.boolean true) a rest = refl
  encode-append (Json.boolean false) a rest = refl
  encode-append (Json.integer n) a rest = refl
  encode-append (Json.negative n) a rest = refl
  encode-append (Json.real t) a rest = ap (λ s. 5 ∷ length t ∷ s) (append_assoc t a rest)
  encode-append (Json.text t) a rest = ap (λ s. 6 ∷ length t ∷ s) (append_assoc t a rest)
  encode-append (Json.array xs) a rest = ap (◌∷◌ 7) (encode_items-append xs a rest)
  encode-append (Json.object fs) a rest = ap (◌∷◌ 8) (encode_fields-append fs a rest)

  encode_items-append :
      (xs : Items) (a rest : Text) → encode_items xs a ++ rest ≡ encode_items xs (a ++ rest)
  encode_items-append Items.nil a rest = refl
  encode_items-append (Items.cons x xs) a rest =
      ap (◌∷◌ 1)
        (encode-append x (encode_items xs a) rest ∙ ap (encode x) (encode_items-append xs a rest))

  encode_fields-append :
      (fs : Fields) (a rest : Text) → encode_fields fs a ++ rest ≡ encode_fields fs (a ++ rest)
  encode_fields-append Fields.end a rest = refl
  encode_fields-append (Fields.field n v fs) a rest =
      ap (λ s. 1 ∷ length n ∷ s)
        (append_assoc n (encode v (encode_fields fs a)) rest
          ∙ ap (◌++◌ n) (
              encode-append v (encode_fields fs a) rest
              ∙ ap (encode v) (encode_fields-append fs a rest)))

-- A value reads back from its text, whatever follows it.
pub read_json-write_json : (j : Json) (rest : Text) → read_json (write_json j ++ rest) ≡ some j
unfolding read_json write_json
read_json-write_json j rest =
    rw (encode-append j [] rest, decode-encode j (cost j) rest (omega arith)) refl
