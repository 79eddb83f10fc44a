-- ===== src/Spool/Index.antt =====
-- src/orbitflow/result_spool.py: `SQLiteResultIndex`, the bounded retrieval of the stored outcomes.
pub mod Laws
pub mod Paging
use orbit_flow_evo.Base.{
  ℕ, zero, suc, ◌+◌, Bool, true, false, not, ◌&&◌, ◌||◌, Option, none, some, List, [], ◌∷◌, ◌++◌,
  Result, ok, err, ◌>>=◌, ◌>>◌, guard, ltb, leb, length, keep, map, if◌then◌else◌, nat_beq,
}
use orbit_flow_evo.Base.Equality.{list_eq, nat_eq, ◌==◌, contains}
use orbit_flow_evo.Base.Texts.{Text, codes}
use orbit_flow_evo.Json.{Json, Fields, get}
use orbit_flow_evo.Spool.{
  Row, Run, SpoolError, record_size, not_json, missing, invalid_envelope, refused,
}
use orbit_flow_evo.Spool.Append.{Codec, max_record_bytes, row_positions}

abbrev pub is_text : Text → Option Json → Bool
is_text t (some (Json.text s)) = s == t
is_text t _ = false

abbrev pub is_integer : ℕ → Option Json → Bool
is_integer n (some (Json.integer m)) = nat_beq m n
is_integer n _ = false

abbrev pub is_present : Option Json → Bool
is_present none = false
is_present (some _) = true

-- The checks of `get` on a decoded record of the table `results`.
unfoldable pub is_envelope : Text → ℕ → Row → Json → Bool
unfolding get
is_envelope run_id target_count row (Json.object fs) =
    is_text run_id (get fs (codes "run_id"))
    && (is_integer row.position (get fs (codes "input_position"))
        && (leb 1 row.position
            && (leb row.position target_count
                && ((is_text (codes "success") (get fs (codes "status"))
                      || is_text (codes "failed") (get fs (codes "status")))
                    && (is_text row.target (get fs (codes "target"))
                        && is_present (get fs (codes "payload")))))))
is_envelope run_id target_count row _ = false

-- `record['status'] == 'failed'`
unfoldable pub has_failed : Json → Bool
unfolding get
has_failed (Json.object fs) = is_text (codes "failed") (get fs (codes "status"))
has_failed _ = false

unfoldable pub find_row : ℕ → List Row → Option Row
find_row position [] = none
find_row position (r ∷ rows) =
    let rest = find_row position rows in if nat_beq r.position position then some r else rest

abbrev pub checked : Run → Row → Option Json → Result SpoolError Json
checked run row none = err not_json
checked run row (some record') =
    guard (is_envelope run.manifest.run_id run.manifest.target_count row record') invalid_envelope
    >> ok record'

abbrev pub decoded : Codec → Run → Option Row → Result SpoolError Json
decoded codec run none = err missing
decoded codec run (some row) =
    guard (leb (length row.stored) max_record_bytes) record_size
    >> checked run row (codec.loads row.stored)

-- `get`
unfoldable pub get_record : Codec → Run → ℕ → Result SpoolError Json
unfolding find_row is_envelope
get_record codec run position = decoded codec run (find_row position run.rows)

-- The clauses of a query: the positions asked for, if any are, and the target.
pub record Query : Type 0 where
  pub positions : Option (List ℕ)
  pub target : Option Text

abbrev pub asks_position : Option (List ℕ) → ℕ → Bool
asks_position none p = true
asks_position (some ps) p = contains ps p

abbrev pub asks_target : Option Text → Text → Bool
asks_target none t = true
asks_target (some t') t = t' == t

abbrev pub selects : Query → Row → Bool
selects q r = asks_position q.positions r.position && asks_target q.target r.target

abbrev pub take {ℓ} : {A : Type ℓ} → ℕ → List A → List A
take zero xs = []
take (suc n) [] = []
take (suc n) (x ∷ xs) = x ∷ take n xs

-- `SELECT position … AND position>? ORDER BY position LIMIT …`
unfoldable pub fetch : ℕ → Query → ℕ → List Row → List ℕ
fetch limit q position rows =
    row_positions (take limit (keep (λ r. ltb position r.position) (keep (selects q) rows)))

abbrev pub last_of : ℕ → List ℕ → ℕ
last_of p [] = p
last_of p (q ∷ qs) = last_of q qs

abbrev pub after_batch : List ℕ → Option (List ℕ) → Option (List ℕ)
after_batch batch none = none
after_batch batch (some rest) = some (batch ++ rest)

-- The end of the loop, on an empty batch, or the rest of it after this one.
abbrev pub next_batch : List ℕ → Option (List ℕ) → Option (List ℕ)
next_batch [] rest = some []
next_batch (p ∷ ps) rest = after_batch (p ∷ ps) rest

-- The loop over the batches; `none` is a loop that the fuel does not end.
unfoldable pub identifiers : ℕ → Query → List Row → ℕ → ℕ → Option (List ℕ)
unfolding fetch
identifiers limit q rows zero position = none
identifiers limit q rows (suc fuel) position =
    let batch = fetch limit q position rows in
    let rest = identifiers limit q rows fuel (last_of position batch) in next_batch batch rest

abbrev pub read_each : (ℕ → Result SpoolError Json) → List ℕ → Result SpoolError (List Json)
read_each read [] = ok []
read_each read (p ∷ ps) = read p >>= λ r. read_each read ps >>= λ rs. ok (r ∷ rs)

abbrev pub page_size : ℕ
page_size = 256

abbrev pub read_identifiers :
    (ℕ → Result SpoolError Json) → Option (List ℕ) → Result SpoolError (List Json)
read_identifiers read none = ok []
read_identifiers read (some ps) = read_each read ps

abbrev pub is_bounded : Option (List ℕ) → Bool
is_bounded none = true
is_bounded (some ps) = leb (length ps) page_size

abbrev pub asks_nothing : Option (List ℕ) → Bool
asks_nothing (some []) = true
asks_nothing _ = false

-- `records`, as a `for` loop reads it; the loop has more fuel than there are rows.
unfoldable pub records : Codec → Run → Query → Result SpoolError (List Json)
unfolding identifiers get_record
records codec run q =
    guard (is_bounded q.positions) refused
    >> (if asks_nothing q.positions
        then ok []
        else read_identifiers (get_record codec run)
            (identifiers page_size q run.rows (suc (length run.rows)) 0))

-- The query of `records()` without clauses.
abbrev pub every_record : Query
every_record = record { positions = none; target = none }

-- `sum(record['status'] == 'failed' for record in records)`
abbrev pub count_failed : List Json → ℕ
count_failed [] = 0
count_failed (r ∷ rs) = count_failed rs + (if has_failed r then 1 else 0)
