-- ===== src/Spool/Journal.antt =====
-- src/orbitflow/result_spool.py: `ResultJournal`, the durable events of a run in its store.
pub mod Laws
use orbit_flow_evo.Base.{
  ℕ, suc, ◌+◌, ◌≤◌, ◌≡◌, ◌≢◌, refl, sym, ◌∙◌, ap, Bool, true, false, not, ◌&&◌, ◌||◌, Option, none,
  some, List, [], ◌∷◌, ◌++◌, Result, ok, err, ◌>>=◌, ◌>>◌, guard, arith, ltb, leb, length, map,
  if◌then◌else◌, inl, inr, ◌⊎◌, Result-cases, Bool-cases,
}
use orbit_flow_evo.Base.Texts.{Text, codes}
use orbit_flow_evo.Json.{Json, Fields, get}
use orbit_flow_evo.Spool.{
  SpoolError, stopped, storage, not_json, record_size, spool_size, not_normalized,
}
use orbit_flow_evo.Spool.Safe.{Value, safe}
use orbit_flow_evo.Spool.Append.{Codec, max_record_bytes, max_spool_bytes, join}

-- A row of the table `events`: SQLite numbers the rows in the order of their insertion.
pub record Event : Type 0 where
  pub position : ℕ
  pub target : Json
  pub stored : Text

pub record Journal : Type 0 where
  pub failed : Bool
  pub events : List Event

-- A call of `append`, and what it meets.
pub record Append : Type 0 where
  pub value : Value
  pub stages : Bool
  pub start : ℕ
  pub commits : Bool

-- The loop over the chunks, after `size` bytes of them.
unfoldable pub measure : ℕ → List Text → Result SpoolError ℕ
measure size [] = ok size
measure size (chunk ∷ chunks) =
    let size' = size + length chunk in
    let rest = measure size' chunks in if ltb max_record_bytes size' then err record_size else rest

-- `value.get('row_id', '')`, which only an object has.
abbrev pub row_id : Option Json → Json
row_id none = Json.text []
row_id (some id) = id

-- SQLite refuses NULL in this column, and binds no list or dict.
abbrev pub bound : Json → Result SpoolError Json
bound Json.null = err storage
bound (Json.array _) = err storage
bound (Json.object _) = err storage
bound target = ok target

abbrev pub target_of : Json → Result SpoolError Json
target_of (Json.object fs) = bound (row_id (get fs (codes "row_id")))
target_of _ = err not_normalized

unfoldable pub stage_event : Codec → (Text → Text) → Append → Result SpoolError (Json × Text)
unfolding measure safe get
stage_event codec clean a = safe clean a.value >>= λ value.
    guard a.stages storage
    >> (measure 0 (codec.iterencode value) >>= λ size.
        guard (codec.completes value) not_json
        >> (guard (not (ltb max_spool_bytes (a.start + size))) spool_size
            >> (target_of value >>= λ target.
                guard a.commits storage >> ok (target, join (codec.iterencode value)))))

abbrev pub record_event :
    Result SpoolError (Json × Text) → Journal → Result SpoolError (Unit {0}) × Journal
record_event (err e) j = (err e, record j { failed = true })
record_event (ok (target, stored)) j = (
  ok tt,
  record j {
    events =
        j.events
        ++ record { position = length j.events + 1; target = target; stored = stored } ∷ [];
  },
)

-- `ResultJournal.append`
unfoldable pub append :
    Codec → (Text → Text) → Append → Journal → Result SpoolError (Unit {0}) × Journal
unfolding stage_event
append codec clean a j =
    if j.failed then (err stopped, j) else record_event (stage_event codec clean a) j

unfoldable pub append_all : Codec → (Text → Text) → List Append → Journal → Journal
unfolding append
append_all codec clean [] j = j
append_all codec clean (a ∷ calls) j = append_all codec clean calls (append codec clean a j).1

-- A new journal of a run.
abbrev pub empty : Journal
empty = record { failed = false; events = [] }

abbrev pub followed_by : List (Json × Text) → Result SpoolError (Json × Text) → List (Json × Text)
followed_by rest (err _) = []
followed_by rest (ok e) = e ∷ rest

-- The values that are appended up to the first call that raises.
unfoldable pub recorded : Codec → (Text → Text) → List Append → List (Json × Text)
unfolding stage_event
recorded codec clean [] = []
recorded codec clean (a ∷ calls) =
    followed_by (recorded codec clean calls) (stage_event codec clean a)

abbrev pub content : Event → Json × Text
content e = (e.target, e.stored)
