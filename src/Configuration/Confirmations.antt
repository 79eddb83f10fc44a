-- ===== src/Configuration/Confirmations.antt =====
-- The confirmations of `ExecutionService` in src/orbitflow/configuration/execution.py: the table of the local
-- database, what `prepare` inserts, and how `confirm` consumes a row. SHA-256, the files of the plans and their
-- loader are parameters.
pub mod Confirming
pub mod Laws
pub mod Replay
use orbit_flow_evo.Base.{
  Bool, true, false, not, ◌&&◌, ◌||◌, Option, none, some, List, [], ◌∷◌, ◌++◌, all, any, length,
  nat_beq, leb, if◌then◌else◌, Result, ok, err, ◌>>=◌, ◌>>◌, guard,
}
use orbit_flow_evo.Base.Equality.{list_eq, list_beq, nat_eq, ◌==◌}
use orbit_flow_evo.Base.Texts.{Text, codes, is_digit}

pub data State : Type 0 where
  awaiting_confirmation claimed completed interrupted : State

abbrev pub is_awaiting : State → Bool
is_awaiting awaiting_confirmation = true
is_awaiting _ = false

pub record Payload : Type 0 where
  -- The canonical text of the summary, and the digest of the source that it names.
  pub summary : Text
  pub source_digest : Text
  -- `plan_file`, where the payload has one, and else the plan itself.
  pub plan_file : Option Text
  pub plan : Text

pub record Confirmation : Type 0 where
  pub reference : Text
  pub digest : Text
  pub payload : Payload
  pub state : State
  pub run_path : Text

abbrev pub Table : Type 0
Table = List Confirmation

-- `SELECT … WHERE reference=?` and `SELECT … WHERE digest=?`
unfoldable pub by_reference : Text → Table → Option Confirmation
unfolding list_beq
by_reference r [] = none
by_reference r (c ∷ table) =
    let rest = by_reference r table in if c.reference == r then some c else rest

unfoldable pub by_digest : Text → Table → Option Confirmation
unfolding list_beq
by_digest d [] = none
by_digest d (c ∷ table) = let rest = by_digest d table in if c.digest == d then some c else rest

-- The first row of either digest that was consumed.
unfoldable pub consumed : Text → Text → Table → Option Confirmation
unfolding list_beq
consumed d legacy [] = none
consumed d legacy (c ∷ table) =
    let rest = consumed d legacy table in
    if (c.digest == d || c.digest == legacy) && not (is_awaiting c.state) then some c else rest

unfoldable pub of_digests : Text → Text → Table → Option Confirmation
unfolding list_beq
of_digests d legacy [] = none
of_digests d legacy (c ∷ table) =
    let rest = of_digests d legacy table in
    if c.digest == d || c.digest == legacy then some c else rest

abbrev pub or_else : Option Confirmation → Option Confirmation → Option Confirmation
or_else (some c) other = some c
or_else none other = other

-- `SELECT … WHERE digest IN (?, ?) ORDER BY CASE WHEN state='awaiting_confirmation' THEN 1 ELSE 0 END`
unfoldable pub existing : Text → Text → Table → Option Confirmation
unfolding consumed of_digests
existing d legacy table = or_else (consumed d legacy table) (of_digests d legacy table)

-- Whether the primary key or the unique digest is taken.
unfoldable pub conflicts : Text → Text → Table → Bool
unfolding list_beq
conflicts r d [] = false
conflicts r d (c ∷ table) = c.reference == r || c.digest == d || conflicts r d table

-- `INSERT OR IGNORE`
unfoldable pub insert : Confirmation → Table → Table
unfolding conflicts
insert c table = if conflicts c.reference c.digest table then table else table ++ c ∷ []

pub record Prepared : Type 0 where
  pub table : Table
  -- None when the insertion was ignored and no row has the digest.
  pub row : Option Confirmation

unfoldable pub prepare_onto : Option Confirmation → Confirmation → Table → Prepared
unfolding insert by_digest
prepare_onto (some c) fresh table = record { table = table; row = some c }
prepare_onto none fresh table =
    let inserted = insert fresh table in
    record { table = inserted; row = by_digest fresh.digest inserted }

-- The transaction of `prepare`, over a fresh reference.
unfoldable pub prepare : Text → Text → Text → Payload → Table → Prepared
unfolding existing prepare_onto
prepare r d legacy payload table =
    prepare_onto (existing d legacy table)
      (record {
        reference = r;
        digest = d;
        payload = payload;
        state = awaiting_confirmation;
        run_path = [];
      })
      table

-- `UPDATE confirmations SET … WHERE reference=?`
unfoldable pub update : Text → (Confirmation → Confirmation) → Table → Table
unfolding list_beq
update r f [] = []
update r f (c ∷ table) = (if c.reference == r then f c else c) ∷ update r f table

abbrev pub set_state : State → Confirmation → Confirmation
set_state s c = record c { state = s }

abbrev pub set_run : Text → Confirmation → Confirmation
set_run path c = record c { run_path = path }

-- The messages of `require`, and what the loader of a plan raises.
pub data ConfirmError : Type 0 where
  explicit_apply_required summary_mismatch already_consumed corrupt_confirmation corrupt_source
        source_mismatch plan_unreadable :
      ConfirmError

pub record Files : Type 0 where
  pub sha256 : Text → Text
  pub is_symlink : Text → Bool
  -- The digest of the plan that a file or a payload holds.
  pub load_plan : Text → Result ConfirmError Text
  pub bulk_plan : Text → Result ConfirmError Text

-- `[0-9a-f]{32}`
unfoldable pub is_reference : Text → Bool
unfolding is_digit
is_reference r = nat_beq (length r) 32 && all (λ c. is_digit c || (leb b'a' c && leb c b'f')) r

unfoldable pub plan_name : Text → Text
plan_name r = codes "confirmation-" ++ r ++ codes ".json"

-- The digest of the source that the payload binds.
unfoldable pub bound_source : Files → Text → Payload → Option Text → Result ConfirmError Text
unfolding is_reference plan_name list_beq
bound_source f r p (some name) =
    guard (is_reference r && (name == plan_name r)) corrupt_source
    >> guard (not (f.is_symlink name)) corrupt_source
    >> f.load_plan name
bound_source f r p none = f.bulk_plan p.plan

unfoldable pub valid_row : Files → Text → Text → Option Confirmation → Result ConfirmError Payload
unfolding bound_source list_beq
valid_row f r d none = err summary_mismatch
valid_row f r d (some c) =
    guard (c.digest == d) summary_mismatch
    >> guard (is_awaiting c.state) already_consumed
    >> guard (f.sha256 c.payload.summary == d) corrupt_confirmation
    >> (bound_source f r c.payload c.payload.plan_file >>= λ source.
        guard (source == c.payload.source_digest) source_mismatch)
    >> ok c.payload

-- The first transaction of `confirm`: the payload that runs, and the table with the row claimed.
unfoldable pub claim : Files → Text → Text → Table → Result ConfirmError (Payload × Table)
unfolding valid_row by_reference update
claim f r d table = valid_row f r d (by_reference r table) >>= λ payload.
    ok (payload, update r (set_state claimed) table)

-- The statements of every process on the table, in the order in which the database runs them.
pub data Call : Type 0 where
  prepares : Text → Text → Text → Payload → Call
  confirms : Text → Text → Call
  starts : Text → Text → Call
  completes : Text → Text → Call
  interrupts : Text → Call

unfoldable pub claimed_table : Table → Result ConfirmError (Payload × Table) → Table
claimed_table table (ok c) = c.1
claimed_table table (err _) = table

unfoldable pub step : Files → Table → Call → Table
unfolding prepare claim claimed_table update
step f table (prepares r d legacy p) = (prepare r d legacy p table).table
step f table (confirms r d) = claimed_table table (claim f r d table)
step f table (starts r path) = update r (set_run path) table
step f table (completes r path) = update r (λ c. set_run path (set_state completed c)) table
step f table (interrupts r) = update r (set_state interrupted) table

unfoldable pub run : Files → Table → List Call → Table
unfolding step
run f table [] = table
run f table (c ∷ calls) = run f (step f table c) calls
