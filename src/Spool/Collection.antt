-- ===== src/Spool/Collection.antt =====
-- src/orbitflow/result_spool.py: `_collection`, the lifecycle of the one collection of a run.
pub mod Owned
pub mod Appending
pub mod Errors
pub mod Endings
pub mod Laws
use orbit_flow_evo.Base.{
  ℕ, ◌+◌, Bool, true, false, not, ◌&&◌, none, some, List, [], ◌∷◌, Result, ok, err, leb, length,
  if◌then◌else◌, nat_beq,
}
use orbit_flow_evo.Base.Texts.{Text}
use orbit_flow_evo.Spool.{
  Status, created, collecting, collected, interrupted, Run, SpoolError, stopped, incomplete, raised,
  repeated, leased, storage, load_manifest,
}
use orbit_flow_evo.Spool.Retry.{Storing, set_state}
use orbit_flow_evo.Spool.Append.{Codec, Append, append_all}

-- What a collection meets: its thread, whether the lease is free, whether the store opens, the calls
-- of `append` in its body, whether the body raises, and the calls of `_state`.
pub record Collecting : Type 0 where
  pub thread : ℕ
  pub free : Bool
  pub connects : Bool
  pub appends : List Append
  pub body_raises : Bool
  pub entering : Storing
  pub leaving : Storing
  pub failing : Storing

abbrev pub is_created : Status → Bool
is_created created = true
is_created _ = false

abbrev pub set_complete : Bool → Run → Run
set_complete complete run =
    let m = run.manifest in record run { manifest = record m { collection_complete = complete } }

-- The `except` block: the checkpoint is stored if it can be, and the first exception is raised.
unfoldable pub interrupt : Storing → SpoolError → Run → Result SpoolError (Unit {0}) × Run
unfolding set_state
interrupt failing e run = (err e, (set_state failing interrupted (set_complete false run)).1)

abbrev pub or_interrupt :
    Storing → Result SpoolError (Unit {0}) × Run → Result SpoolError (Unit {0}) × Run
or_interrupt failing (ok _, run) = (ok tt, run)
or_interrupt failing (err e, run) = interrupt failing e run

-- From the end of the body on.
unfoldable pub leave : Collecting → Run → Result SpoolError (Unit {0}) × Run
unfolding set_state
leave c run =
    if c.body_raises
    then (err raised, run)
    else if run.append_failed
    then (err stopped, run)
    else if not (nat_beq (length run.positions) run.manifest.target_count)
    then (err incomplete, run)
    else set_state c.leaving collected (set_complete true run)

module _ (codec : Codec) (clean : Text → Text) where
  -- The `try` block, once the state is stored as collecting.
  abbrev pub run_body :
      Collecting → Result SpoolError (Unit {0}) × Run → Result SpoolError (Unit {0}) × Run
  run_body c (err e, run) = (err e, run)
  run_body c (ok _, run) =
      if c.connects
      then leave c (append_all codec clean c.appends (record run { writer = some c.thread }))
      else (err storage, run)

  -- The `finally` block.
  abbrev pub closed : Result SpoolError (Unit {0}) × Run → Result SpoolError (Unit {0}) × Run
  closed (r, run) = (r, record run { writer = none; positions = [] })

  -- The `try` statement, for a run whose manifest was loaded.
  unfoldable pub collect : Collecting → Run → Result SpoolError (Unit {0}) × Run
  unfolding append_all interrupt leave set_state
  collect c run = closed (
      or_interrupt c.failing (
        run_body c
          (set_state c.entering collecting (record run { positions = []; append_failed = false }))))

  -- `_collection`
  unfoldable pub collection : Collecting → Run → Result SpoolError (Unit {0}) × Run
  unfolding collect
  collection c run =
      let loaded = record run { manifest = load_manifest run } in
      if not c.free
      then (err leased, run)
      else if not (is_created loaded.manifest.status)
      then (err repeated, loaded)
      else collect c loaded
