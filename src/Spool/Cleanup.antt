-- ===== src/Spool/Cleanup.antt =====
-- src/orbitflow/result_spool.py: `remove`, which deletes the files of a run and its directory.
pub mod Laws
use orbit_flow_evo.Base.{
  ℕ, zero, suc, ◌<◌, Bool, true, false, not, ◌&&◌, ◌||◌, Option, none, some, List, [], ◌∷◌, ◌++◌,
  Result, ok, err, ◌>>=◌, ◌>>◌, guard, ltb, all, keep, map, if◌then◌else◌,
}
use orbit_flow_evo.Base.Equality.{list_eq, nat_eq, ◌==◌, contains}
use orbit_flow_evo.Base.Texts.{Text, codes, starts_with}
use orbit_flow_evo.Spool.{
  Status, consumed, Manifest, SpoolError, refused, leased, storage, permission,
}
use orbit_flow_evo.Spool.Retry.{Attempt, permission_retry, raised_by}

-- What a directory of a run lists: a name, whether it is a link or resolves elsewhere, and whether
-- it is a directory, with its children, a regular file, or neither. A child is plain where it is a
-- regular file of that directory and no link.
pub record Child : Type 0 where
  pub name : Text
  pub plain : Bool

pub data Kind : Type 0 where
  directory : List Child → Kind
  regular special : Kind

pub record Entry : Type 0 where
  pub name : Text
  pub linked : Bool
  pub kind : Kind

-- What is deleted: a file of a reader's scratch directory, that directory, or a file of the run.
pub data Item : Type 0 where
  scratch_file : Text → Text → Item
  scratch : Text → Item
  file : Text → Item

abbrev pub allowed_names : List Text
allowed_names = map codes (
    "manifest.json" ∷ "manifest.tmp" ∷ "results.jsonl" ∷ "snapshot.jsonl" ∷ "snapshot.tmp" ∷ "r.db"
    ∷ "r.db-journal" ∷ "results.sqlite" ∷ "results.sqlite-journal" ∷ ".lock" ∷ [])

abbrev pub scratch_names : List Text
scratch_names = codes "order.sqlite" ∷ codes "order.sqlite-journal" ∷ []

abbrev pub is_scratch_file : Child → Bool
is_scratch_file child = contains scratch_names child.name && child.plain

abbrev pub is_last : Text → Bool
is_last name = name == codes ".lock" || name == codes "manifest.json"

abbrev pub file_items : Text → List Item
file_items name = if is_last name then [] else file name ∷ []

-- The deletions that one entry asks for: those of scratch directories, and those of files.
unfoldable pub recognize : Text → Kind → Result SpoolError (List Item × List Item)
recognize name (Kind.directory children) =
    guard (starts_with name (codes "read-") && all is_scratch_file children) refused
    >> ok (map (λ c. scratch_file name c.name) children ++ scratch name ∷ [], [])
recognize name Kind.regular =
    guard (contains allowed_names name) refused >> ok ([], file_items name)
recognize name Kind.special = err refused

abbrev pub check_entry : Entry → Result SpoolError (List Item × List Item)
check_entry e = guard (not e.linked) refused >> recognize e.name e.kind

unfoldable pub survey : List Entry → Result SpoolError (List Item × List Item)
unfolding recognize
survey [] = ok ([], [])
survey (e ∷ entries) =
    check_entry e >>= λ here. survey entries >>= λ rest. ok (here.0 ++ rest.0, here.1 ++ rest.1)

-- What a removal leaves: the directory as it was, the marked manifest with what is not deleted yet
-- (in the order of deletion), no file at all, a manifest whose writing broke off, or nothing.
pub data Left : Type 0 where
  untouched : Left
  marked : Manifest → List Item → Left
  bare : Left
  damaged : Left
  gone : Left

-- The calls of a removal: each step is retried, and `write` and `rewrite` store the marker.
pub record Removing : Type 0 where
  pub before : Option ℕ
  pub links : Bool
  pub free : Bool
  pub write : ℕ → Attempt
  pub delete : ℕ → ℕ → Attempt
  pub unlink : ℕ → Attempt
  pub rmdir : ℕ → Attempt
  pub rewrite : ℕ → Attempt

abbrev pub mark : Manifest → Manifest
mark m = record m { cleanup_started = true }

abbrev pub outcome_of : (ℕ → Attempt) → Attempt
outcome_of operation = (permission_retry operation).outcome

-- The deletions one after the other: what remains where one raises.
abbrev pub clear_first :
    Attempt
    → List Item
    → Result SpoolError (Unit {0}) × List Item
    → Result SpoolError (Unit {0}) × List Item
clear_first Attempt.done items rest = rest
clear_first Attempt.denied items rest = (err permission, items)
clear_first Attempt.broken items rest = (err storage, items)

unfoldable pub clear : (ℕ → ℕ → Attempt) → ℕ → List Item → Result SpoolError (Unit {0}) × List Item
unfolding permission_retry
clear delete step [] = (ok tt, [])
clear delete step (i ∷ items) =
    clear_first (outcome_of (delete step)) (i ∷ items) (clear delete (suc step) items)

-- The removal of the directory; where it is denied, the marker is stored again.
abbrev pub rewritten : Manifest → Attempt → Result SpoolError Bool × Left
rewritten m Attempt.done = (err permission, marked (mark m) [])
rewritten m Attempt.denied = (err permission, bare)
rewritten m Attempt.broken = (err storage, damaged)

abbrev pub remove_directory : Removing → Manifest → Attempt → Result SpoolError Bool × Left
remove_directory r m Attempt.done = (ok true, gone)
remove_directory r m Attempt.denied = rewritten m (outcome_of r.rewrite)
remove_directory r m Attempt.broken = (err storage, bare)

-- The manifest goes after all other files.
abbrev pub unlink_manifest : Removing → Manifest → Attempt → Result SpoolError Bool × Left
unlink_manifest r m Attempt.done = remove_directory r m (outcome_of r.rmdir)
unlink_manifest r m Attempt.denied = (err permission, marked (mark m) [])
unlink_manifest r m Attempt.broken = (err storage, marked (mark m) [])

abbrev pub cleared :
    Removing → Manifest → Result SpoolError (Unit {0}) × List Item → Result SpoolError Bool × Left
cleared r m (ok _, items) = unlink_manifest r m (outcome_of r.unlink)
cleared r m (err e, items) = (err e, marked (mark m) items)

abbrev pub delete_marked : Removing → Manifest → List Item → Attempt → Result SpoolError Bool × Left
delete_marked r m items Attempt.done = cleared r m (clear r.delete 0 items)
delete_marked r m items Attempt.denied = (err permission, untouched)
delete_marked r m items Attempt.broken = (err storage, damaged)

abbrev pub deletions : List Item × List Item → List Item
deletions (scratches, files) = scratches ++ (files ++ file (codes ".lock") ∷ [])

abbrev pub delete_surveyed :
    Removing → Manifest → Result SpoolError (List Item × List Item) → Result SpoolError Bool × Left
delete_surveyed r m (err e) = (err e, untouched)
delete_surveyed r m (ok items) = delete_marked r m (deletions items) (outcome_of r.write)

abbrev pub is_consumed : Status → Bool
is_consumed consumed = true
is_consumed _ = false

-- Whether the cutoff keeps the run, and whether the status forbids a removal without one.
abbrev pub is_recent : Option ℕ → Manifest → Bool
is_recent none m = false
is_recent (some before) m = not (ltb m.updated_at before)

abbrev pub is_forbidden : Option ℕ → Manifest → Bool
is_forbidden none m = not (is_consumed m.status)
is_forbidden (some before) m = false

-- `_remove`
unfoldable pub remove_run : Removing → List Entry → Manifest → Result SpoolError Bool × Left
unfolding clear survey
remove_run r entries m =
    if r.links
    then (err refused, untouched)
    else if not r.free
    then (err leased, untouched)
    else if is_recent r.before m
    then (ok false, untouched)
    else if is_forbidden r.before m
    then (err refused, untouched)
    else delete_surveyed r m (survey entries)

abbrev pub deferred : Result SpoolError Bool × Left → Result SpoolError Bool × Left
deferred (err permission, left) = (ok false, left)
deferred z = z

-- `remove`: a denied permission defers the cleanup.
unfoldable pub remove : Removing → List Entry → Manifest → Result SpoolError Bool × Left
unfolding remove_run
remove r entries m = deferred (remove_run r entries m)
