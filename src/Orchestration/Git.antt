-- ===== src/Orchestration/Git.antt =====
-- scripts/orchestration_v2/git_ops.py: the calls of git, and the questions that are asked with them. Git and
-- the file system are parameters: what they answer depends on all that was called before. A line of their
-- output ends at any of the ASCII line breaks of `str.splitlines`.
use orbit_flow_evo.Base.{
  ℕ, Bool, true, false, not, ◌&&◌, ◌||◌, List, [], ◌∷◌, ◌++◌, map, String, Result, ok, err, leb,
  keep, if◌then◌else◌,
}
use orbit_flow_evo.Base.Equality.{list_eq, list_beq, nat_eq}
use orbit_flow_evo.Base.Texts.{Text, codes, starts_with}
use orbit_flow_evo.Base.Decimals.{str}

-- The members of models.FailureCategory that git_ops.py raises; a message is left out.
pub data FailureCategory : Type 0 where
  prerequisite controller codex : FailureCategory

pub data Call : Type 0 where
  git_call : List Text → Text → Call
  make_directory : Text → Call

-- The exit status 0, 2 of `ls-remote --exit-code`, or any other.
pub data ExitStatus : Type 0 where
  success no_match other_status : ExitStatus

pub record Completed : Type 0 where
  pub status : ExitStatus
  pub stdout : Text

pub record Machine : Type 0 where
  pub answer : List Call → List Text → Text → Completed
  pub exists : List Call → Text → Bool
  pub resolve : Text → Text

-- A computation over the calls made so far.
abbrev pub Command : Type 0 → Type 0
Command A = List Call → Result FailureCategory A × List Call

abbrev and_then :
    {A B : Type 0}
    → Result FailureCategory A × List Call
    → (A → Command B)
    → Result FailureCategory B × List Call
and_then (ok a, h) f = f a h
and_then (err e, h) f = (err e, h)

infixl 5 ◌>>=◌ ◌>>◌
abbrev pub ◌>>=◌ : {A B : Type 0} → Command A → (A → Command B) → Command B
(m >>= f) h = and_then (m h) f

abbrev pub ◌>>◌ : {A B : Type 0} → Command A → Command B → Command B
(m >> k) h = and_then (m h) (λ _. k)

abbrev pub return : {A : Type 0} → A → Command A
return a h = (ok a, h)

-- `if not condition: raise error`
abbrev pub require : Bool → FailureCategory → Command (Unit {0})
require true e h = (ok tt, h)
require false e h = (err e, h)

abbrev pub is_success : ExitStatus → Bool
is_success success = true
is_success _ = false

abbrev pub is_other : ExitStatus → Bool
is_other other_status = true
is_other _ = false

-- `git(args, cwd=cwd, check=False)`
abbrev pub git_unchecked : Machine → List Text → Text → Command Completed
git_unchecked m args cwd h = (ok (m.answer h args cwd), h ++ git_call args cwd ∷ [])

-- `git(args, cwd=cwd)`
abbrev pub git : Machine → List Text → Text → Command Completed
git m args cwd h =
    let c = m.answer h args cwd in
    (if is_success c.status then ok c else err controller, h ++ git_call args cwd ∷ [])

abbrev pub mkdir : Text → Command (Unit {0})
mkdir path h = (ok tt, h ++ make_directory path ∷ [])

abbrev pub words : List String → List Text
words = map codes

pub record Workspace : Type 0 where
  pub branch : Text
  pub path : Text

-- The directory of the workspaces beside the repository, whose parent is `parent`.
abbrev pub worktrees : Text → Text
worktrees parent = parent ++ codes "/OrbitFlow-Evo-worktrees"

unfoldable pub planned_workspace : ℕ → Text → Workspace
unfolding str
planned_workspace issue_number parent = record {
  branch = codes "codex/issue-" ++ str issue_number;
  path = worktrees parent ++ codes "/issue-" ++ str issue_number;
}

unfoldable pub local_branch_exists : Machine → Text → Text → Command Bool
local_branch_exists m branch repo_root = do
  c ←
      git_unchecked m
        (words ("show-ref" ∷ "--verify" ∷ "--quiet" ∷ []) ++ (codes "refs/heads/" ++ branch) ∷ [])
        repo_root
  return (is_success c.status)

unfoldable pub remote_branch_exists : Machine → Text → Text → Command Bool
remote_branch_exists m branch repo_root = do
  c ←
      git_unchecked m
        (words ("ls-remote" ∷ "--exit-code" ∷ "--heads" ∷ "origin" ∷ []) ++ branch ∷ []) repo_root
  require (not (is_other c.status)) controller
  return (is_success c.status)

unfoldable pub is_line_break : ℕ → Bool
is_line_break c = (leb 10 c && leb c 13) || (leb 28 c && leb c 30)

-- `splitlines`, with the line read so far.
unfoldable pub lines_from : Text → Text → List Text
unfolding is_line_break
lines_from line [] = if list_beq line [] then [] else line ∷ []
lines_from line (c ∷ s) =
    let next_line = lines_from [] s in
    let same_line = lines_from (line ++ c ∷ []) s in
    if is_line_break c then line ∷ next_line else same_line

abbrev pub drop : ℕ → Text → Text
drop ℕ.zero s = s
drop (ℕ.suc n) [] = []
drop (ℕ.suc n) (c ∷ s) = drop n s

unfoldable pub worktree_paths : Machine → Text → List Text
unfolding lines_from starts_with
worktree_paths m output =
    map (λ line. m.resolve (drop 9 line))
      (keep (λ line. starts_with line (codes "worktree ")) (lines_from [] output))

unfoldable pub registered_worktree_paths : Machine → Text → Command (List Text)
unfolding worktree_paths
registered_worktree_paths m repo_root = do
  c ← git m (words ("worktree" ∷ "list" ∷ "--porcelain" ∷ [])) repo_root
  return (worktree_paths m c.stdout)
