-- ===== src/Orchestration/Workspaces.antt =====
-- scripts/orchestration_v2/git_ops.py: validate_workspace, prepare_workspace and commit_and_push.
use orbit_flow_evo.Base.{ℕ, Bool, not, ◌&&◌, ◌||◌, List, [], ◌∷◌, ◌++◌, ok, if◌then◌else◌}
use orbit_flow_evo.Base.Equality.{list_eq, list_beq, nat_eq, ◌==◌, contains}
use orbit_flow_evo.Base.Texts.{Text, codes, strip, is_nil}
use orbit_flow_evo.Base.Decimals.{str}
use orbit_flow_evo.Orchestration.Git.{
  prerequisite, codex, Machine, Command, ◌>>=◌, ◌>>◌, return, require, git, mkdir, words, Workspace,
  worktrees, planned_workspace, local_branch_exists, remote_branch_exists,
  registered_worktree_paths, Completed,
}

pub data TaskMode : Type 0 where
  initial revision : TaskMode

-- The path exists, as the file system answers at this point.
abbrev pub path_exists : Machine → Text → Command Bool
path_exists m path h = (ok (m.exists h path), h)

unfoldable pub may_start : TaskMode → Bool → Bool → Bool → Bool → Bool
may_start initial local remote there registered = not (local || remote || there || registered)
may_start revision local remote there registered = remote && (not there || registered)

unfoldable pub validate_workspace : Machine → TaskMode → ℕ → Text → Text → Command Workspace
unfolding planned_workspace local_branch_exists remote_branch_exists registered_worktree_paths
    may_start list_beq
validate_workspace m mode issue_number repo_root parent = do
  let workspace = planned_workspace issue_number parent
  local ← local_branch_exists m workspace.branch repo_root
  remote ← remote_branch_exists m workspace.branch repo_root
  paths ← registered_worktree_paths m repo_root
  there ← path_exists m workspace.path
  require (may_start mode local remote there (contains paths (m.resolve workspace.path)))
      prerequisite
  return workspace

-- `git(args, cwd=workspace.path).stdout.strip()`
unfoldable pub git_text : Machine → List Text → Text → Command Text
unfolding strip
git_text m args cwd = do c ← git m args cwd; return (strip c.stdout)

unfoldable pub add_worktree : Machine → Workspace → Bool → Text → Command Completed
add_worktree m workspace has_local repo_root =
    if has_local
    then git m (words ("worktree" ∷ "add" ∷ []) ++ workspace.path ∷ workspace.branch ∷ []) repo_root
    else git m
        (words ("worktree" ∷ "add" ∷ "-b" ∷ [])
          ++ workspace.branch ∷ workspace.path ∷ (codes "origin/" ++ workspace.branch) ∷ [])
        repo_root

unfoldable pub add_missing_worktree : Machine → Workspace → Text → Text → Command (Unit {0})
unfolding local_branch_exists add_worktree
add_missing_worktree m workspace repo_root parent = do
  mkdir (worktrees parent)
  has_local ← local_branch_exists m workspace.branch repo_root
  add_worktree m workspace has_local repo_root
  return tt

-- The worktree of a revision, added if it is not registered.
unfoldable pub ensure_worktree : Machine → Workspace → Text → Text → Command (Unit {0})
unfolding registered_worktree_paths add_missing_worktree list_beq
ensure_worktree m workspace repo_root parent = do
  paths ← registered_worktree_paths m repo_root
  if contains paths (m.resolve workspace.path)
      then return tt
      else add_missing_worktree m workspace repo_root parent

-- The checks of a revision, in its worktree.
unfoldable pub check_worktree : Machine → Workspace → Command Workspace
unfolding git_text list_beq
check_worktree m workspace = do
  branch ← git_text m (words ("branch" ∷ "--show-current" ∷ [])) workspace.path
  require (branch == workspace.branch) prerequisite
  dirty ← git_text m (words ("status" ∷ "--porcelain" ∷ [])) workspace.path
  require (is_nil dirty) prerequisite
  git m (words ("merge" ∷ "--ff-only" ∷ []) ++ (codes "origin/" ++ workspace.branch) ∷ [])
      workspace.path
  local ← git_text m (words ("rev-parse" ∷ "HEAD" ∷ [])) workspace.path
  remote ←
      git_text m (words ("rev-parse" ∷ []) ++ (codes "origin/" ++ workspace.branch) ∷ [])
        workspace.path
  require (local == remote) prerequisite
  return workspace

-- The new branch of a first run, off `origin/main`.
unfoldable pub start_branch : Machine → Workspace → Text → Text → Command Workspace
start_branch m workspace repo_root parent = do
  mkdir (worktrees parent)
  git m
      (words ("worktree" ∷ "add" ∷ "-b" ∷ [])
        ++ workspace.branch ∷ workspace.path ∷ codes "origin/main" ∷ [])
      repo_root
  return workspace

unfoldable pub continue_branch : Machine → Workspace → Text → Text → Command Workspace
unfolding ensure_worktree check_worktree
continue_branch m workspace repo_root parent = do
  ensure_worktree m workspace repo_root parent
  check_worktree m workspace

unfoldable pub prepare_mode : TaskMode → Machine → Workspace → Text → Text → Command Workspace
unfolding start_branch continue_branch
prepare_mode initial m workspace repo_root parent = start_branch m workspace repo_root parent
prepare_mode revision m workspace repo_root parent = continue_branch m workspace repo_root parent

unfoldable pub prepare_workspace : Machine → TaskMode → ℕ → Text → Text → Command Workspace
unfolding validate_workspace prepare_mode
prepare_workspace m mode issue_number repo_root parent = do
  workspace ← validate_workspace m mode issue_number repo_root parent
  git m (words ("fetch" ∷ "origin" ∷ "--prune" ∷ [])) repo_root
  prepare_mode mode m workspace repo_root parent

-- `user.name`, `user.email` and the message of a commit.
unfoldable pub commit_args : Text → Text → ℕ → ℕ → List Text
unfolding str
commit_args name email number iteration =
    codes "-c"
    ∷ (codes "user.name=" ++ name)
    ∷ codes "-c"
    ∷ (codes "user.email=" ++ email)
    ∷ codes "commit"
    ∷ codes "-m"
    ∷ (codes "Issue #" ++ str number ++ codes ": iteration " ++ str iteration)
    ∷ []

unfoldable pub push_args : Workspace → List Text
push_args workspace =
    words ("push" ∷ "--set-upstream" ∷ "origin" ∷ [])
    ++ (codes "HEAD:refs/heads/" ++ workspace.branch) ∷ []

unfoldable pub commit_and_push : Machine → Workspace → Text → Text → ℕ → ℕ → Command (Unit {0})
unfolding git_text commit_args push_args list_beq
commit_and_push m workspace name email number iteration = do
  branch ← git_text m (words ("branch" ∷ "--show-current" ∷ [])) workspace.path
  require (branch == workspace.branch) prerequisite
  git m (words ("add" ∷ "--all" ∷ "--" ∷ "." ∷ [])) workspace.path
  staged ← git_text m (words ("diff" ∷ "--cached" ∷ "--name-only" ∷ [])) workspace.path
  require (not (is_nil staged)) codex
  git m (commit_args name email number iteration) workspace.path
  git m (push_args workspace) workspace.path
  return tt
