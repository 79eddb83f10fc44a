-- ===== src/Orchestration/Laws.antt =====
-- scripts/orchestration_v2/git_ops.py: which calls the operations on a workspace make, and what they checked.
use orbit_flow_evo.Base.{ℕ, ◌≡◌, Bool, true, false, ◌||◌, List, [], ◌∷◌, ◌++◌, ok, arith, any, all}
use orbit_flow_evo.Base.Equality.{list_eq, list_beq, nat_eq, ◌==◌}
use orbit_flow_evo.Base.Texts.{Text, codes, strip, is_nil}
use orbit_flow_evo.Orchestration.Git.{
  Call, git_call, Machine, words, Workspace, Completed, is_success,
}
use orbit_flow_evo.Orchestration.Workspaces.{
  TaskMode, initial, validate_workspace, commit_args, push_args, commit_and_push, check_worktree,
}

-- The calls of a commit and its push, in their order.
abbrev pub commit_script : Workspace → Text → Text → ℕ → ℕ → List Call
commit_script w name email number iteration =
    git_call (words ("branch" ∷ "--show-current" ∷ [])) w.path
    ∷ git_call (words ("add" ∷ "--all" ∷ "--" ∷ "." ∷ [])) w.path
    ∷ git_call (words ("diff" ∷ "--cached" ∷ "--name-only" ∷ [])) w.path
    ∷ git_call (commit_args name email number iteration) w.path
    ∷ git_call (push_args w) w.path
    ∷ []

-- A call that changes the repository or its remote, by its first words.
abbrev pub is_push : Call → Bool
is_push (git_call (verb ∷ _) _) = verb == codes "push"
is_push _ = false

-- What the worktree's branch is, and which paths are staged, when the script asks for them.
abbrev pub current_branch : Machine → Workspace → Text
current_branch m w = strip (m.answer [] (words ("branch" ∷ "--show-current" ∷ [])) w.path).stdout

abbrev pub staged_paths : Machine → Workspace → Text
staged_paths m w =
    strip
      (m.answer
        (git_call (words ("branch" ∷ "--show-current" ∷ [])) w.path
          ∷ git_call (words ("add" ∷ "--all" ∷ "--" ∷ "." ∷ [])) w.path
          ∷ [])
        (words ("diff" ∷ "--cached" ∷ "--name-only" ∷ [])) w.path).stdout

-- Where a commit is the first to call, a push is made only from the branch of the workspace, and only
-- where something is staged.
pub commit_and_push-checked :
    (m : Machine) (w : Workspace) (name email : Text) (number iteration : ℕ)
    → any is_push (commit_and_push m w name email number iteration []).1 ≡ true
    → (current_branch m w == w.branch) ≡ true × (is_nil (staged_paths m w) ≡ false)
unfolding commit_and_push list_beq
commit_and_push-checked m w name email number iteration h = ground arith

-- Where a commit that returns was the first to call, it has made the calls of its script, each once and in their order.
pub commit_and_push-script :
    (m : Machine) (w : Workspace) (name email : Text) (number iteration : ℕ)
    → (commit_and_push m w name email number iteration []).0 ≡ ok tt
    → (commit_and_push m w name email number iteration []).1
      ≡ commit_script w name email number iteration
unfolding commit_and_push
commit_and_push-script m w name email number iteration h = ground arith

-- A call that only asks.
abbrev pub is_query : Call → Bool
is_query (git_call (verb ∷ rest) _) =
    verb == codes "show-ref"
    || verb == codes "ls-remote"
    || ((verb ∷ rest) == words ("worktree" ∷ "list" ∷ "--porcelain" ∷ []))
is_query _ = false

-- Where the validation of a workspace is the first to call, it makes only calls that ask.
pub validate_workspace-is_query :
    (m : Machine) (mode : TaskMode) (issue_number : ℕ) (repo_root parent : Text)
    → all is_query (validate_workspace m mode issue_number repo_root parent []).1 ≡ true
unfolding validate_workspace list_beq
validate_workspace-is_query m mode issue_number repo_root parent = ground arith

abbrev pub show_ref : Workspace → List Text
show_ref w =
    words ("show-ref" ∷ "--verify" ∷ "--quiet" ∷ []) ++ (codes "refs/heads/" ++ w.branch) ∷ []

abbrev pub local_answer : Machine → Workspace → Text → Completed
local_answer m w repo_root = m.answer [] (show_ref w) repo_root

abbrev pub remote_answer : Machine → Workspace → Text → Completed
remote_answer m w repo_root =
    m.answer (git_call (show_ref w) repo_root ∷ [])
      (words ("ls-remote" ∷ "--exit-code" ∷ "--heads" ∷ "origin" ∷ []) ++ w.branch ∷ []) repo_root

abbrev pub dirty_paths : Machine → Workspace → Text
dirty_paths m w =
    strip
      (m.answer (git_call (words ("branch" ∷ "--show-current" ∷ [])) w.path ∷ [])
        (words ("status" ∷ "--porcelain" ∷ [])) w.path).stdout

-- Where a first run validates its workspace before any other call, and may start, the local branch does not
-- exist, git finds no remote one, and nothing stands at the path.
pub validate_workspace-fresh :
    (m : Machine) (issue_number : ℕ) (repo_root parent : Text) (w : Workspace)
    → (validate_workspace m initial issue_number repo_root parent []).0 ≡ ok w
    → (is_success (local_answer m w repo_root).status ≡ false)
      × (is_success (remote_answer m w repo_root).status ≡ false)
      × (m.exists (validate_workspace m initial issue_number repo_root parent []).1 w.path ≡ false)
unfolding validate_workspace list_beq
validate_workspace-fresh m issue_number repo_root parent w h = ground arith

-- A worktree that passes its checks before any other call is on the branch of the workspace, and clean.
pub check_worktree-clean :
    (m : Machine) (w w' : Workspace)
    → (check_worktree m w []).0 ≡ ok w'
    → ((current_branch m w == w.branch) ≡ true) × (is_nil (dirty_paths m w) ≡ true) × (w' ≡ w)
unfolding check_worktree list_beq
check_worktree-clean m w w' h = ground arith
