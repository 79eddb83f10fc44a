-- ===== src/Tests/Orchestration.antt =====
-- Tests of the models of scripts/orchestration_v2/.
use orbit_flow_evo.Base.{
  ◌≡◌, refl, true, false, not, ◌&&◌, ◌||◌, List, [], ◌∷◌, any, keep, arith, String, ok, err,
  if◌then◌else◌,
}
use orbit_flow_evo.Base.Equality.{◌==◌, string_eq, nat_eq, list_eq, list_beq, contains}
use orbit_flow_evo.Base.Texts.{Text, codes, is_nil}
use orbit_flow_evo.Orchestration.Git.{
  Call, success, no_match, Completed, Machine, Workspace, prerequisite,
}
use orbit_flow_evo.Orchestration.Workspaces.{
  initial, revision, validate_workspace, commit_and_push, check_worktree,
}
use orbit_flow_evo.Orchestration.Laws.{
  is_push, current_branch, staged_paths, commit_and_push-checked,
}
use orbit_flow_evo.Orchestration.Labels.{Edit, contains-keep}

abbrev workspace : Workspace
workspace = record {
  branch = codes "codex/issue-7";
  path = codes "/work/OrbitFlow-Evo-worktrees/issue-7";
}

abbrev prints : Text → Completed
prints s = record { status = success; stdout = s }

-- A machine on the branch of the workspace, with one changed path, and no branch of that name to be found
-- by the first questions.
abbrev changed : List Call → List Text → Text → Completed
changed h (verb ∷ _) cwd =
    if verb == codes "branch"
    then prints (codes "codex/issue-7\n")
    else if verb == codes "diff"
    then prints (codes "README.md\n")
    else if verb == codes "show-ref" || verb == codes "ls-remote"
    then record { status = no_match; stdout = [] }
    else prints []
changed h [] cwd = prints []

abbrev machine : Machine
machine = record { answer = changed; exists = λ h path. false; resolve = λ path. path }

committed :
    (commit_and_push machine workspace (codes "Bot") (codes "bot@example.org") 7 2 []).0 ≡ ok tt
unfolding commit_and_push list_beq
committed = refl

pushed :
    any is_push (commit_and_push machine workspace (codes "Bot") (codes "bot@example.org") 7 2 []).1
    ≡ true
unfolding commit_and_push list_beq
pushed = refl

commit_and_push-checked_example :
    ((current_branch machine workspace == codes "codex/issue-7") ≡ true)
    × (is_nil (staged_paths machine workspace) ≡ false)
commit_and_push-checked_example =
    commit_and_push-checked machine workspace (codes "Bot") (codes "bot@example.org") 7 2 pushed

may_start :
    (validate_workspace machine initial 7 (codes "/work/repo") (codes "/work") []).0 ≡ ok workspace
unfolding validate_workspace list_beq
may_start = refl

-- A revision needs the remote branch.
no_remote :
    (validate_workspace machine revision 7 (codes "/work/repo") (codes "/work") []).0
    ≡ err prerequisite
unfolding validate_workspace list_beq
no_remote = refl

checked : (check_worktree machine workspace []).0 ≡ ok workspace
unfolding check_worktree list_beq
checked = refl

-- An edit that does what it is told to.
abbrev apply_edit : List String → Edit → List String
apply_edit present e = e.add ∷ keep (λ l. not (contains e.remove l)) present

apply_edit-contains :
    (present : List String) (e : Edit) (label : String)
    → contains (apply_edit present e) label
      ≡ (label == e.add || (contains present label && not (contains e.remove label)))
apply_edit-contains present e label = ground (
  arith,
  contains-keep (λ l. not (contains e.remove l)) present label,
  string_eq.beq_iff label e.add,
  string_eq.beq_iff e.add label,
)
