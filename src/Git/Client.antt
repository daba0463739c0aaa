-- ===== src/Git/Client.antt =====
-- The operations of internal/git/git.go: the commands that each runs, in order, and what each makes
-- of their outputs. `message` is what a caller of the package reads.
pub mod Summary
pub mod Commits
pub mod Metadata
pub mod Safe
mod Tests
use sexton.Common.{
  Bool, true, false, ◌||◌, ◌&&◌, not, List, [], ◌∷◌, ◌++◌, is_empty, if◌then◌else◌, map,
}
use sexton.Common.Duration.{Time}
use sexton.Common.Result.{Result, ok, err}
use sexton.Common.Space.{trim_space, to_lower, contains}
use sexton.Common.Text.{Text, codes, same, split}
use sexton.Git.Errors.{
  Fault, fault_of, err_conflict, err_dirty_working_tree, err_no_remote, err_pull_failed,
  err_push_failed,
}
use sexton.Git.Status.{Status}
use sexton.Git.Status.Parse.{parse_status}
use sexton.Git.Status.NameStatus.{NameStatusError, missing_pair, missing_path, parse_name_status}
use sexton.Git.Command.{
  Failure, Host, Shell, G, return, throw, ◌>>=◌, ◌>>◌, try, or_throw, run, run_or,
}

-- `isConflictOutput`, `isNoRemoteOutput` and `isAlreadyUpToDateOutput`.
unfoldable pub is_conflict_output : Text → Bool
is_conflict_output out = contains out (codes "conflict") || contains out (codes "CONFLICT")

unfoldable pub is_no_remote_output : Text → Bool
is_no_remote_output out =
    let lower = to_lower out in
    contains lower (codes "no remote")
    || contains lower (codes "no configured push destination")
    || contains lower (codes "no such remote")
    || contains lower (codes "does not appear to be a git repository")

unfoldable pub is_already_up_to_date_output : Text → Bool
is_already_up_to_date_output out =
    let lower = to_lower out in
    contains lower (codes "already up to date")
    || contains lower (codes "current branch") && contains lower (codes "is up to date")

-- `fmt.Errorf("%w: %s", err, strings.TrimSpace(out))`.
abbrev with_output : Fault → Text → Fault
with_output f out = record f { text = f.text ++ (codes ": " ++ trim_space out) }

-- The error of a pull or of a push whose command failed.
unfoldable pub pull_fault : Text → Fault
pull_fault out =
    if is_conflict_output out
    then err_conflict
    else if is_no_remote_output out
    then err_no_remote
    else with_output err_pull_failed out

unfoldable pub push_fault : Text → Fault
push_fault out = if is_no_remote_output out then err_no_remote else with_output err_push_failed out

-- `literalPathspecs`.
abbrev pub literal_pathspecs : List Text → List Text
literal_pathspecs regions = map (λ region. codes ":(literal)" ++ region) regions

abbrev pub empty_regions : Fault
empty_regions = fault_of (codes "commit regions must not be empty")

module _ {W : Type 0} (host : Host W) (ssh : Text) where
  -- The output of a command without the white space around it.
  unfoldable pub run_trimmed : List Text → G W Text
  run_trimmed args = do out ← run_or host ssh args; return (trim_space out)

  abbrev done : Text → G W (Unit {0})
  done out = return tt

  -- `IsRepo`.
  unfoldable pub is_repo : G W Bool
  is_repo = do
    r ← run host ssh (codes "rev-parse" ∷ codes "--git-dir" ∷ [])
    elim r [ ok out ↦ return true | err f ↦ return false ]

  -- `Status`.
  unfoldable pub status : G W Status
  status = do
    out ←
        run_or host ssh
          (codes "status" ∷ codes "--porcelain=v1" ∷ codes "-z" ∷ codes "-b" ∷ codes "-uall" ∷ [])
    return (parse_status host.quote out)

  -- `StageAll` and `StageRegions`.
  unfoldable pub stage_all : G W (Unit {0})
  stage_all = do out ← run_or host ssh (codes "add" ∷ codes "-A" ∷ []); done out

  unfoldable pub stage_regions : List Text → G W (Unit {0})
  stage_regions regions = if is_empty regions then throw empty_regions else (do
    out ← run_or host ssh (codes "add" ∷ codes "-A" ∷ codes "--" ∷ literal_pathspecs regions)
    done out)

  -- `IsDirty` and `IsDirtyTracked`.
  unfoldable pub is_dirty : G W Bool
  is_dirty = do
    out ← run_trimmed (codes "status" ∷ codes "--porcelain" ∷ [])
    return (not (is_empty out))

  unfoldable pub is_dirty_tracked : G W Bool
  is_dirty_tracked = do
    out ← run_trimmed (codes "status" ∷ codes "--porcelain" ∷ codes "-uno" ∷ [])
    return (not (is_empty out))

  -- `head`, `ShortHEAD` and `Branch`.
  unfoldable pub head : G W Text
  head = run_trimmed (codes "rev-parse" ∷ codes "HEAD" ∷ [])

  unfoldable pub short_head : G W Text
  short_head = run_trimmed (codes "rev-parse" ∷ codes "--short" ∷ codes "HEAD" ∷ [])

  unfoldable pub branch : G W Text
  branch = run_trimmed (codes "rev-parse" ∷ codes "--abbrev-ref" ∷ codes "HEAD" ∷ [])

  -- What a pull says of the head that it started from, which may be unknown.
  unfoldable pub pulled_from : Result Fault Text → Text → G W Bool
  pulled_from (ok before) out = do after ← head; return (not (same before after))
  pulled_from (err f) out = return (not (is_already_up_to_date_output out))

  unfoldable pub pull_result : Result Fault Text → Result Failure Text → G W Bool
  pull_result before (ok out) = pulled_from before out
  pull_result before (err x) = throw (pull_fault x.output)

  -- `Pull`.
  unfoldable pub pull : Text → Text → G W Bool
  pull remote name = do
    dirty ← is_dirty_tracked
    if dirty then throw err_dirty_working_tree else (do
      before ← try head
      r ← run host ssh (codes "pull" ∷ codes "--rebase" ∷ remote ∷ name ∷ [])
      pull_result before r)

  unfoldable pub push_result : Result Failure Text → G W (Unit {0})
  push_result (ok out) = return tt
  push_result (err x) = throw (push_fault x.output)

  -- `Push`.
  unfoldable pub push : Text → Text → G W (Unit {0})
  push remote name = do
    r ← run host ssh (codes "push" ∷ remote ∷ (codes "HEAD:" ++ name) ∷ [])
    push_result r

  -- `RebaseAbort`.
  unfoldable pub rebase_abort : G W (Unit {0})
  rebase_abort = do out ← run_or host ssh (codes "rebase" ∷ codes "--abort" ∷ []); done out

  -- `Diff`, `DiffStaged` and `DiffStat`.
  unfoldable pub diff : G W Text
  diff = run_or host ssh (codes "diff" ∷ codes "HEAD" ∷ [])

  unfoldable pub diff_staged : G W Text
  diff_staged = run_or host ssh (codes "diff" ∷ codes "--staged" ∷ codes "HEAD" ∷ [])

  unfoldable pub diff_stat : G W Text
  diff_stat = run_or host ssh (codes "diff" ∷ codes "--stat" ∷ codes "HEAD" ∷ [])

  -- The arguments of the three operations that show a commit.
  abbrev show_args : List Text → Text → List Text
  show_args format sha =
      codes "show" ∷ codes "--format=" ∷ codes "--diff-merges=first-parent" ∷ (format ++ sha ∷ [])

  -- `Show`, `ShowStat` and `ShowNameStatus`.
  unfoldable pub show : Text → G W Text
  show sha = run_or host ssh (show_args (codes "--patch" ∷ []) sha)

  unfoldable pub show_stat : Text → G W Text
  show_stat sha = run_or host ssh (show_args (codes "--stat" ∷ []) sha)

  unfoldable pub name_status_result : Result NameStatusError Status → G W Status
  name_status_result (ok s) = return s
  name_status_result (err (missing_pair code)) = throw (
      fault_of (
        codes "name-status entry "
        ++ (host.quote code ++ codes " is missing rename or copy paths")))
  name_status_result (err (missing_path code)) =
      throw
        (fault_of (codes "name-status entry " ++ (host.quote code ++ codes " is missing a path")))

  unfoldable pub show_name_status : Text → G W Status
  show_name_status sha = do
    out ← run_or host ssh (show_args (codes "--name-status" ∷ codes "-z" ∷ []) sha)
    name_status_result (parse_name_status host.quote out)

  -- `Unmerged`.
  unfoldable pub unmerged : G W (List Text)
  unmerged = do
    out ← run_trimmed (codes "diff" ∷ codes "--name-only" ∷ codes "--diff-filter=U" ∷ [])
    return (if is_empty out then [] else split 10 out)

  -- `CommitTime`.
  unfoldable pub commit_time : G W Time
  commit_time = do
    out ← run_trimmed (codes "log" ∷ codes "-1" ∷ codes "--format=%aI" ∷ [])
    or_throw (host.parse_rfc3339 out)
