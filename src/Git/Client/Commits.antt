-- ===== src/Git/Client/Commits.antt =====
-- The operations of internal/git/git.go that make commits: `commit`, `Commit`, `CommitOnly` and
-- `RewordCommit`.
use sexton.Common.{Bool, Option, none, some, List, [], ◌∷◌, ◌++◌, is_empty, if◌then◌else◌}
use sexton.Common.Result.{Result, ok, err}
use sexton.Common.Space.{trim_space}
use sexton.Common.Text.{Text, codes, same}
use sexton.Git.Errors.{Fault, fault_of, wrap, err_nothing_to_commit}
use sexton.Git.Command.{Failure, Host, G, return, throw, ◌>>=◌, try, run, run_env, run_or}
use sexton.Git.Client.{literal_pathspecs, empty_regions, is_dirty}
use sexton.Git.Client.Metadata.{CommitMetadata, read_commit_metadata}
use sexton.Git.Client.Summary.{created_id}

-- `fmt.Errorf("…: %w: %s", err, strings.TrimSpace(out))`.
abbrev around : Text → Failure → Fault
around text x = record x.fault {
  text = text ++ (codes ": " ++ (x.fault.text ++ (codes ": " ++ trim_space x.output)));
}

abbrev pub commit_args : Text → List Text → List Text
commit_args message pathspecs =
    codes "-c"
    ∷ codes "color.ui=false"
    ∷ codes "commit"
    ∷ codes "-m"
    ∷ message
    ∷ (if is_empty pathspecs then [] else codes "--" ∷ pathspecs)

abbrev pub message_args : Text → List Text
message_args sha = codes "show" ∷ codes "-s" ∷ codes "--format=%B" ∷ sha ∷ []

abbrev parent_args : List Text → List Text
parent_args [] = []
parent_args (p ∷ ps) = codes "-p" ∷ p ∷ parent_args ps

abbrev pub tree_args : CommitMetadata → Text → List Text
tree_args m message =
    codes "commit-tree" ∷ m.tree ∷ (parent_args m.parents ++ (codes "-m" ∷ message ∷ []))

abbrev pub author_env : CommitMetadata → List Text
author_env m =
    (codes "GIT_AUTHOR_NAME=" ++ m.author_name)
    ∷ (codes "GIT_AUTHOR_EMAIL=" ++ m.author_email)
    ∷ (codes "GIT_AUTHOR_DATE=" ++ m.author_date)
    ∷ []

-- The replacement happens only if the branch still stands at the old commit.
abbrev pub update_args : Text → Text → Text → List Text
update_args name new_sha old_sha =
    codes "update-ref" ∷ (codes "refs/heads/" ++ name) ∷ new_sha ∷ old_sha ∷ []

module _ {W : Type 0} (host : Host W) (ssh : Text) where
  -- A result whose error is put behind a text.
  unfoldable pub or_wrap : {A : Type 0} → Text → Result Fault A → G W A
  or_wrap text (ok a) = return a
  or_wrap text (err f) = throw (wrap text f)

  unfoldable pub or_around : Text → Result Failure Text → G W Text
  or_around text (ok out) = return out
  or_around text (err x) = throw (around text x)

  -- The check of the message that the created commit has.
  unfoldable pub check_message : Text → Text → Text → G W Text
  check_message message sha shown =
      if same (trim_space shown) (trim_space message)
      then return sha
      else throw (
          fault_of
            (codes "created commit " ++ (host.quote sha ++ codes " has an unexpected message")))

  unfoldable pub verify : Text → Text → G W Text
  verify message sha = do
    r ← try (run_or host ssh (message_args sha))
    shown ← or_wrap (codes "verify created commit " ++ (host.quote sha ++ codes ": ")) r
    check_message message sha shown

  -- What follows the commit, given the id that its summary shows.
  unfoldable pub resolve_created : Text → Option Text → G W Text
  resolve_created message none =
      throw (fault_of (codes "git commit succeeded without reporting the created object id"))
  resolve_created message (some id) = do
    r ←
        try
          (run_or host ssh (codes "rev-parse" ∷ codes "--verify" ∷ (id ++ codes "^{commit}") ∷ []))
    full ← or_wrap (codes "resolve created commit " ++ (host.quote id ++ codes ": ")) r
    verify message (trim_space full)

  -- `commit`.
  unfoldable pub create : Text → List Text → G W Text
  create message pathspecs = do
    out ← run_or host ssh (commit_args message pathspecs)
    resolve_created message (created_id out)

  unfoldable pub create_if : Text → List Text → Bool → G W Text
  create_if message pathspecs dirty =
      if dirty then create message pathspecs else throw err_nothing_to_commit

  -- `Commit`.
  unfoldable pub commit : Text → G W Text
  commit message = do dirty ← is_dirty host ssh; create_if message [] dirty

  -- `CommitOnly`.
  unfoldable pub commit_only : Text → List Text → G W Text
  commit_only message regions =
      if is_empty regions
      then throw empty_regions
      else (do dirty ← is_dirty host ssh; create_if message (literal_pathspecs regions) dirty)

  unfoldable pub replaced : Text → Result Failure Text → G W (Unit {0})
  replaced name (ok out) = return tt
  replaced name (err x) = throw (around (codes "replace commit on " ++ host.quote name) x)

  -- `RewordCommit` behind the replacement commit.
  unfoldable pub replace : Text → Text → Text → G W (Unit {0})
  replace name old_sha new_sha =
      if is_empty new_sha
      then throw (fault_of (codes "build replacement commit returned an empty object id"))
      else (do r ← run host ssh (update_args name new_sha old_sha); replaced name r)

  -- `RewordCommit`.
  unfoldable pub reword_commit : (name old_sha message : Text) → G W (Unit {0})
  reword_commit name old_sha message = do
    m ← read_commit_metadata host ssh old_sha
    r ← run_env host ssh (author_env m) (tree_args m message)
    out ← or_around (codes "build replacement commit") r
    replace name old_sha (trim_space out)
