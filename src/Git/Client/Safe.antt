-- ===== src/Git/Client/Safe.antt =====
-- Which commands the operations of internal/git/git.go run, and what a created commit is checked for.
pub mod Reading
pub mod Rewording
pub mod Verified
use sexton.Common.{◌≡◌, refl, Bool, true, false, List, [], ◌∷◌, ◌++◌, All, is_empty, if◌then◌else◌}
use sexton.Common.Result.{Result, ok, err}
use sexton.Common.Space.{trim_space}
use sexton.Common.Text.{Text, codes, split}
use sexton.Git.Errors.{Fault, err_dirty_working_tree}
use sexton.Git.Status.NameStatus.{NameStatusError, missing_pair, missing_path, parse_name_status}
use sexton.Git.Status.{Status}
use sexton.Git.Command.{
  Failure, Host, Shell, G, return, throw, ◌>>=◌, try, or_throw, or_fault, run, run_env, run_or,
  command_env, returned,
}
use sexton.Git.Client.{
  run_trimmed, is_repo, status, is_dirty, is_dirty_tracked, head, short_head, branch, show,
  show_stat, show_name_status, name_status_result, unmerged, commit_time, diff, diff_staged,
  diff_stat, pull,
}
use sexton.Git.Client.Metadata.{CommitMetadata, read_commit_metadata, metadata_args, metadata_of}
use sexton.Git.Client.Commits.{
  or_around, replaced, replace, reword_commit, tree_args, author_env, update_args,
}

-- The commands that change neither the repository nor its remotes.
pub data Reads : List Text → Type 0 where
  reads_status : (options : List Text) → Reads (codes "status" ∷ options)
  reads_names : (options : List Text) → Reads (codes "rev-parse" ∷ options)
  reads_diff : (options : List Text) → Reads (codes "diff" ∷ options)
  reads_commit : (options : List Text) → Reads (codes "show" ∷ options)
  reads_log : (options : List Text) → Reads (codes "log" ∷ options)

-- What a reword of a branch may run: besides reading, it builds a commit, and it moves that branch
-- to a commit, provided that the branch still stands at the old one.
pub data Rewords (name old_sha : Text) : List Text → Type 0 where
  rewords_reads : (args : List Text) → Reads args → Rewords name old_sha args
  rewords_builds : (options : List Text) → Rewords name old_sha (codes "commit-tree" ∷ options)
  rewords_moves :
      (c : _) (sha : Text)
      → Rewords name old_sha
          (codes "update-ref" ∷ (codes "refs/heads/" ++ name) ∷ (c ∷ sha) ∷ old_sha ∷ [])

-- What a bind does behind its first part.
abbrev pub proceed :
    {W A B : Type 0} → Result Fault A × Shell W → (A → G W B) → Result Fault B × Shell W
proceed r k = elim r.0 [ err e ↦ (err e, r.1) | ok a ↦ k a r.1 ]

module _ {W : Type 0} (host : Host W) (ssh : Text) (P : List Text → Type 0) where
  -- An operation that runs only such commands.
  pub record Keeps {A : Type 0} (m : G W A) : Type 0 where
    pub at : (s : Shell W) → All P s.commands → All P (m s).1.commands

  pub return-Keeps : {A : Type 0} (a : A) → Keeps {A = A} (return a)
  return-Keeps a = record { at = λ s p. p }

  pub throw-Keeps : {A : Type 0} (f : Fault) → Keeps {A = A} (throw f)
  throw-Keeps f = record { at = λ s p. p }

  bind_from :
      {A B : Type 0} (r : Result Fault A × Shell W) (k : A → G W B)
      → ((a : A) → Keeps {A = B} (k a))
      → All P r.1.commands
      → All P (proceed r k).1.commands
  bind_from (ok a, s) k h p = (h a).at s p
  bind_from (err e, s) k h p = p

  pub bind-Keeps :
      {A B : Type 0} {m : G W A} {k : A → G W B}
      → Keeps {A = A} m
      → ((a : A) → Keeps {A = B} (k a))
      → Keeps {A = B} (m >>= k)
  bind-Keeps {m = m} {k = k} h hk = record { at = λ s p. bind_from (m s) k hk (h.at s p) }

  pub try-Keeps : {A : Type 0} {m : G W A} → Keeps {A = A} m → Keeps {A = Result Fault A} (try m)
  try-Keeps h = record { at = λ s p. h.at s p }

  pub or_throw-Keeps : {A : Type 0} (r : Result Fault A) → Keeps {A = A} (or_throw r)
  or_throw-Keeps (ok a) = return-Keeps a
  or_throw-Keeps (err f) = throw-Keeps f

  pub run_env-Keeps :
      (extra args : List Text)
      → P args
      → Keeps {A = Result Failure Text} (run_env host ssh extra args)
  unfolding run_env
  run_env-Keeps extra args h = record { at = λ s p. (h, p) }

  pub run-Keeps : (args : List Text) → P args → Keeps {A = Result Failure Text} (run host ssh args)
  unfolding run
  run-Keeps args h = run_env-Keeps [] args h

  pub or_fault-Keeps : (r : Result Failure Text) → Keeps {A = Text} (or_fault host ssh r)
  or_fault-Keeps (ok out) = return-Keeps out
  or_fault-Keeps (err x) = throw-Keeps x.fault

  pub run_or-Keeps : (args : List Text) → P args → Keeps {A = Text} (run_or host ssh args)
  unfolding run_or
  run_or-Keeps args h = bind-Keeps (run-Keeps args h) or_fault-Keeps

  pub run_trimmed-Keeps : (args : List Text) → P args → Keeps {A = Text} (run_trimmed host ssh args)
  unfolding run_trimmed
  run_trimmed-Keeps args h = bind-Keeps (run_or-Keeps args h) λ out. return-Keeps (trim_space out)
