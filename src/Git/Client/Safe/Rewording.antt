-- ===== src/Git/Client/Safe/Rewording.antt =====
-- `RewordCommit` of internal/git/git.go moves no branch but its own, and that one only from the commit
-- that it replaces.
use sexton.Common.{[], ◌∷◌}
use sexton.Common.Result.{Result, ok, err}
use sexton.Common.Space.{trim_space}
use sexton.Common.Text.{Text, codes, split}
use sexton.Git.Command.{Host, Failure, G}
use sexton.Git.Client.Metadata.{CommitMetadata, read_commit_metadata, metadata_of}
use sexton.Git.Client.Commits.{or_around, replaced, replace, reword_commit, author_env}
use sexton.Git.Client.Safe.{
  Keeps, Rewords, rewords_reads, rewords_builds, rewords_moves, return-Keeps, throw-Keeps,
  bind-Keeps, run_env-Keeps, run-Keeps, run_or-Keeps, or_throw-Keeps, reads_commit,
}

module _ {W : Type 0} (host : Host W) (ssh name old_sha : Text) where
  abbrev Rewording : {A : Type 0} → G W A → Type 0
  Rewording {A = A} m = Keeps host ssh (Rewords name old_sha) {A = A} m

  read_commit_metadata-Rewording :
      Rewording {A = CommitMetadata} (read_commit_metadata host ssh old_sha)
  unfolding read_commit_metadata
  read_commit_metadata-Rewording =
      bind-Keeps host ssh (Rewords name old_sha)
        (run_or-Keeps host ssh (Rewords name old_sha) _ (rewords_reads _ (reads_commit _)))
        λ out.
          or_throw-Keeps host ssh (Rewords name old_sha)
            (metadata_of host.quote old_sha (split 0 out))

  or_around-Rewording :
      (text : Text) (r : Result Failure Text) → Rewording {A = Text} (or_around host ssh text r)
  unfolding or_around
  or_around-Rewording text (ok out) = return-Keeps host ssh (Rewords name old_sha) out
  or_around-Rewording text (err x) = throw-Keeps host ssh (Rewords name old_sha) _

  replaced-Rewording :
      (r : Result Failure Text) → Rewording {A = Unit {0}} (replaced host ssh name r)
  unfolding replaced
  replaced-Rewording (ok out) = return-Keeps host ssh (Rewords name old_sha) tt
  replaced-Rewording (err x) = throw-Keeps host ssh (Rewords name old_sha) _

  replace-Rewording :
      (new_sha : Text) → Rewording {A = Unit {0}} (replace host ssh name old_sha new_sha)
  unfolding replace
  replace-Rewording [] = throw-Keeps host ssh (Rewords name old_sha) _
  replace-Rewording (c ∷ sha) =
      bind-Keeps host ssh (Rewords name old_sha)
        (run-Keeps host ssh (Rewords name old_sha) _ (rewords_moves c sha)) replaced-Rewording

  -- The commands of a reword read, build a commit, or move the branch that was named to a commit with
  -- an id, under the condition, which git checks, that the branch still stands at the old commit.
  pub reword_commit-Rewords :
      (message : Text)
      → Keeps host ssh
          (Rewords name old_sha)
          {A = Unit {0}}
          (reword_commit host ssh name old_sha message)
  unfolding reword_commit
  reword_commit-Rewords message =
      bind-Keeps host ssh (Rewords name old_sha) read_commit_metadata-Rewording λ m.
        bind-Keeps host ssh (Rewords name old_sha)
          (run_env-Keeps host ssh (Rewords name old_sha) (author_env m) _ (rewords_builds _))
          λ r.
            bind-Keeps host ssh (Rewords name old_sha)
              (or_around-Rewording (codes "build replacement commit") r)
              λ out. replace-Rewording (trim_space out)
