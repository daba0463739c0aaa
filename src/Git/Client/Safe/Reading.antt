-- ===== src/Git/Client/Safe/Reading.antt =====
-- The operations of internal/git/git.go that ask something of a repository.
use sexton.Common.{Bool, not, List, [], is_empty, if◌then◌else◌}
use sexton.Common.Duration.{Time}
use sexton.Common.Result.{Result, ok, err}
use sexton.Common.Text.{Text, split}
use sexton.Git.Status.{Status}
use sexton.Git.Status.Parse.{parse_status}
use sexton.Git.Status.NameStatus.{NameStatusError, missing_pair, missing_path, parse_name_status}
use sexton.Git.Command.{Host}
use sexton.Git.Client.{
  head, status, is_dirty, is_dirty_tracked, short_head, branch, show, show_stat, show_name_status,
  name_status_result, unmerged, commit_time,
}
use sexton.Git.Client.Safe.{
  Keeps, Reads, reads_status, reads_names, reads_diff, reads_commit, reads_log, return-Keeps,
  throw-Keeps, bind-Keeps, or_throw-Keeps, run_or-Keeps, run_trimmed-Keeps,
}

module _ {W : Type 0} (host : Host W) (ssh : Text) (P : List Text → Type 0)
    (reads : (args : List Text) → Reads args → P args) where
  name_status_result-Keeps :
      (r : Result NameStatusError Status)
      → Keeps host ssh P {A = Status} (name_status_result host ssh r)
  unfolding name_status_result
  name_status_result-Keeps (ok s) = return-Keeps host ssh P s
  name_status_result-Keeps (err (missing_pair code)) = throw-Keeps host ssh P _
  name_status_result-Keeps (err (missing_path code)) = throw-Keeps host ssh P _

  pub dirty-Keeps :
      (Keeps host ssh P {A = Bool} (is_dirty host ssh))
      × (Keeps host ssh P {A = Bool} (is_dirty_tracked host ssh))
  unfolding is_dirty is_dirty_tracked
  dirty-Keeps = (
    bind-Keeps host ssh P (run_trimmed-Keeps host ssh P _ (reads _ (reads_status _)))
        λ out. return-Keeps host ssh P (not (is_empty out)),
    bind-Keeps host ssh P (run_trimmed-Keeps host ssh P _ (reads _ (reads_status _)))
        λ out. return-Keeps host ssh P (not (is_empty out)),
  )

  pub status-Keeps : Keeps host ssh P {A = Status} (status host ssh)
  unfolding status
  status-Keeps =
      bind-Keeps host ssh P (run_or-Keeps host ssh P _ (reads _ (reads_status _)))
        λ out. return-Keeps host ssh P (parse_status host.quote out)

  pub show_name_status-Keeps :
      (sha : Text) → Keeps host ssh P {A = Status} (show_name_status host ssh sha)
  unfolding show_name_status
  show_name_status-Keeps sha =
      bind-Keeps host ssh P (run_or-Keeps host ssh P _ (reads _ (reads_commit _)))
        λ out. name_status_result-Keeps (parse_name_status host.quote out)

  pub unmerged-Keeps : Keeps host ssh P {A = List Text} (unmerged host ssh)
  unfolding unmerged
  unmerged-Keeps =
      bind-Keeps host ssh P (run_trimmed-Keeps host ssh P _ (reads _ (reads_diff _)))
        λ out. return-Keeps host ssh P (if is_empty out then [] else split 10 out)

  pub commit_time-Keeps : Keeps host ssh P {A = Time} (commit_time host ssh)
  unfolding commit_time
  commit_time-Keeps =
      bind-Keeps host ssh P (run_trimmed-Keeps host ssh P _ (reads _ (reads_log _)))
        λ out. or_throw-Keeps host ssh P (host.parse_rfc3339 out)

  pub names-Keeps :
      (sha : Text)
      → Keeps host ssh P {A = Text} (branch host ssh)
        × Keeps host ssh P {A = Text} (short_head host ssh)
        × Keeps host ssh P {A = Text} (show host ssh sha)
        × Keeps host ssh P {A = Text} (show_stat host ssh sha)
        × Keeps host ssh P {A = Text} (head host ssh)
  unfolding branch short_head show show_stat head
  names-Keeps sha = (
    run_trimmed-Keeps host ssh P _ (reads _ (reads_names _)),
    run_trimmed-Keeps host ssh P _ (reads _ (reads_names _)),
    run_or-Keeps host ssh P _ (reads _ (reads_commit _)),
    run_or-Keeps host ssh P _ (reads _ (reads_commit _)),
    run_trimmed-Keeps host ssh P _ (reads _ (reads_names _)),
  )
