-- ===== src/Git/Client/Tests.antt =====
-- Runs of the client of git against answers that stay the same, and its theorems at them.
use sexton.Common.{ℕ, ◌≡◌, refl, none, some, List, [], ◌∷◌, ◌++◌, if◌then◌else◌, arith}
use sexton.Common.Result.{ok}
use sexton.Common.Space.{trim_space}
use sexton.Common.Text.{Text, codes, same, split}
use sexton.Git.Command.{Exit, Host, Shell, run_env, run, run_or, returned, command_env}
use sexton.Git.Client.{run_trimmed, is_dirty}
use sexton.Git.Client.Summary.{is_id, created_id, summary_line, created_id-summary}
use sexton.Git.Client.Commits.{
  commit, commit_only, create, create_if, resolve_created, verify, or_wrap, check_message,
  message_args, reword_commit,
}
use sexton.Git.Client.Safe.{Keeps, Rewords}
use sexton.Git.Client.Safe.Rewording.{reword_commit-Rewords}
use sexton.Git.Client.Safe.Verified.{IsVerified, commit-IsVerified}

-- A process that prints a text and succeeds.
abbrev prints : Text → Exit
prints text = record { stdout = text; stderr = []; run_error = none; context_error = none }

abbrev answer : List Text → Exit
answer [] = prints []
answer (word ∷ args) =
    if same word (codes "status")
    then prints (codes " M a")
    else if same word (codes "-c")
    then prints (codes "[main abcd] note" ++ 10 ∷ codes " 1 file changed")
    else if same word (codes "rev-parse")
    then prints (codes "abcdef01")
    else if same word (codes "show")
    then prints (codes "note")
    else prints []

abbrev host : Host ℕ
host = record {
  start_git = λ env args w. (answer args, w);
  environ = [];
  quote = λ t. t;
  parse_rfc3339 = λ t. ok 5;
}

abbrev shell : Shell ℕ
shell = record { world = 7; commands = [] }

abbrev dirty_args : List Text
dirty_args = codes "status" ∷ codes "--porcelain" ∷ []

abbrev resolve_args : List Text
resolve_args = codes "rev-parse" ∷ codes "--verify" ∷ codes "abcd^{commit}" ∷ []

abbrev all_args : List Text
all_args = codes "-c" ∷ codes "color.ui=false" ∷ codes "commit" ∷ codes "-m" ∷ codes "note" ∷ []

abbrev behind : List Text → Shell ℕ
behind commit_command = record {
  world = 7;
  commands = message_args (codes "abcdef01") ∷ resolve_args ∷ commit_command ∷ dirty_args ∷ [];
}

commit_run : commit host [] (codes "note") shell ≡ (ok (codes "abcdef01"), behind all_args)
unfolding commit is_dirty run_trimmed run_or run run_env returned command_env create_if create
    resolve_created verify or_wrap check_message trim_space created_id is_id split same
commit_run = refl

abbrev doc_args : List Text
doc_args =
    codes "-c"
    ∷ codes "color.ui=false"
    ∷ codes "commit"
    ∷ codes "-m"
    ∷ codes "note"
    ∷ codes "--"
    ∷ codes ":(literal)doc/"
    ∷ []

commit_only_run :
    commit_only host [] (codes "note") (codes "doc/" ∷ []) shell
    ≡ (ok (codes "abcdef01"), behind doc_args)
unfolding commit_only is_dirty run_trimmed run_or run run_env returned command_env create_if create
    resolve_created verify or_wrap check_message trim_space created_id is_id split same
commit_only_run = refl

commit-IsVerified_example : IsVerified host [] (codes "note") (codes "abcdef01") (behind all_args)
commit-IsVerified_example =
    commit-IsVerified host [] (codes "note") (codes "abcdef01") shell (behind all_args) commit_run

-- On a branch whose name holds a "]", no id is found.
bracket_run :
    created_id (summary_line (codes "a]b (root-commit)") (codes "a0f17aa") (codes "note")) ≡ none
unfolding created_id is_id split
bracket_run = refl

reword_commit-Rewords_example :
    Keeps host []
      (Rewords (codes "main") (codes "abcd"))
      {A = Unit {0}}
      (reword_commit host [] (codes "main") (codes "abcd") (codes "note"))
reword_commit-Rewords_example =
    reword_commit-Rewords host [] (codes "main") (codes "abcd") (codes "note")

created_id-summary_example :
    (created_id (summary_line (codes "main") (codes "abcd") (codes " note") ++ 10 ∷ codes " 1 file")
      ≡ some (codes "abcd"))
    × (created_id (
          codes "hook"
          ++ 10
            ∷ (summary_line (codes "main") (codes "abcd") (codes " note") ++ 10 ∷ codes " 1 file"))
        ≡ some (codes "abcd"))
unfolding created_id is_id split
created_id-summary_example =
    created_id-summary (codes "hook") (codes "main") (codes "abcd") (codes " note")
      (codes " 1 file") (omega arith) (omega arith) refl (omega arith) refl
