-- ===== src/Git/Errors.antt =====
-- internal/git/errors.go, and Go's errors as far as the program asks: a text, and what `errors.Is`
-- says of it.
use sexton.Common.{Bool, true, false, ◌++◌}
use sexton.Common.Text.{Text, codes}

-- The errors that are asked for: `context.Canceled`, and the variables of errors.go.
pub data Cause : Type 0 where
  canceled not_a_repo nothing_to_commit conflict no_remote dirty_working_tree push_failed
        pull_failed :
      Cause

pub record Fault : Type 0 where
  pub text : Text
  pub is : Cause → Bool

-- An error of no known cause, as `fmt.Errorf` without a `%w` makes one.
abbrev pub fault_of : Text → Fault
fault_of text = record { text = text; is = λ _. false }

-- `fmt.Errorf("…: %w", err)`.
abbrev pub wrap : Text → Fault → Fault
wrap text f = record f { text = text ++ f.text }

abbrev is_conflict : Cause → Bool
is_conflict conflict = true
is_conflict _ = false

abbrev pub err_conflict : Fault
err_conflict = record { text = codes "merge conflict detected"; is = is_conflict }

abbrev is_dirty_working_tree : Cause → Bool
is_dirty_working_tree dirty_working_tree = true
is_dirty_working_tree _ = false

abbrev pub err_dirty_working_tree : Fault
err_dirty_working_tree = record {
  text = codes "uncommitted changes present";
  is = is_dirty_working_tree;
}

abbrev is_nothing_to_commit : Cause → Bool
is_nothing_to_commit nothing_to_commit = true
is_nothing_to_commit _ = false

abbrev pub err_nothing_to_commit : Fault
err_nothing_to_commit = record { text = codes "nothing to commit"; is = is_nothing_to_commit }

abbrev is_push_failed : Cause → Bool
is_push_failed push_failed = true
is_push_failed _ = false

abbrev pub err_push_failed : Fault
err_push_failed = record { text = codes "push failed"; is = is_push_failed }

abbrev is_pull_failed : Cause → Bool
is_pull_failed pull_failed = true
is_pull_failed _ = false

abbrev pub err_pull_failed : Fault
err_pull_failed = record { text = codes "pull failed"; is = is_pull_failed }

abbrev is_no_remote : Cause → Bool
is_no_remote no_remote = true
is_no_remote _ = false

abbrev pub err_no_remote : Fault
err_no_remote = record { text = codes "no remote configured"; is = is_no_remote }
