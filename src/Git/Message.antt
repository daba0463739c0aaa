-- ===== src/Git/Message.antt =====
-- internal/git/message.go: the mechanical commit message. A `*Status` that may be nil is an `Option`.
use sexton.Common.{
  ℕ, ◌+◌, ◌≡◌, true, Option, none, some, List, [], ◌∷◌, ◌++◌, Bool-cases, inl, inr, ltb, ◌==◌,
  if◌then◌else◌, length, is_empty,
}
use sexton.Common.Text.{Text, codes, join, decimal, has_prefix, has_prefix-append}
use sexton.Git.Status.{Status}

unfoldable pub prefix : Text
prefix = codes "sexton: "

unfoldable pub update_files : Text
update_files = codes "update files"

-- One of the three parts: none, "verb 1 file", or "verb n files".
part : Text → ℕ → List Text
part verb n =
    if ltb 0 n
    then (if n == 1
        then (verb ++ codes " 1 file") ∷ []
        else (verb ++ (codes " " ++ (decimal n ++ codes " files"))) ∷ [])
    else []

parts_of : Status → List Text
parts_of s =
    part (codes "add") (length s.added + length s.untracked)
    ++ (part (codes "update") (length s.modified) ++ part (codes "remove") (length s.deleted))

-- `GenerateCommitMessage`.
unfoldable pub generate_commit_message : Option Status → Text
unfolding part parts_of
generate_commit_message none = prefix ++ update_files
generate_commit_message (some s) =
    let parts = parts_of s in
    if is_empty parts then prefix ++ update_files else prefix ++ join parts (codes ", ")

-- The message is never empty, and it begins with the prefix that marks a commit of sexton.
generate_commit_message-has_prefix :
    (s : Option Status) → has_prefix (generate_commit_message s) prefix ≡ true
unfolding generate_commit_message
generate_commit_message-has_prefix none = has_prefix-append prefix update_files
generate_commit_message-has_prefix (some s) = elim (Bool-cases (is_empty (parts_of s))) [
  | inl e ↦ rw e (has_prefix-append prefix update_files)
  | inr e ↦ rw e (has_prefix-append prefix _)
]
