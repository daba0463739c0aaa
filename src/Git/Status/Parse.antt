-- ===== src/Git/Status/Parse.antt =====
-- `parseStatus` of internal/git/status.go: the output of `git status --porcelain=v1 -z -b`, whose
-- fields are cut off by NUL bytes.
pub mod Classes
pub mod RoundTrip
use sexton.Common.{ℕ, zero, suc, Bool, true, false, List, [], ◌∷◌, ◌&&◌, ◌==◌, if◌then◌else◌}
use sexton.Common.Text.{Text, split}
use sexton.Git.Status.{StatusEntry, Status, new_status, is_two_path_status, add_entry}
use sexton.Git.Status.Branch.{parse_branch_line}

-- What a field is to the loop: nothing (empty, or too short), the branch line, or an entry, whose
-- path starts at the fourth byte.
pub data Field : Type 0 where
  skipped : Field
  branch_line : Text → Field
  entry_of : ℕ → ℕ → Text → Field

abbrev pub field_of : Text → Field
field_of [] = skipped
field_of (a ∷ []) = skipped
field_of (a ∷ b ∷ []) = skipped
field_of (a ∷ b ∷ c ∷ rest) =
    if a == b'#' && b == b'#' && c == b' ' then branch_line rest else entry_of a b rest

-- An entry, its old path left empty.
abbrev pub plain_entry : ℕ → ℕ → Text → StatusEntry
plain_entry x y path = record { path = path; old_path = []; x = x; y = y }

abbrev pub moved_entry : ℕ → ℕ → Text → Text → StatusEntry
moved_entry x y path old = record { path = path; old_path = old; x = x; y = y }

module _ (quote : Text → Text) where
  -- A field with no effect on how the next one is read.
  pub single : Status → Field → Status
  single s skipped = s
  single s (branch_line line) = parse_branch_line s line
  single s (entry_of x y path) = add_entry quote s (plain_entry x y path)

  -- Whether the field after this one is its old path.
  abbrev pub takes_next : Field → Bool
  takes_next skipped = false
  takes_next (branch_line line) = false
  takes_next (entry_of x y path) = is_two_path_status x y

  pub double : Status → Field → Text → Status
  double s skipped old = s
  double s (branch_line line) old = s
  double s (entry_of x y path) old = add_entry quote s (moved_entry x y path old)

  -- The loop over the fields that are left.
  pub parse_fields : Status → List Text → Status
  unfolding single double
  parse_fields s [] = s
  parse_fields s (f ∷ []) = single s (field_of f)
  parse_fields s (f ∷ g ∷ fs) =
      let alone = parse_fields (single s (field_of f)) (g ∷ fs) in
      let both = parse_fields (double s (field_of f) g) fs in
      if takes_next (field_of f) then both else alone

  -- `parseStatus`.
  unfoldable pub parse_status : Text → Status
  unfolding parse_fields parse_branch_line add_entry
  parse_status output = parse_fields new_status (split zero output)
