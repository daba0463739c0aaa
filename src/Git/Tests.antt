-- ===== src/Git/Tests.antt =====
-- Runs of the parsers of git's output, of the commit message and of the quoting, and the theorems at
-- them. The quoting of a path is the identity here.
use sexton.Common.{◌≡◌, refl, true, false, List, [], ◌∷◌, arith, map, All, ◌⊎◌, inl, inr}
use sexton.Common.Result.{ok}
use sexton.Common.Text.{Text, codes}
use sexton.Git.Status.{StatusEntry, Status, new_status}
use sexton.Git.Status.Branch.{parse_branch_line}
use sexton.Git.Status.Branch.RoundTrip.{print_branch, parse-print_branch}
use sexton.Git.Status.Parse.{parse_status}
use sexton.Git.Status.Parse.RoundTrip.{IsPrintable, IsMove, print_entries, parse-print_entries}
use sexton.Git.Status.NameStatus.{parse_name_status}
use sexton.Git.Status.NameStatus.RoundTrip
use sexton.Git.Status.NameStatus.RoundTrip.{
  Change, in_place, renamed, copied, IsInPlace, print_changes, entry_of_change, parse-print_changes,
}

abbrev as_is : Text → Text
as_is path = path

abbrev renamed_file : StatusEntry
renamed_file = record { path = codes "b c"; old_path = codes "a"; x = b'R'; y = b'M' }

abbrev unknown : StatusEntry
unknown = record { path = codes "new"; old_path = []; x = b'?'; y = b'?' }

renamed_file-IsPrintable : IsPrintable renamed_file
renamed_file-IsPrintable = record {
  no_header = refl;
  x_not_nul = omega arith;
  y_not_nul = omega arith;
  path_lacks = omega arith;
  old_lacks = omega arith;
  moved_old = λ h. refl;
  old_moved = λ h. inl (inl refl);
}

abbrev copied_file : StatusEntry
copied_file = record { path = codes "d"; old_path = codes "b"; x = b' '; y = b'C' }

copied_file-IsPrintable : IsPrintable copied_file
copied_file-IsPrintable = record {
  no_header = refl;
  x_not_nul = omega arith;
  y_not_nul = omega arith;
  path_lacks = omega arith;
  old_lacks = omega arith;
  moved_old = λ h. refl;
  old_moved = λ h. inr (inr refl);
}

unknown-IsPrintable : IsPrintable unknown
unknown-IsPrintable = record {
  no_header = refl;
  x_not_nul = omega arith;
  y_not_nul = omega arith;
  path_lacks = omega arith;
  old_lacks = tt;
  moved_old = not_moved;
  old_moved = λ h. cc;
}
  where
    not_moved : IsMove b'?' ⊎ IsMove b'?' → true ≡ false
    not_moved (inl (inl e)) = absurd (omega arith)
    not_moved (inl (inr e)) = absurd (omega arith)
    not_moved (inr (inl e)) = absurd (omega arith)
    not_moved (inr (inr e)) = absurd (omega arith)

parse-print_entries_example :
    (parse_status as_is (print_entries (renamed_file ∷ copied_file ∷ unknown ∷ []))).entries
    ≡ renamed_file ∷ copied_file ∷ unknown ∷ []
parse-print_entries_example =
    parse-print_entries as_is (renamed_file ∷ copied_file ∷ unknown ∷ [])
      (renamed_file-IsPrintable, (copied_file-IsPrintable, (unknown-IsPrintable, tt)))

parse-print_branch_example :
    parse_branch_line new_status (print_branch (codes "main") (codes "origin/main") 12 3)
    ≡ record new_status { branch = codes "main"; ahead = 12; behind = 3 }
parse-print_branch_example =
    parse-print_branch (codes "main") (codes "origin/main") 12 3 refl (ground arith) refl
      (ground arith) (omega arith) (omega arith)

abbrev some_changes : List Change
some_changes =
    renamed (codes "100") (codes "a") (codes "b")
    ∷ copied (codes "75") (codes "b") (codes "c")
    ∷ in_place b'M' [] (codes "d")
    ∷ []

changed-IsInPlace : IsInPlace b'M'
changed-IsInPlace = record {
  not_nul = omega arith;
  not_newline = refl;
  not_renamed = refl;
  not_copied = refl;
}

some_changes-IsPrintable : All RoundTrip.IsPrintable some_changes
some_changes-IsPrintable = (
  (omega arith, omega arith, omega arith),
  ((omega arith, omega arith, omega arith), ((changed-IsInPlace, tt, omega arith), tt)),
)

parse-print_changes_example :
    (s : Status) × (parse_name_status as_is (print_changes some_changes) ≡ ok s)
    × (s.entries ≡ map entry_of_change some_changes)
parse-print_changes_example = parse-print_changes as_is some_changes some_changes-IsPrintable
