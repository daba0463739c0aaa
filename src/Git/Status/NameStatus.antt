-- ===== src/Git/Status/NameStatus.antt =====
-- `parseNameStatus` of internal/git/status.go: the output of `git show --name-status -z`. A code of one
-- path takes the next field; a rename or a copy takes two, the old path first.
pub mod RoundTrip
use sexton.Common.{
  ℕ, zero, ◌≡◌, ◌≢◌, refl, sym, ap, ◌∙◌, Bool, true, false, ◌||◌, List, [], ◌∷◌, ◌++◌, append-nil,
  append_assoc, arith, ◌==◌, if◌then◌else◌, All, is_empty, map,
}
use sexton.Common.Result.{Result, ok, err, is_ok}
use sexton.Common.Text.{Text, split, split-append, Lacks}
use sexton.Git.Status.{StatusEntry, Status, new_status, add_entry, entries-add_entry}

-- The errors, with the code that they quote.
pub data NameStatusError : Type 0 where
  missing_pair : Text → NameStatusError
  missing_path : Text → NameStatusError

-- `strings.TrimLeft(field, "\\n")`.
trim_newlines : Text → Text
trim_newlines [] = []
trim_newlines (c ∷ s) = let rest = trim_newlines s in if c == 10 then rest else c ∷ s

abbrev takes_pair : ℕ → Bool
takes_pair x = x == b'R' || x == b'C'

abbrev named_entry : ℕ → Text → Text → StatusEntry
named_entry x old path = record { path = path; old_path = old; x = x; y = b' ' }

-- The first byte of a code, which is the column of its entry.
abbrev letter : Text → ℕ
letter [] = 0
letter (x ∷ code) = x

module _ (quote : Text → Text) where
  -- A change of one path.
  abbrev add_alone : Status → Text → Text → Status
  add_alone s code path = add_entry quote s (named_entry (letter code) [] path)

  -- The loop over the fields that are left.
  name_fields : Status → List Text → Result NameStatusError Status
  name_fields s [] = ok s
  name_fields s (f ∷ []) =
      let code = trim_newlines f in
      if is_empty code
      then ok s
      else if takes_pair (letter code)
      then err (missing_pair code)
      else err (missing_path code)
  name_fields s (f ∷ g ∷ []) =
      let code = trim_newlines f in
      let skip = name_fields s (g ∷ []) in
      let alone = name_fields (add_alone s code g) [] in
      if is_empty code
      then skip
      else if takes_pair (letter code)
      then err (missing_pair code)
      else alone
  name_fields s (f ∷ g ∷ h ∷ fs) =
      let code = trim_newlines f in
      let skip = name_fields s (g ∷ h ∷ fs) in
      let pair = name_fields (add_entry quote s (named_entry (letter code) g h)) fs in
      let alone = name_fields (add_alone s code g) (h ∷ fs) in
      if is_empty code then skip else if takes_pair (letter code) then pair else alone

  -- `parseNameStatus`.
  unfoldable pub parse_name_status : Text → Result NameStatusError Status
  unfolding name_fields trim_newlines add_entry
  parse_name_status output = name_fields new_status (split zero output)

trim_code : (x : ℕ) (code : Text) → (x == 10) ≡ false → trim_newlines (x ∷ code) ≡ x ∷ code
unfolding trim_newlines
trim_code x code e = rw e

module _ (quote : Text → Text) where
  -- An output that ends behind a code is refused: nothing is made up for a path that is not there.
  truncated_refused :
      (s : Status) (x : ℕ) (code : Text)
      → (x == 10) ≡ false
      → is_ok (name_fields quote s ((x ∷ code) ∷ [])) ≡ false
  unfolding name_fields
  truncated_refused s x code e = rw (trim_code x code e) (ground arith)
