-- ===== src/Git/Status/Parse/Classes.antt =====
-- What the four lists of a parsed status hold: the paths of its entries, class by class, in order.
use sexton.Common.{
  ℕ, zero, ◌+◌, ◌≡◌, refl, ap, Bool, not, ◌&&◌, ◌||◌, List, [], ◌∷◌, ◌++◌, append-nil, arith, ltb,
  ◌==◌, if◌then◌else◌, length, Bool-cases, inl, inr, is_empty,
}
use sexton.Common.Text.{Text, split}
use sexton.Git.Status.{
  StatusEntry, Status, new_status, add_entry, escape_display_path, has_changes, change_count,
}
use sexton.Git.Status.Branch.{SameLists, parse_branch_line-SameLists}
use sexton.Git.Status.Parse.{
  Field, skipped, branch_line, entry_of, field_of, takes_next, single, double, parse_fields,
  parse_status, plain_entry, moved_entry,
}

-- The classes: untracked in both columns, then added, then deleted in either, and all the rest.
abbrev is_untracked : StatusEntry → Bool
is_untracked e = e.x == b'?' && e.y == b'?'

abbrev is_added : StatusEntry → Bool
is_added e = not (is_untracked e) && (e.x == b'A' || e.y == b'A')

abbrev is_deleted : StatusEntry → Bool
is_deleted e = not (is_untracked e) && not (is_added e) && (e.x == b'D' || e.y == b'D')

abbrev is_modified : StatusEntry → Bool
is_modified e = not (is_untracked e) && not (is_added e) && not (is_deleted e)

some_change :
    (a b c d : ℕ) (es : List StatusEntry)
    → a + b + c + d ≡ length es
    → (ltb 0 a || ltb 0 b || ltb 0 c || ltb 0 d) ≡ not (is_empty es)
some_change a b c d [] h = ground arith
some_change a b c d (e ∷ es) h = ground arith

module _ (quote : Text → Text) where
  -- The shown paths of the entries of a class.
  unfoldable pub displayed : (StatusEntry → Bool) → List StatusEntry → List Text
  displayed p [] = []
  displayed p (e ∷ es) =
      let rest = displayed p es in if p e then escape_display_path quote e.path ∷ rest else rest

  displayed-snoc :
      (p : StatusEntry → Bool) (es : List StatusEntry) (e : StatusEntry)
      → displayed p (es ++ e ∷ [])
        ≡ displayed p es ++ (if p e then escape_display_path quote e.path ∷ [] else [])
  unfolding displayed
  displayed-snoc p [] e = ground arith
  displayed-snoc p (d ∷ es) e = ground (arith, displayed-snoc p es e)

  -- The four lists are the entries, class by class.
  pub record IsClassified (s : Status) : Type 0 where
    pub untracked_paths : s.untracked ≡ displayed is_untracked s.entries
    pub added_paths : s.added ≡ displayed is_added s.entries
    pub deleted_paths : s.deleted ≡ displayed is_deleted s.entries
    pub modified_paths : s.modified ≡ displayed is_modified s.entries

  new_status-IsClassified : IsClassified new_status
  unfolding displayed
  new_status-IsClassified = record {
    untracked_paths = refl;
    added_paths = refl;
    deleted_paths = refl;
    modified_paths = refl;
  }

  pub add_entry-IsClassified :
      (s : Status) (e : StatusEntry) → IsClassified s → IsClassified (add_entry quote s e)
  unfolding add_entry
  add_entry-IsClassified s e h = ground (
    arith,
    displayed-snoc is_untracked s.entries e,
    displayed-snoc is_added s.entries e,
    displayed-snoc is_deleted s.entries e,
    displayed-snoc is_modified s.entries e,
    append-nil s.untracked,
    append-nil s.added,
    append-nil s.deleted,
    append-nil s.modified,
    append-nil (displayed is_untracked s.entries),
    append-nil (displayed is_added s.entries),
    append-nil (displayed is_deleted s.entries),
    append-nil (displayed is_modified s.entries),
  )

  SameLists-IsClassified : (s t : Status) → SameLists s t → IsClassified s → IsClassified t
  SameLists-IsClassified s t same_lists h = ground arith

  single-IsClassified : (s : Status) (f : Field) → IsClassified s → IsClassified (single quote s f)
  unfolding single
  single-IsClassified s skipped h = h
  single-IsClassified s (branch_line line) h =
      SameLists-IsClassified s _ (parse_branch_line-SameLists s line) h
  single-IsClassified s (entry_of x y path) h = add_entry-IsClassified s (plain_entry x y path) h

  double-IsClassified :
      (s : Status) (f : Field) (old : Text) → IsClassified s → IsClassified (double quote s f old)
  unfolding double
  double-IsClassified s skipped old h = h
  double-IsClassified s (branch_line line) old h = h
  double-IsClassified s (entry_of x y path) old h =
      add_entry-IsClassified s (moved_entry x y path old) h

  parse_fields-IsClassified :
      (s : Status) (fs : List Text) → IsClassified s → IsClassified (parse_fields quote s fs)
  unfolding parse_fields
  parse_fields-IsClassified s [] h = h
  parse_fields-IsClassified s (f ∷ []) h = single-IsClassified s (field_of f) h
  parse_fields-IsClassified s (f ∷ g ∷ fs) h = elim (Bool-cases (takes_next quote (field_of f))) [
    | inl e ↦ rw e (
        parse_fields-IsClassified (double quote s (field_of f) g) fs
          (double-IsClassified s (field_of f) g h))
    | inr e ↦ rw e (
        parse_fields-IsClassified (single quote s (field_of f)) (g ∷ fs)
          (single-IsClassified s (field_of f) h))
  ]

  -- Whatever git prints, the four lists of the parsed status are the shown paths of its entries,
  -- each in the one list of its class and in the order of the output.
  pub parse_status-IsClassified : (output : Text) → IsClassified (parse_status quote output)
  unfolding parse_status
  parse_status-IsClassified output =
      parse_fields-IsClassified new_status (split zero output) new_status-IsClassified

  -- Each entry is in exactly one class.
  length-displayed :
      (es : List StatusEntry)
      → length (displayed is_untracked es)
          + length (displayed is_added es)
          + length (displayed is_deleted es)
          + length (displayed is_modified es)
        ≡ length es
  unfolding displayed
  length-displayed [] = omega arith
  length-displayed (e ∷ es) = ground (arith, length-displayed es)

  -- A classified status counts one change for each entry, and has changes exactly if it has entries.
  pub IsClassified-change_count :
      (s : Status)
      → IsClassified s
      → (change_count s ≡ length s.entries) × (has_changes s ≡ not (is_empty s.entries))
  IsClassified-change_count s h =
      let total : change_count s ≡ length s.entries = omega (
        arith,
        ap (length {0}) h.untracked_paths,
        ap (length {0}) h.added_paths,
        ap (length {0}) h.deleted_paths,
        ap (length {0}) h.modified_paths,
        length-displayed s.entries,
      ) in
      (total, some_change _ _ _ _ s.entries total)
