-- ===== src/Git/Status/NameStatus/RoundTrip.antt =====
-- `parseNameStatus` reads back the changes that git prints: `git show --name-status -z` writes a code,
-- which is a letter and a score, and then the path of a change in place, or the two paths of a rename
-- or a copy, each ended by a NUL byte.
use sexton.Common.{
  ℕ, zero, ◌≡◌, ◌≢◌, refl, sym, ap, ◌∙◌, true, false, List, [], ◌∷◌, ◌++◌, append-nil, append_assoc,
  arith, ◌==◌, All, map,
}
use sexton.Common.Result.{ok}
use sexton.Common.Text.{Text, split, split-append, Lacks}
use sexton.Git.Status.{StatusEntry, Status, new_status, add_entry, entries-add_entry}
use sexton.Git.Status.NameStatus.{
  takes_pair, named_entry, name_fields, trim_newlines, parse_name_status, trim_code,
}

-- The changes that git names: a path that is changed in place (added, deleted, modified, of another
-- type), with the letter of the change, and one that is renamed or copied. Each has its score.
pub data Change : Type 0 where
  in_place : (kind : ℕ) (score path : Text) → Change
  renamed : (score from_path to_path : Text) → Change
  copied : (score from_path to_path : Text) → Change

abbrev pair_text : ℕ → Text → Text → Text → Text → Text
pair_text kind score from_path to_path rest =
    (kind ∷ score) ++ zero ∷ (from_path ++ zero ∷ (to_path ++ zero ∷ rest))

-- What git writes for a change: the code, then the path or the two paths.
abbrev print_change : Change → Text → Text
print_change (in_place kind score path) rest = (kind ∷ score) ++ zero ∷ (path ++ zero ∷ rest)
print_change (renamed score from_path to_path) rest = pair_text b'R' score from_path to_path rest
print_change (copied score from_path to_path) rest = pair_text b'C' score from_path to_path rest

abbrev pub print_changes : List Change → Text
print_changes [] = []
print_changes (c ∷ cs) = print_change c (print_changes cs)

-- A letter that stands for a change in place.
pub record IsInPlace (kind : ℕ) : Type 0 where
  pub not_nul : kind ≢ 0
  pub not_newline : (kind == 10) ≡ false
  pub not_renamed : (kind == b'R') ≡ false
  pub not_copied : (kind == b'C') ≡ false

-- A change that git can print: no NUL byte in it, and no other change's letter.
abbrev pub IsPrintable : Change → Type 0
IsPrintable (in_place kind score path) = IsInPlace kind × Lacks 0 score × Lacks 0 path
IsPrintable (renamed score from_path to_path) = Lacks 0 score × Lacks 0 from_path × Lacks 0 to_path
IsPrintable (copied score from_path to_path) = Lacks 0 score × Lacks 0 from_path × Lacks 0 to_path

-- The entry that a change stands for.
abbrev pub entry_of_change : Change → StatusEntry
entry_of_change (in_place kind score path) = named_entry kind [] path
entry_of_change (renamed score from_path to_path) = named_entry b'R' from_path to_path
entry_of_change (copied score from_path to_path) = named_entry b'C' from_path to_path

abbrev change_fields : Change → List Text → List Text
change_fields (in_place kind score path) rest = (kind ∷ score) ∷ path ∷ rest
change_fields (renamed score from_path to_path) rest = (b'R' ∷ score) ∷ from_path ∷ to_path ∷ rest
change_fields (copied score from_path to_path) rest = (b'C' ∷ score) ∷ from_path ∷ to_path ∷ rest

fields_of : List Change → List Text
fields_of [] = [] ∷ []
fields_of (c ∷ cs) = change_fields c (fields_of cs)

split-pair_text :
    (kind : ℕ) (score from_path to_path rest : Text)
    → kind ≢ 0
    → Lacks 0 score × Lacks 0 from_path × Lacks 0 to_path
    → split zero (pair_text kind score from_path to_path rest)
      ≡ (kind ∷ score) ∷ from_path ∷ to_path ∷ split zero rest
split-pair_text kind score from_path to_path rest k (x, y, z) =
    split-append 0 (kind ∷ score) _ (k, x)
    ∙ ap (λ r. (kind ∷ score) ∷ r)
        (split-append 0 from_path _ y ∙ ap (λ r. from_path ∷ r) (split-append 0 to_path rest z))

split-print_change :
    (c : Change) (rest : Text)
    → IsPrintable c
    → split zero (print_change c rest) ≡ change_fields c (split zero rest)
split-print_change (in_place kind score path) rest (k, x, y) =
    split-append 0 (kind ∷ score) _ (k.not_nul, x)
    ∙ ap (λ r. (kind ∷ score) ∷ r) (split-append 0 path rest y)
split-print_change (renamed score from_path to_path) rest h =
    split-pair_text b'R' score from_path to_path rest (omega arith) h
split-print_change (copied score from_path to_path) rest h =
    split-pair_text b'C' score from_path to_path rest (omega arith) h

split-print_changes :
    (cs : List Change) → All IsPrintable cs → split zero (print_changes cs) ≡ fields_of cs
unfolding fields_of
split-print_changes [] h = unfold split in refl
split-print_changes (c ∷ cs) (hc, hcs) =
    split-print_change c (print_changes cs) hc ∙ ap (change_fields c) (split-print_changes cs hcs)

module _ (quote : Text → Text) where
  add_changes : Status → List Change → Status
  add_changes s [] = s
  add_changes s (c ∷ cs) = add_changes (add_entry quote s (entry_of_change c)) cs

  read_pair :
      (s : Status) (x : ℕ) (code g h : Text) (fs : List Text)
      → (x == 10) ≡ false
      → takes_pair x ≡ true
      → name_fields quote s ((x ∷ code) ∷ g ∷ h ∷ fs)
        ≡ name_fields quote (add_entry quote s (named_entry x g h)) fs
  unfolding name_fields
  read_pair s x code g h fs e pair = rw (trim_code x code e) (rw pair)

  read_alone :
      (s : Status) (x : ℕ) (code g : Text) (fs : List Text)
      → (x == 10) ≡ false
      → takes_pair x ≡ false
      → name_fields quote s ((x ∷ code) ∷ g ∷ fs)
        ≡ name_fields quote (add_entry quote s (named_entry x [] g)) fs
  unfolding name_fields
  read_alone s x code g [] e alone = rw (trim_code x code e) (rw alone)
  read_alone s x code g (h ∷ fs) e alone = rw (trim_code x code e) (rw alone)

  name-fields_of :
      (s : Status) (cs : List Change)
      → All IsPrintable cs
      → name_fields quote s (fields_of cs) ≡ ok (add_changes s cs)
  unfolding fields_of add_changes
  name-fields_of s [] h = unfold name_fields trim_newlines in refl
  name-fields_of s (in_place kind score path ∷ cs) ((k, x, y), hcs) =
      read_alone s kind score path (fields_of cs) k.not_newline
        (let p = k.not_renamed in let q = k.not_copied in ground arith)
      ∙ name-fields_of (add_entry quote s (named_entry kind [] path)) cs hcs
  name-fields_of s (renamed score from_path to_path ∷ cs) (h, hcs) =
      read_pair s b'R' score from_path to_path (fields_of cs) refl refl
      ∙ name-fields_of (add_entry quote s (named_entry b'R' from_path to_path)) cs hcs
  name-fields_of s (copied score from_path to_path ∷ cs) (h, hcs) =
      read_pair s b'C' score from_path to_path (fields_of cs) refl refl
      ∙ name-fields_of (add_entry quote s (named_entry b'C' from_path to_path)) cs hcs

  entries-add_changes :
      (s : Status) (cs : List Change)
      → (add_changes s cs).entries ≡ s.entries ++ map entry_of_change cs
  unfolding add_changes
  entries-add_changes s [] = sym (append-nil s.entries)
  entries-add_changes s (c ∷ cs) =
      entries-add_changes (add_entry quote s (entry_of_change c)) cs
      ∙ ap (λ l. l ++ map entry_of_change cs) (entries-add_entry quote s (entry_of_change c))
      ∙ append_assoc s.entries (entry_of_change c ∷ []) (map entry_of_change cs)

  -- Parsing the name-status output of any changes that git can print succeeds, and the entries are
  -- those changes in order: the letter of each change and its path, and of a rename or a copy the old
  -- path too. Git can print a change if it holds no NUL byte and, for a change in place, its letter is
  -- neither that of a rename nor that of a copy and no line break.
  pub parse-print_changes :
      (cs : List Change)
      → All IsPrintable cs
      → (s : Status) × (parse_name_status quote (print_changes cs) ≡ ok s)
        × (s.entries ≡ map entry_of_change cs)
  unfolding parse_name_status
  parse-print_changes cs h = (
    add_changes new_status cs,
    ap (name_fields quote new_status) (split-print_changes cs h) ∙ name-fields_of new_status cs h,
    entries-add_changes new_status cs,
  )
