-- ===== src/Git/Status.antt =====
-- internal/git/status.go: the entries of a `git status`, their classification, and what is shown of
-- a path. Paths are lists of bytes. `quote` stands for Go's `strconv.Quote`, which goes by Unicode's
-- tables of printable characters.
pub mod Branch
pub mod Parse
pub mod NameStatus
use sexton.Common.{
  ℕ, zero, suc, ◌+◌, Bool, true, false, not, ◌&&◌, ◌||◌, Option, none, some, List, [], ◌∷◌, ◌++◌,
  ltb, leb, ◌==◌, if◌then◌else◌, length, is_empty, arith, ◌≡◌,
}
use sexton.Common.Text.{Text}

pub record StatusEntry : Type 0 where
  pub path : Text
  pub old_path : Text
  pub x : ℕ
  pub y : ℕ

-- `IsTracked`.
abbrev pub is_tracked : StatusEntry → Bool
is_tracked e = not (e.x == b'?') || not (e.y == b'?')

-- `IsStaged`: the index column is one of "MADRCT".
abbrev pub is_staged : StatusEntry → Bool
is_staged e = e.x == b'M' || e.x == b'A' || e.x == b'D' || e.x == b'R' || e.x == b'C' || e.x == b'T'

-- An entry with a rename in either column, and an old path.
abbrev pub has_old_path : StatusEntry → Bool
has_old_path e = (e.x == b'R' || e.y == b'R') && not (is_empty e.old_path)

pub record Status : Type 0 where
  pub branch : Text
  pub ahead : ℕ
  pub behind : ℕ
  pub modified : List Text
  pub added : List Text
  pub deleted : List Text
  pub untracked : List Text
  pub entries : List StatusEntry

abbrev pub new_status : Status
new_status = record {
  branch = [];
  ahead = 0;
  behind = 0;
  modified = [];
  added = [];
  deleted = [];
  untracked = [];
  entries = [];
}

-- `HasChanges`.
abbrev pub has_changes : Status → Bool
has_changes s =
    ltb 0 (length s.modified)
    || ltb 0 (length s.added)
    || ltb 0 (length s.deleted)
    || ltb 0 (length s.untracked)

-- `ChangeCount`.
abbrev pub change_count : Status → ℕ
change_count s = length s.modified + length s.added + length s.deleted + length s.untracked

-- `TrackedPaths`.
unfoldable pub tracked_paths : List StatusEntry → List Text
tracked_paths [] = []
tracked_paths (e ∷ es) =
    let rest = tracked_paths es in
    if is_tracked e
    then (if has_old_path e then e.old_path ∷ e.path ∷ rest else e.path ∷ rest)
    else rest

-- `isTwoPathStatus`.
abbrev pub is_two_path_status : ℕ → ℕ → Bool
is_two_path_status x y = x == b'R' || x == b'C' || y == b'R' || y == b'C'

-- What a leading byte of UTF-8 asks for: how many bytes follow, and the range of the first of them.
-- The range after 0xC2 leaves out U+0080 to U+009F, which are control characters.
lead : ℕ → Option (ℕ × ℕ × ℕ)
lead c =
    if ltb c 0x20 || c == 0x7f
    then none
    else if ltb c 0x80
    then some (0, 0x80, 0xbf)
    else if ltb c 0xc2
    then none
    else if c == 0xc2
    then some (1, 0xa0, 0xbf)
    else if ltb c 0xe0
    then some (1, 0x80, 0xbf)
    else if c == 0xe0
    then some (2, 0xa0, 0xbf)
    else if c == 0xed
    then some (2, 0x80, 0x9f)
    else if ltb c 0xf0
    then some (2, 0x80, 0xbf)
    else if c == 0xf0
    then some (3, 0x90, 0xbf)
    else if ltb c 0xf4
    then some (3, 0x80, 0xbf)
    else if c == 0xf4
    then some (3, 0x80, 0x8f)
    else none

-- `utf8.ValidString(path) && strings.IndexFunc(path, unicode.IsControl) < 0`; the first three
-- arguments are the bytes still to come in a character, and the range of the next.
is_plain_from : ℕ → ℕ → ℕ → Text → Bool
is_plain_from zero lo hi [] = true
is_plain_from (suc n) lo hi [] = false
is_plain_from zero lo hi (c ∷ s) = elim (lead c) [
  | none ↦ false
  | some (n, lo', hi') ↦ is_plain_from n lo' hi' s
]
is_plain_from (suc n) lo hi (c ∷ s) = leb lo c && leb c hi && is_plain_from n 0x80 0xbf s

unfoldable pub is_plain : Text → Bool
unfolding is_plain_from lead
is_plain path = is_plain_from 0 0x80 0xbf path

module _ (quote : Text → Text) where
  -- `escapeDisplayPath`.
  unfoldable pub escape_display_path : Text → Text
  unfolding is_plain
  escape_display_path path = if is_plain path then path else quote path

  -- `classify`.
  pub classify : Status → ℕ → ℕ → Text → Status
  classify s x y path =
      let shown = escape_display_path path in
      if x == b'?' && y == b'?'
      then record s { untracked = s.untracked ++ shown ∷ [] }
      else if x == b'A' || y == b'A'
      then record s { added = s.added ++ shown ∷ [] }
      else if x == b'D' || y == b'D'
      then record s { deleted = s.deleted ++ shown ∷ [] }
      else record s { modified = s.modified ++ shown ∷ [] }

  -- The end of a round of either parser: the entry is appended and classified.
  pub add_entry : Status → StatusEntry → Status
  unfolding classify
  add_entry s e = classify (record s { entries = s.entries ++ e ∷ [] }) e.x e.y e.path

  pub entries-add_entry :
      (s : Status) (e : StatusEntry) → (add_entry s e).entries ≡ s.entries ++ e ∷ []
  unfolding add_entry
  entries-add_entry s e = ground arith
