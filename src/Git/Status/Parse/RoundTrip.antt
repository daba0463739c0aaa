-- ===== src/Git/Status/Parse/RoundTrip.antt =====
-- `parseStatus` reads back the entries that git prints: `git status -z` writes an entry as its two
-- columns, a space and the path, then the old path if there is one, each ended by a NUL byte.
use sexton.Common.{
  ℕ, zero, ◌≡◌, ◌≢◌, refl, sym, ap, ◌∙◌, true, false, ◌&&◌, List, [], ◌∷◌, ◌++◌, append-nil,
  append_assoc, arith, ◌==◌, All, Bool-cases, ◌⊎◌, inl, inr, is_empty,
}
use sexton.Common.Text.{Text, split, split-append, Lacks}
use sexton.Git.Status.{
  StatusEntry, Status, new_status, add_entry, entries-add_entry, is_two_path_status,
}
use sexton.Git.Status.Parse.{
  field_of, single, double, parse_fields, parse_status, entry_of, plain_entry, moved_entry,
}

-- The old path, if the entry has one.
abbrev old_field : Text → Text → Text
old_field [] rest = rest
old_field (c ∷ old) rest = (c ∷ old) ++ zero ∷ rest

-- The porcelain output of some entries.
abbrev pub print_entries : List StatusEntry → Text
print_entries [] = []
print_entries (e ∷ es) =
    (e.x ∷ e.y ∷ b' ' ∷ e.path) ++ zero ∷ old_field e.old_path (print_entries es)

-- The columns of a path that is behind a rename or a copy.
abbrev pub IsMove : ℕ → Type 0
IsMove c = (c ≡ b'R') ⊎ (c ≡ b'C')

-- An entry that git can print: no NUL byte in it, columns that do not read as a branch line's, and
-- an old path if and only if one of the columns says that the path has been renamed or copied.
pub record IsPrintable (e : StatusEntry) : Type 0 where
  pub no_header : (e.x == b'#' && e.y == b'#') ≡ false
  pub x_not_nul : e.x ≢ 0
  pub y_not_nul : e.y ≢ 0
  pub path_lacks : Lacks 0 e.path
  pub old_lacks : Lacks 0 e.old_path
  pub moved_old : IsMove e.x ⊎ IsMove e.y → is_empty e.old_path ≡ false
  pub old_moved : is_empty e.old_path ≡ false → IsMove e.x ⊎ IsMove e.y

-- The fields that the output is split into.
abbrev old_fields : Text → List Text → List Text
old_fields [] rest = rest
old_fields (c ∷ old) rest = (c ∷ old) ∷ rest

fields_of : List StatusEntry → List Text
fields_of [] = [] ∷ []
fields_of (e ∷ es) = (e.x ∷ e.y ∷ b' ' ∷ e.path) ∷ old_fields e.old_path (fields_of es)

split-old_field :
    (old rest : Text)
    → Lacks 0 old
    → split zero (old_field old rest) ≡ old_fields old (split zero rest)
split-old_field [] rest h = refl
split-old_field (c ∷ old) rest h = split-append 0 (c ∷ old) rest h

-- The parser looks for an old path just where git has printed one.
IsMove-is_two_path_status : (x y : ℕ) → IsMove x ⊎ IsMove y → is_two_path_status x y ≡ true
IsMove-is_two_path_status x y (inl (inl e)) = ground arith
IsMove-is_two_path_status x y (inl (inr e)) = ground arith
IsMove-is_two_path_status x y (inr (inl e)) = ground arith
IsMove-is_two_path_status x y (inr (inr e)) = ground arith

is_two_path_status-IsMove : (x y : ℕ) → is_two_path_status x y ≡ true → IsMove x ⊎ IsMove y
is_two_path_status-IsMove x y h = elim (Bool-cases (x == b'R')) [
  | inl e ↦ inl (inl (ground arith))
  | inr e ↦ elim (Bool-cases (x == b'C')) [
    | inl f ↦ inl (inr (ground arith))
    | inr f ↦ elim (Bool-cases (y == b'R')) [
      | inl g ↦ inr (inl (ground arith))
      | inr g ↦ inr (inr (ground arith))
    ]
  ]
]

-- What is left of the printed fields, read by the columns.
old_fields_cases :
    (e : StatusEntry)
    → IsPrintable e
    → (rest : List Text)
    → ((is_two_path_status e.x e.y ≡ true) × (old_fields e.old_path rest ≡ e.old_path ∷ rest))
      ⊎ ((is_two_path_status e.x e.y ≡ false)
          × (old_fields e.old_path rest ≡ rest)
          × (e.old_path ≡ []))
old_fields_cases e h rest = go e.old_path refl
  where
    go :
        (old : Text)
        → e.old_path ≡ old
        → ((is_two_path_status e.x e.y ≡ true) × (old_fields e.old_path rest ≡ e.old_path ∷ rest))
          ⊎ ((is_two_path_status e.x e.y ≡ false)
              × (old_fields e.old_path rest ≡ rest)
              × (e.old_path ≡ []))
    go (c ∷ old) k = inl (IsMove-is_two_path_status e.x e.y (h.old_moved (rw k refl)), rw k refl)
    go [] k = elim (Bool-cases (is_two_path_status e.x e.y)) [
      | inl two ↦ absurd (ground (arith, h.moved_old (is_two_path_status-IsMove e.x e.y two)))
      | inr one ↦ inr (one, rw k refl, k)
    ]

split-print_entries :
    (es : List StatusEntry) → All IsPrintable es → split zero (print_entries es) ≡ fields_of es
unfolding fields_of
split-print_entries [] h = unfold split in refl
split-print_entries (e ∷ es) (he, hes) =
    split-append 0 (e.x ∷ e.y ∷ b' ' ∷ e.path) (old_field e.old_path (print_entries es))
      (he.x_not_nul, (he.y_not_nul, (omega arith, he.path_lacks)))
    ∙ ap (λ r. (e.x ∷ e.y ∷ b' ' ∷ e.path) ∷ r)
        (split-old_field e.old_path (print_entries es) he.old_lacks
          ∙ ap (old_fields e.old_path) (split-print_entries es hes))

module _ (quote : Text → Text) where
  add_all : Status → List StatusEntry → Status
  add_all s [] = s
  add_all s (e ∷ es) = add_all (add_entry quote s e) es

  read_two :
      (s : Status) (f g : Text) (fs : List Text) (x y : ℕ) (path : Text)
      → field_of f ≡ entry_of x y path
      → is_two_path_status x y ≡ true
      → parse_fields quote s (f ∷ g ∷ fs)
        ≡ parse_fields quote (add_entry quote s (moved_entry x y path g)) fs
  unfolding parse_fields double
  read_two s f g fs x y path e two = rw (e, two)

  read_one :
      (s : Status) (f : Text) (fs : List Text) (x y : ℕ) (path : Text)
      → field_of f ≡ entry_of x y path
      → is_two_path_status x y ≡ false
      → parse_fields quote s (f ∷ fs)
        ≡ parse_fields quote (add_entry quote s (plain_entry x y path)) fs
  unfolding parse_fields single
  read_one s f [] x y path e one = rw e
  read_one s f (g ∷ fs) x y path e one = rw (e, one)

  field_of_entry :
      (e : StatusEntry)
      → IsPrintable e
      → field_of (e.x ∷ e.y ∷ b' ' ∷ e.path) ≡ entry_of e.x e.y e.path
  field_of_entry e h = ground arith

  parse-fields_of :
      (s : Status) (es : List StatusEntry)
      → All IsPrintable es
      → parse_fields quote s (fields_of es) ≡ add_all s es
  unfolding fields_of add_all
  parse-fields_of s [] h = unfold parse_fields single in refl
  parse-fields_of s (e ∷ es) (he, hes) = elim (old_fields_cases e he (fields_of es)) [
    | inl (two, k) ↦ rw k (
        read_two s _ e.old_path (fields_of es) e.x e.y e.path (field_of_entry e he) two
        ∙ parse-fields_of (add_entry quote s e) es hes)
    | inr (one, k, no_old) ↦
        let whole : plain_entry e.x e.y e.path ≡ e = λ i. record e { old_path = sym no_old i } in
        ap (λ fs. parse_fields quote s ((e.x ∷ e.y ∷ b' ' ∷ e.path) ∷ fs)) k
        ∙ (read_one s _ (fields_of es) e.x e.y e.path (field_of_entry e he) one
            ∙ ap (λ d. parse_fields quote (add_entry quote s d) (fields_of es)) whole
            ∙ parse-fields_of (add_entry quote s e) es hes)
  ]

  entries-add_all : (s : Status) (es : List StatusEntry) → (add_all s es).entries ≡ s.entries ++ es
  unfolding add_all
  entries-add_all s [] = sym (append-nil s.entries)
  entries-add_all s (e ∷ es) =
      entries-add_all (add_entry quote s e) es
      ∙ ap (λ l. l ++ es) (entries-add_entry quote s e)
      ∙ append_assoc s.entries (e ∷ []) es

  -- Parsing the porcelain output of any entries that git can print gives back those entries, with
  -- their columns, paths and old paths, in order. Git can print an entry if it holds no NUL byte, its
  -- columns are not those of a branch line, and it has an old path exactly if one of its columns says
  -- that the path has been renamed or copied.
  pub parse-print_entries :
      (es : List StatusEntry)
      → All IsPrintable es
      → (parse_status quote (print_entries es)).entries ≡ es
  unfolding parse_status
  parse-print_entries es h =
      ap (λ fs. (parse_fields quote new_status fs).entries) (split-print_entries es h)
      ∙ ap (λ s. s.entries) (parse-fields_of new_status es h)
      ∙ entries-add_all new_status es
