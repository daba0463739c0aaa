-- ===== src/Mattermost/Format/Table.antt =====
-- The table of `FormatStatus` as the lines and the cells that it has.
use sexton.Common.{
  length, append_assoc, ap, ◌∙◌, ℕ, suc, ◌+◌, ◌<◌, ◌≡◌, ◌≢◌, refl, Bool, true, false, not, ◌&&◌,
  List, [], ◌∷◌, ◌++◌, map, ◌==◌, if◌then◌else◌, All, All-append, arith, inl, inr, Bool-cases,
}
use sexton.Common.Duration.{Time, Duration}
use sexton.Common.Text.{Text, codes, split, split-append, split_one, Lacks, decimal-All, decimal}
use mathlib.Core.Path.{subst, sym}
use sexton.Format.{
  duration_ago, duration_ago_bounds, time_ago, since, suffix, TimeUnit, seconds, minutes, hours,
  days,
}
use sexton.Mattermost.Visible.{neutral_mattermost_text, is_markup}
use sexton.Mattermost.Visible.Safe.{IsPrintable}
use sexton.Mattermost.Visible.Neutral.{is_neutral, neutral_mattermost_text-IsPrintable}
use sexton.Mattermost.Format.{
  RepoStatus, shown_time, shown_detail, shown_state, format_row, format_rows, table_title,
  table_rule, table_end, format_status,
}

-- How many bars a line has that stand behind no backslash of their own; the first argument tells
-- whether the next byte does.
unfoldable pub bars : Bool → Text → ℕ
bars escaped [] = 0
bars escaped (c ∷ s) =
    let rest = bars (not escaped && c == b'\\') s in
    if not escaped && c == b'|' then suc rest else rest

-- A text that stays in its cell.
abbrev IsCell : Text → Type 0
IsCell s = All IsPrintable s × (is_neutral false s ≡ true)

bars-neutral : (e : Bool) (s t : Text) → is_neutral e s ≡ true → bars e (s ++ t) ≡ bars false t
unfolding bars is_neutral is_markup
bars-neutral false [] t h = refl
bars-neutral true [] t h = cc
bars-neutral true (c ∷ s) t h = ground (arith, bars-neutral false s t)
bars-neutral false (c ∷ s) t h = ground (arith, bars-neutral (c == b'\\') s t)

neutral-IsCell : (value : Text) → IsCell (neutral_mattermost_text value)
neutral-IsCell value = let (x, shown, y, z) = neutral_mattermost_text-IsPrintable value in (x, y)

-- The bytes of a text that needs no escapes.
abbrev IsWord : ℕ → Type 0
IsWord c = IsPrintable c × (c ≢ b'@') × (is_markup c ≡ false)

word-IsCell : (s : Text) → All IsWord s → IsCell s
unfolding is_neutral is_markup
word-IsCell [] h = (tt, refl)
word-IsCell (c ∷ s) ((p, a, m), h) = let (x, y) = word-IsCell s h in ((p, x), ground arith)

digit-IsWord : (d : ℕ) → d < 10 → IsWord (b'0' + d)
unfolding is_markup
digit-IsWord d h = ground arith

suffix-IsWord : (unit : TimeUnit) → All IsWord (suffix unit)
unfolding suffix is_markup
suffix-IsWord seconds = ground arith
suffix-IsWord minutes = ground arith
suffix-IsWord hours = ground arith
suffix-IsWord days = ground arith

duration_ago-IsWord : (d : Duration) → All IsWord (duration_ago d)
duration_ago-IsWord d =
    let (n, unit, shown, low, high, room) = duration_ago_bounds d in
    subst (All IsWord) (sym shown) (
      All-append IsWord (decimal n) (suffix unit) (decimal-All IsWord n digit-IsWord)
        (suffix-IsWord unit))

shown_time-IsCell : (now t : Time) → IsCell (shown_time now t)
unfolding shown_time time_ago
shown_time-IsCell now t = elim (Bool-cases (t == 0)) [
  | inl e ↦ rw e (word-IsCell [] tt)
  | inr e ↦ rw e (word-IsCell (duration_ago (since now t)) (duration_ago-IsWord (since now t)))
]

Printable-Lacks : (s : Text) → All IsPrintable s → Lacks b'\n' s
Printable-Lacks [] h = tt
Printable-Lacks (c ∷ s) ((hc, k), h) = (λ e. omega arith, Printable-Lacks s h)

-- A line of cells between bars.
line : List Text → Text
line [] = codes "|"
line (a ∷ cells) = codes "| " ++ (a ++ b' ' ∷ line cells)

-- What a line of the table is: no end of line, and the seven bars of six cells.
abbrev pub IsRow : Text → Type 0
IsRow row = Lacks b'\n' row × (bars false row ≡ 7)

line-bars : (cells : List Text) → All IsCell cells → bars false (line cells) ≡ length cells + 1
unfolding line bars
line-bars [] h = refl
line-bars (a ∷ cells) ((x, y), h) =
    ground (arith, bars-neutral false a (b' ' ∷ line cells) y, line-bars cells h)

line-Lacks : (cells : List Text) → All IsCell cells → Lacks b'\n' (line cells)
unfolding line
line-Lacks [] h = (λ e. omega arith, tt)
line-Lacks (a ∷ cells) ((x, y), h) =
    let rest : Lacks b'\n' (b' ' ∷ line cells) = (λ e. omega arith, line-Lacks cells h) in
    let here = All-append (λ c. c ≢ b'\n') a (b' ' ∷ line cells) (Printable-Lacks a x) rest in
    (λ e. omega arith, ((λ e. omega arith), here))

table_end-Lacks : (version : Text) → Lacks b'\n' version → Lacks b'\n' (table_end version)
table_end-Lacks version h =
    All-append (λ c. c ≢ b'\n') (codes "_sexton ") (version ++ codes "_") (omega arith)
      (All-append (λ c. c ≢ b'\n') version (codes "_") h (omega arith))

module _ (show_duration : ℕ → Text) (now : Time) where
  row_cells : RepoStatus → List Text
  row_cells s =
      neutral_mattermost_text s.name
      ∷ neutral_mattermost_text (shown_state show_duration s)
      ∷ neutral_mattermost_text s.branch
      ∷ shown_time now s.last_sync
      ∷ shown_time now s.last_change
      ∷ neutral_mattermost_text (shown_detail s)
      ∷ []

  format_row-line : (s : RepoStatus) → format_row show_duration now s ≡ line (row_cells s)
  unfolding format_row line row_cells
  format_row-line s = refl

  row_cells-IsCell : (s : RepoStatus) → All IsCell (row_cells s)
  unfolding row_cells
  row_cells-IsCell s = (
    neutral-IsCell s.name,
    (
      neutral-IsCell (shown_state show_duration s),
      (
        neutral-IsCell s.branch,
        (
          shown_time-IsCell now s.last_sync,
          (shown_time-IsCell now s.last_change, (neutral-IsCell (shown_detail s), tt)),
        ),
      ),
    ),
  )

  format_row-IsRow : (s : RepoStatus) → IsRow (format_row show_duration now s)
  format_row-IsRow s =
      rw (format_row-line s) (line-Lacks (row_cells s) (row_cells-IsCell s), six_bars)
    where
      six_bars : bars false (line (row_cells s)) ≡ 7
      six_bars = unfold row_cells in line-bars (row_cells s) (row_cells-IsCell s)

  rows-IsRow : (ss : List RepoStatus) → All IsRow (map (format_row show_duration now) ss)
  rows-IsRow [] = tt
  rows-IsRow (s ∷ ss) = (format_row-IsRow s, rows-IsRow ss)

  split-rows :
      (ss : List RepoStatus) (rest : Text)
      → split b'\n' (format_rows show_duration now ss ++ rest)
        ≡ map (format_row show_duration now) ss ++ split b'\n' rest
  unfolding format_rows
  split-rows [] rest = refl
  split-rows (s ∷ ss) rest =
      let (lacks, count) = format_row-IsRow s in
      let row = format_row show_duration now s in
      rw (append_assoc row (b'\n' ∷ format_rows show_duration now ss) rest) (
        split-append b'\n' row (format_rows show_duration now ss ++ rest) lacks
        ∙ ap (λ u. row ∷ u) (split-rows ss rest))

  -- The table of some repositories has one line for each of them, in order, behind its two lines of
  -- titles and in front of an empty line and the version, whatever the names, states, branches and
  -- details are, if the version has no end of line. Every such line has exactly seven bars that
  -- nothing escapes, so that a cell ends where the program ends it.
  pub format_status-lines :
      (version : Text) (s : RepoStatus) (ss : List RepoStatus)
      → Lacks b'\n' version
      → (split b'\n' (format_status show_duration version now (s ∷ ss))
          ≡ table_title
            ∷ table_rule
            ∷ (map (format_row show_duration now) (s ∷ ss) ++ ([] ∷ table_end version ∷ [])))
        × All IsRow (map (format_row show_duration now) (s ∷ ss))
  unfolding format_status
  format_status-lines version s ss h =
      let rows = format_rows show_duration now (s ∷ ss) in
      let tail =
        split-append b'\n' [] (table_end version) tt
        ∙ ap (λ u. [] ∷ u) (split_one b'\n' (table_end version) (table_end-Lacks version h)) in
      (
        split-append b'\n' table_title (table_rule ++ b'\n' ∷ (rows ++ b'\n' ∷ table_end version))
              (omega arith)
            ∙ ap (λ u. table_title ∷ u)
                (split-append b'\n' table_rule (rows ++ b'\n' ∷ table_end version) (omega arith)
                  ∙ ap (λ u. table_rule ∷ u)
                      (split-rows (s ∷ ss) (b'\n' ∷ table_end version)
                        ∙ ap (λ u. map (format_row show_duration now) (s ∷ ss) ++ u) tail)),
        rows-IsRow (s ∷ ss),
      )
