-- ===== src/Mattermost/Visible/Span.antt =====
-- `mattermostCodeSpan`: its delimiter is longer than every run of backticks in the text.
use sexton.Common.{
  ℕ, zero, suc, ◌+◌, ◌≤◌, ◌≡◌, refl, true, false, List, [], ◌∷◌, ◌++◌, ltb, ◌==◌, if◌then◌else◌,
  All, arith, inl, inr, Bool-cases,
}
use mathlib.Core.Path.{subst}
use sexton.Common.Text.{Text, has_prefix}
use sexton.Common.Space.{contains}
use sexton.Mattermost.Visible.{
  put_run, tick_runs, longest_from, longest_run, ticks, quoted, mattermost_code_span, mute,
  visible_mattermost_text,
}
use sexton.Mattermost.Visible.Safe.{IsPrintable, visible-IsPrintable, IsShown, visible_text-IsShown}
use sexton.Mattermost.Runes.{runes}
use sexton.Mattermost.Visible.Neutral.{is_muted, is_muted-append, mute-muted, mute-Printable}
use sexton.Mattermost.Visible.Shown.{mute-Shown}

abbrev AtMost : ℕ → List ℕ → Type 0
AtMost k = All (λ n. n ≤ k)

AtMost-weaken : (j k : ℕ) (ns : List ℕ) → j ≤ k → AtMost j ns → AtMost k ns
AtMost-weaken j k [] h a = tt
AtMost-weaken j k (n ∷ ns) h (hn, a) = (omega arith, AtMost-weaken j k ns h a)

-- The loop finds a bound of all the runs.
longest_from-bound :
    (longest : ℕ) (ns : List ℕ)
    → (longest ≤ longest_from longest ns) × AtMost (longest_from longest ns) ns
unfolding longest_from
longest_from-bound longest [] = (omega arith, tt)
longest_from-bound longest (n ∷ ns) =
    let (x, y) = longest_from-bound (if ltb longest n then n else longest) ns in
    (ground arith, (ground arith, y))

put_run-AtMost : (k n : ℕ) (ns : List ℕ) → AtMost k (put_run n ns) → (n ≤ k) × AtMost k ns
put_run-AtMost k zero ns h = (omega arith, h)
put_run-AtMost k (suc n) ns h = h

-- What a bound of the runs says of a text behind `n` backticks: a run that goes on has no more.
tick_runs-prefix :
    (k j n : ℕ) (s : Text) → AtMost k (tick_runs n s) → has_prefix s (ticks j) ≡ true → n + j ≤ k
unfolding tick_runs has_prefix
tick_runs-prefix k zero n [] h p = let (x, y) = put_run-AtMost k n [] h in omega arith
tick_runs-prefix k (suc j) n [] h p = cc
tick_runs-prefix k zero n (c ∷ s) h p = elim (Bool-cases (c == b'`')) [
  | inl e ↦ ground (arith, tick_runs-prefix k zero (suc n) s)
  | inr e ↦ ground (arith, put_run-AtMost k n (tick_runs 0 s))
]
tick_runs-prefix k (suc j) n (c ∷ s) h p = ground (arith, tick_runs-prefix k j (suc n) s)

tick_runs-next :
    (k n c : ℕ) (s : Text)
    → AtMost k (tick_runs n (c ∷ s))
    → AtMost k (tick_runs (if c == b'`' then suc n else 0) s)
unfolding tick_runs
tick_runs-next k n c s h = elim (Bool-cases (c == b'`')) [
  | inl e ↦ ground arith
  | inr e ↦ ground (arith, put_run-AtMost k n (tick_runs 0 s))
]

tick_runs-contains :
    (k n : ℕ) (s : Text) → AtMost k (tick_runs n s) → contains s (ticks (suc k)) ≡ false
unfolding contains
tick_runs-contains k n [] h = refl
tick_runs-contains k n (c ∷ s) h = elim (Bool-cases (has_prefix (c ∷ s) (ticks (suc k)))) [
  | inl e ↦ absurd (omega (arith, tick_runs-prefix k (suc k) n (c ∷ s) h e))
  | inr e ↦
      ground
        (arith, tick_runs-contains k (if c == b'`' then suc n else 0) s (tick_runs-next k n c s h))
]

longest_run-contains : (s : Text) → contains s (ticks (longest_run s + 1)) ≡ false
unfolding longest_run
longest_run-contains s =
    let (x, bound) = longest_from-bound 0 (tick_runs 0 s) in
    subst (λ n. contains s (ticks n) ≡ false) {x = suc (longest_from 0 (tick_runs 0 s))}
      (omega arith) (tick_runs-contains (longest_from 0 (tick_runs 0 s)) 0 s bound)

ticks-muted : (n : ℕ) → is_muted (ticks n) ≡ true
unfolding is_muted
ticks-muted zero = refl
ticks-muted (suc n) = ground (arith, ticks-muted n)

-- A code span is its quoted text between two delimiters of backticks. The delimiter does not occur
-- in the quoted text. The quoted text is UTF-8 of which no byte is a control character of ASCII and no
-- rune is a control character of Unicode, those of two bytes (U+0080 to U+009F) included. Every `@` of
-- the span is followed by a zero width space.
pub mattermost_code_span_safe :
    (value : Text)
    → (n : ℕ) × (mattermost_code_span value ≡ ticks n ++ (quoted value ++ ticks n))
      × (contains (quoted value) (ticks n) ≡ false)
      × All IsPrintable (quoted value)
      × All IsShown (runes (quoted value))
      × (is_muted (mattermost_code_span value) ≡ true)
unfolding mattermost_code_span quoted
mattermost_code_span_safe value =
    let visible = mute (visible_mattermost_text value) in
    let n = longest_run visible + 1 in
    (
      n,
      refl,
      longest_run-contains visible,
      mute-Printable (visible_mattermost_text value) (visible-IsPrintable value),
      mute-Shown (visible_mattermost_text value) (visible_text-IsShown value),
      is_muted-append (ticks n) (visible ++ ticks n) (ticks-muted n) (
          is_muted-append visible (ticks n) (mute-muted (visible_mattermost_text value))
            (ticks-muted n)),
    )
