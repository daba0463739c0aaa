-- ===== src/Mattermost/Commands/Trigger.antt =====
-- When `StripTriggerWord` finds a command, and when its slice is out of range.
use sexton.Common.{
  ℕ, zero, suc, ◌<◌, ◌≤◌, ◌≡◌, ◌≢◌, ◌↔◌, refl, true, ◌||◌, Option, none, some, List, [], ◌∷◌, ◌==◌,
  length, any, All, arith, inl, inr, Bool-cases, Option-cases,
}
use sexton.Common.Space.{trim_space}
use sexton.Common.Text.{Text, has_prefix, elem, same_refl}
use sexton.Mattermost.Commands.{
  matched, panicked, slice_from, at_boundary, strip_word, strip_trigger_word,
}

slice_from-none : (n : ℕ) (s : Text) → (slice_from n s ≡ none) ↔ (length s < n)
unfolding slice_from
slice_from-none zero s = ground arith
slice_from-none (suc n) [] = ground arith
slice_from-none (suc n) (c ∷ s) = ground (arith, slice_from-none n s)

-- The rest of a text behind its trigger word: nothing, or something behind white space.
abbrev IsBounded : Text → Type 0
IsBounded [] = Unit
IsBounded (c ∷ rest) = (c == b' ' || c == b'\t') ≡ true

prefix_length_le : (s p : Text) → has_prefix s p ≡ true → length p ≤ length s
unfolding has_prefix
prefix_length_le s [] h = omega arith
prefix_length_le [] (c ∷ p) h = cc
prefix_length_le (d ∷ s) (c ∷ p) h = ground (arith, prefix_length_le s p)

module _ (lower : Text → Text) where
  -- The slice behind a trigger word is out of range exactly if the message and the word agree in
  -- lower case up to the length of the lower word, and the message has fewer bytes than the word.
  pub strip_word-panicked :
      (text word : Text)
      → (strip_word lower text word ≡ some panicked)
        ↔ ((has_prefix (lower text) (lower word) ≡ true) × (length text < length word))
  unfolding strip_word at_boundary
  strip_word-panicked text word = ground (arith, slice_from-none (length word) text)

  -- What it means that a word calls the program: the lower case of the word stands in front of that
  -- of the message, and behind as many bytes as the word has there is nothing or white space; what is
  -- called is the rest, trimmed.
  abbrev Calls : Text → Text → Text → Type 0
  Calls text t word =
      (has_prefix (lower text) (lower word) ≡ true)
      × ((rest : Text) × (slice_from (length word) text ≡ some rest)
          × IsBounded rest
          × (t ≡ trim_space rest))

  boundary :
      (text word : Text) (o : Option Text) (t : Text)
      → at_boundary o ≡ some (matched t)
      → (rest : Text) × (o ≡ some rest) × IsBounded rest × (t ≡ trim_space rest)
  unfolding at_boundary trim_space
  boundary text word none t h = cc
  boundary text word (some []) t h = ([], refl, tt, cc)
  boundary text word (some (c ∷ rest)) t h = (c ∷ rest, refl, ground arith, ground arith)

  strip_word-matched :
      (text word t : Text) → strip_word lower text word ≡ some (matched t) → Calls text t word
  unfolding strip_word
  strip_word-matched text word t h = elim (Bool-cases (has_prefix (lower text) (lower word))) [
    | inl e ↦ (e, boundary text word (slice_from (length word) text) t (ground arith))
    | inr e ↦ absurd (ground arith)
  ]

  -- A command that `StripTriggerWord` finds is called by one of the trigger words.
  strip_trigger_word-matched :
      (text : Text) (words : List Text) (t : Text)
      → strip_trigger_word lower text words ≡ matched t
      → (word : Text) × (elem word words ≡ true) × Calls text t word
  unfolding strip_trigger_word elem any
  strip_trigger_word-matched text [] t h = cc
  strip_trigger_word-matched text (word ∷ words) t h =
      elim (Option-cases (strip_word lower text word)) [
        | inl e ↦
            let (other, found, calls) = strip_trigger_word-matched text words t (ground arith) in
            (other, ground arith, calls)
        | inr (s, e) ↦
            (word, rw (same_refl word) refl, strip_word-matched text word t (ground arith))
      ]

  -- If the lower case of a message is no longer than the message, and that of every trigger word as
  -- long as the word, as it is for ASCII, no slice is out of range.
  strip_trigger_word-safe :
      (text : Text) (words : List Text)
      → length (lower text) ≤ length text
      → All (λ word. length (lower word) ≡ length word) words
      → strip_trigger_word lower text words ≢ panicked
  unfolding strip_trigger_word
  strip_trigger_word-safe text [] h k = λ e. cc
  strip_trigger_word-safe text (word ∷ words) h (hw, k) = λ e.
      elim (Option-cases (strip_word lower text word)) [
        | inl n ↦ strip_trigger_word-safe text words h k (ground arith)
        | inr (s, n) ↦
            let (prefix, short) = (strip_word-panicked text word).0 (ground arith) in
            absurd (omega (arith, prefix_length_le (lower text) (lower word) prefix))
      ]
