-- ===== src/Git/Quote.antt =====
-- `shellQuote` and `buildSSHCommand` of internal/git/git.go, and how a POSIX shell reads a quoted
-- word back.
use sexton.Common.{
  ℕ, ◌≡◌, refl, ap, ◌∙◌, append_assoc, Option, none, some, [], ◌∷◌, ◌++◌, Bool-cases, inl, inr,
  ==_iff, ◌==◌, if◌then◌else◌,
}
use sexton.Common.Text.{Text, codes, drop}

-- `strings.ReplaceAll(s, "'", "'\\''")`.
replace_quotes : Text → Text
replace_quotes [] = []
replace_quotes (c ∷ s) =
    let rest = replace_quotes s in
    if c == b'\'' then b'\'' ∷ b'\\' ∷ b'\'' ∷ b'\'' ∷ rest else c ∷ rest

-- `shellQuote`.
shell_quote : Text → Text
unfolding replace_quotes
shell_quote s = b'\'' ∷ (replace_quotes s ++ b'\'' ∷ [])

-- `buildSSHCommand`.
build_ssh_command : Text → Text
unfolding shell_quote
build_ssh_command key = codes "ssh -i " ++ (shell_quote key ++ codes " -o IdentitiesOnly=yes")

-- How `sh` reads a word made of single-quoted parts and escaped bytes: the state says whether a
-- quote is open. The word ends at a space, with what follows it; an unquoted byte is refused.
pub data ShState : Type 0 where
  bare quoted escaped : ShState

abbrev prepend : ℕ → Option (Text × Text) → Option (Text × Text)
prepend c none = none
prepend c (some (w, rest)) = some (c ∷ w, rest)

sh_word_from : ShState → Text → Option (Text × Text)
sh_word_from bare [] = some ([], [])
sh_word_from quoted [] = none
sh_word_from escaped [] = none
sh_word_from bare (c ∷ s) =
    let open_quote = sh_word_from quoted s in
    let escape = sh_word_from escaped s in
    if c == b'\''
    then open_quote
    else if c == b'\\'
    then escape
    else if c == b' '
    then some ([], s)
    else none
sh_word_from quoted (c ∷ s) =
    let close = sh_word_from bare s in
    let more = prepend c (sh_word_from quoted s) in if c == b'\'' then close else more
sh_word_from escaped (c ∷ s) = prepend c (sh_word_from bare s)

sh_word : Text → Option (Text × Text)
unfolding sh_word_from
sh_word s = sh_word_from bare s

-- Inside the quotes, the replaced text is read as the text.
sh_word-replace_quotes :
    (s rest : Text) → sh_word_from quoted (replace_quotes s ++ b'\'' ∷ b' ' ∷ rest) ≡ some (s, rest)
unfolding sh_word_from replace_quotes
sh_word-replace_quotes [] rest = refl
sh_word-replace_quotes (c ∷ s) rest = elim (Bool-cases (c == b'\'')) [
  | inl e ↦ rw e (ap (prepend b'\'') (sh_word-replace_quotes s rest) ∙ rw ((==_iff c b'\'').0 e))
  | inr e ↦ rw e (rw e (ap (prepend c) (sh_word-replace_quotes s rest)))
]

-- A shell that reads a quoted word before a space reads the text itself and stops at that space:
-- whatever bytes the text holds, none of them ends the word or is read as syntax.
sh_word-shell_quote : (s rest : Text) → sh_word (shell_quote s ++ b' ' ∷ rest) ≡ some (s, rest)
unfolding sh_word shell_quote sh_word_from
sh_word-shell_quote s rest =
    ap (λ t. sh_word_from quoted t) (append_assoc (replace_quotes s) (b'\'' ∷ []) (b' ' ∷ rest))
    ∙ sh_word-replace_quotes s rest

-- Behind the program name and the option, the command built for a key file holds that file's path
-- as one word, followed by the option that keeps other keys out.
key_of_ssh_command :
    (key : Text)
    → sh_word (drop 7 (build_ssh_command key)) ≡ some (key, codes "-o IdentitiesOnly=yes")
unfolding build_ssh_command
key_of_ssh_command key = sh_word-shell_quote key (codes "-o IdentitiesOnly=yes")
