-- ===== src/Worker/Shell.antt =====
-- `shellQuote` of apps/worker/src/backup-runner.ts, and how a shell reads one word that is made of
-- single quotes and escaped characters.
use simple_host_man.Prelude.Text.{codes, Text}
use simple_host_man.Prelude.{
  ==_iff, ◌==◌, refl, sym, ap, ◌≡◌, inl, inr, ℕ, true, false, Option, none, some, [], ◌∷◌, ◌++◌,
  if◌then◌else◌, Bool-cases,
}

abbrev escape_quotes : Text → Text
escape_quotes [] = []
escape_quotes (c ∷ s) = if c == b'\'' then codes "'\\''" ++ escape_quotes s else c ∷ escape_quotes s

unfoldable pub shell_quote : Text → Text
shell_quote value = b'\'' ∷ (escape_quotes value ++ codes "'")

-- What a shell makes of the text: within single quotes every character stands for itself, outside
-- them a backslash keeps the next character, and any other character would end the word or have a
-- meaning of its own, for which the reading is `none`.
abbrev put : ℕ → Option Text → Option Text
put c none = none
put c (some s) = some (c ∷ s)

pub data ShellState : Type 0 where
  outside escaped quoted : ShellState

unfoldable pub read_word : ShellState → Text → Option Text
read_word outside [] = some []
read_word outside (c ∷ s) = elim (c == b'\'') [
  | true ↦ read_word quoted s
  | false ↦ elim (c == b'\\') [ true ↦ read_word escaped s | false ↦ none ]
]
read_word escaped [] = none
read_word escaped (c ∷ s) = put c (read_word outside s)
read_word quoted [] = none
read_word quoted (c ∷ s) = elim (c == b'\'') [
  | true ↦ read_word outside s
  | false ↦ put c (read_word quoted s)
]

read_word-escape_quotes :
    (s : Text) → read_word ShellState.quoted (escape_quotes s ++ codes "'") ≡ some s
unfolding read_word
read_word-escape_quotes [] = refl
read_word-escape_quotes (c ∷ s) = elim (Bool-cases (c == b'\'')) [
  | inl e ↦
      rw e (rw (read_word-escape_quotes s) (ap (λ d. some (d ∷ s)) (sym ((==_iff c b'\'').0 e))))
  | inr e ↦ rw e (rw (e, read_word) (rw (read_word-escape_quotes s) refl))
]

-- A shell reads a quoted text as one word, the text itself, whatever characters it has.
pub read_word-shell_quote :
    (value : Text) → read_word ShellState.outside (shell_quote value) ≡ some value
unfolding read_word shell_quote
read_word-shell_quote value = read_word-escape_quotes value
