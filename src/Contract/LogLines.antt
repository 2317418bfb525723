-- ===== src/Contract/LogLines.antt =====
-- The kinds of log lines, by the regular expressions of packages/contract/src/decode.ts.
use highgarden.Base.{
  ℕ, Bool, true, false, not, Option, none, some, List, [], ◌∷◌, leb, ◌==◌, ◌&&◌, ◌||◌,
  if◌then◌else◌,
}
use highgarden.Contract.Accounts.{same_bytes}
use highgarden.Contract.Text.{codes}

-- The characters that a regular expression's \S does not match.
abbrev pub is_space : ℕ → Bool
is_space c =
    (leb 9 c && leb c 13)
    || c == 32
    || c == 160
    || c == 5760
    || (leb 8192 c && leb c 8202)
    || c == 8232
    || c == 8233
    || c == 8239
    || c == 8287
    || c == 12288
    || c == 65279

abbrev pub is_digit : ℕ → Bool
is_digit c = leb b'0' c && leb c b'9'

-- What stands behind a prefix.
unfoldable pub strip_prefix : List ℕ → List ℕ → Option (List ℕ)
strip_prefix [] line = some line
strip_prefix (p ∷ ps) [] = none
strip_prefix (p ∷ ps) (c ∷ line) = if p == c then strip_prefix ps line else none

-- The longest start of which all characters pass, and the rest.
unfoldable pub span : (ℕ → Bool) → List ℕ → List ℕ × List ℕ
span p [] = ([], [])
span p (c ∷ line) = if p c then (c ∷ (span p line).0, (span p line).1) else ([], c ∷ line)

abbrev pub non_space : ℕ → Bool
non_space c = not (is_space c)

abbrev pub nonempty_word : List ℕ × List ℕ → Option (List ℕ × List ℕ)
nonempty_word ([], after) = none
nonempty_word (c ∷ w, after) = some (c ∷ w, after)

-- The word and the rest behind "Program ".
unfoldable pub program_word : List ℕ → Option (List ℕ × List ℕ)
unfolding strip_prefix span
program_word line = elim (strip_prefix (codes "Program ") line) [
  | none ↦ none
  | some rest ↦ nonempty_word (span non_space rest)
]

-- `\d+\]$`
abbrev pub closes : List ℕ × List ℕ → Bool
closes ([], after) = false
closes (d ∷ ds, after) = same_bytes after (codes "]")

unfoldable pub is_invoke_tail : List ℕ → Bool
unfolding strip_prefix span
is_invoke_tail after = elim (strip_prefix (codes " invoke [") after) [
  | none ↦ false
  | some r ↦ closes (span is_digit r)
]

abbrev pub starts_with : List ℕ → List ℕ → Bool
starts_with p line = elim (strip_prefix p line) [ none ↦ false | some r ↦ true ]

unfoldable pub is_end_tail : List ℕ → Bool
unfolding strip_prefix
is_end_tail after = starts_with (codes " success") after || starts_with (codes " failed") after

abbrev pub invoke_of : Option (List ℕ × List ℕ) → Option (List ℕ)
invoke_of none = none
invoke_of (some (w, after)) = if is_invoke_tail after then some w else none

abbrev pub is_end_of : Option (List ℕ × List ℕ) → Bool
is_end_of none = false
is_end_of (some (w, after)) = is_end_tail after

-- /^Program (\S+) invoke \[\d+\]$/
unfoldable pub match_invoke : List ℕ → Option (List ℕ)
match_invoke line = invoke_of (program_word line)

-- /^Program \S+ (success|failed)/
unfoldable pub match_terminator : List ℕ → Bool
match_terminator line = is_end_of (program_word line)

unfoldable pub match_program_data : List ℕ → Option (List ℕ)
match_program_data line = strip_prefix (codes "Program data: ") line
