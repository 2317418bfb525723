-- ===== src/Contract/Lines.antt =====
-- What the regular expressions of packages/contract/src/decode.ts make of the lines of the runtime.
use highgarden.Base.{
  ℕ, ◌≡◌, refl, ap, subst, ◌∙◌, Bool, true, false, Bool-cases, Option-cases, inl, inr, Option, none,
  some, List, [], ◌∷◌, ◌++◌, ◌==◌, ==_iff, ◌||◌, if◌then◌else◌, All,
}
use highgarden.Contract.Text.{codes}
use highgarden.Contract.LogLines.{
  is_digit, non_space, strip_prefix, span, program_word, closes, is_invoke_tail, starts_with,
  is_end_tail, invoke_of, is_end_of, match_invoke, match_terminator, match_program_data,
}
use highgarden.Contract.Trace.{
  Ending, success, failed, invoke_line, ending_line, data_line, IsWord, IsDigits, IsDataText,
  is_base64,
}

span_stops :
    (p : ℕ → Bool) (w : List ℕ) (c : ℕ) (rest : List ℕ)
    → All (λ d. p d ≡ true) w
    → p c ≡ false
    → span p (w ++ (c ∷ rest)) ≡ (w, c ∷ rest)
unfolding span
span_stops p [] c rest h stop = rw stop refl
span_stops p (d ∷ w) c rest h stop = rw (h.0, span_stops p w c rest h.1 stop) refl

-- A line of the form "Program <word> …".
program_word_lem :
    (id after : List ℕ)
    → IsWord id
    → program_word (codes "Program " ++ (id ++ (32 ∷ after))) ≡ some (id, 32 ∷ after)
unfolding program_word strip_prefix
program_word_lem [] after h = absurd h
program_word_lem (c ∷ id) after h = rw (span_stops non_space (c ∷ id) 32 after h refl) refl

invoke_tail :
    (depth : List ℕ)
    → IsDigits depth
    → is_invoke_tail (codes " invoke [" ++ (depth ++ codes "]")) ≡ true
unfolding is_invoke_tail strip_prefix
invoke_tail [] h = absurd h
invoke_tail (d ∷ depth) h = rw (span_stops is_digit (d ∷ depth) b']' [] h refl) refl

pub match_invoke-invoke_line :
    (id depth : List ℕ) → IsWord id → IsDigits depth → match_invoke (invoke_line id depth) ≡ some id
unfolding match_invoke
match_invoke-invoke_line id depth w d =
    ap invoke_of (program_word_lem id (codes "invoke [" ++ (depth ++ codes "]")) w)
    ∙ ap (λ b. if b then some id else none) (invoke_tail depth d)

pub match_invoke-ending_line :
    (id : List ℕ) (end : Ending) → IsWord id → match_invoke (ending_line id end) ≡ none
unfolding match_invoke is_invoke_tail strip_prefix
match_invoke-ending_line id success w = ap invoke_of (program_word_lem id (codes "success") w)
match_invoke-ending_line id (failed reason) w =
    ap invoke_of (program_word_lem id (codes "failed" ++ reason) w)

pub match_terminator-ending_line :
    (id : List ℕ) (end : Ending) → IsWord id → match_terminator (ending_line id end) ≡ true
unfolding match_terminator is_end_tail strip_prefix
match_terminator-ending_line id success w = ap is_end_of (program_word_lem id (codes "success") w)
match_terminator-ending_line id (failed reason) w =
    ap is_end_of (program_word_lem id (codes "failed" ++ reason) w)

strip_prefix-some : (p xs r : List ℕ) → strip_prefix p xs ≡ some r → xs ≡ p ++ r
unfolding strip_prefix
strip_prefix-some [] xs r h = cc
strip_prefix-some (c ∷ p) [] r h = cc
strip_prefix-some (c ∷ p) (x ∷ xs) r h = elim (Bool-cases (c == x)) [
  | inl e ↦ let rest = strip_prefix-some p xs r (rw e at h) in let same = (==_iff c x).0 e in cc
  | inr e ↦ (let h' = rw e at h in cc)
]

All-prefix : (P : ℕ → Type 0) (p r : List ℕ) → All P (p ++ r) → All P p
All-prefix P [] r h = tt
All-prefix P (c ∷ p) r h = (h.0, All-prefix P p r h.1)

-- Base64 has no spaces.
no_invoke_prefix :
    (text r : List ℕ) → IsDataText text → strip_prefix (codes "invoke [") text ≡ some r → ⊥
no_invoke_prefix text r h e =
    let whole =
      subst (All (λ c. is_base64 c ≡ true)) (strip_prefix-some (codes "invoke [") text r e)
        h.base64 in
    let parts = All-prefix (λ c. is_base64 c ≡ true) (codes "invoke [") r whole in
    let space : false ≡ true = parts.1.1.1.1.1.1.0 in cc

no_invoke_tail : (text : List ℕ) → IsDataText text → is_invoke_tail (codes " " ++ text) ≡ false
unfolding is_invoke_tail strip_prefix
no_invoke_tail text h = elim (Option-cases (strip_prefix (codes "invoke [") text)) [
  | inl e ↦
      ap (λ (o : Option (List ℕ)). elim o [ none ↦ false | some r ↦ closes (span is_digit r) ]) e
  | inr (r, e) ↦ absurd (no_invoke_prefix text r h e)
]

pub match_invoke-data_line :
    (text : List ℕ) → IsDataText text → match_invoke (data_line text) ≡ none
unfolding match_invoke program_word strip_prefix span
match_invoke-data_line text h =
    ap (λ b. if b then some (codes "data:") else none) (no_invoke_tail text h)

pub match_terminator-data_line :
    (text : List ℕ) → IsDataText text → match_terminator (data_line text) ≡ false
unfolding match_terminator program_word is_end_tail strip_prefix span
match_terminator-data_line text h =
    ap (λ b. b || starts_with (codes "failed") text) h.no_success ∙ h.no_failure

pub match_program_data-data_line : (text : List ℕ) → match_program_data (data_line text) ≡ some text
unfolding match_program_data strip_prefix
match_program_data-data_line text = refl
