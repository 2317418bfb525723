-- ===== src/Contract/Trace.antt =====
-- The log lines of a transaction as the runtime writes them, and the events that the program itself emitted: against
-- `decode_events` of packages/contract/src/decode.ts.
use highgarden.Base.{
  ℕ, ◌≡◌, Bool, true, false, not, Option, none, List, [], ◌∷◌, ◌++◌, ◌==◌, ◌&&◌, ◌||◌, leb,
  if◌then◌else◌, All,
}
use highgarden.Contract.Reader.{Read}
use highgarden.Contract.Accounts.{same_bytes}
use highgarden.Contract.Text.{codes}
use highgarden.Contract.LogLines.{
  is_digit, non_space, starts_with, match_invoke, match_terminator, match_program_data,
}
use highgarden.Contract.Events.{Base64, try_parse_event, pushed_event, is_empty_text}

-- One program's run within a transaction: its id, the digits of its depth, what it logged, emitted and called, and
-- how it ended.
mutual
  pub data Frame : Type 0 where
    frame : List ℕ → List ℕ → Items → Ending → Frame

  pub data Items : Type 0 where
    nil : Items
    logged : List ℕ → Items → Items
    emitted : List ℕ → Items → Items
    called : Frame → Items → Items

  pub data Ending : Type 0 where
    success : Ending
    failed : List ℕ → Ending

abbrev pub invoke_line : List ℕ → List ℕ → List ℕ
invoke_line id depth = codes "Program " ++ (id ++ (codes " invoke [" ++ (depth ++ codes "]")))

abbrev pub ending_line : List ℕ → Ending → List ℕ
ending_line id success = codes "Program " ++ (id ++ codes " success")
ending_line id (failed reason) = codes "Program " ++ (id ++ (codes " failed" ++ reason))

abbrev pub data_line : List ℕ → List ℕ
data_line text = codes "Program data: " ++ text

-- The lines, before the lines that follow.
unfoldable mutual
  pub frame_lines : Frame → List (List ℕ) → List (List ℕ)
  frame_lines (frame id depth items end) rest =
      invoke_line id depth ∷ item_lines items (ending_line id end ∷ rest)

  pub item_lines : Items → List (List ℕ) → List (List ℕ)
  item_lines nil rest = rest
  item_lines (logged line items) rest = line ∷ item_lines items rest
  item_lines (emitted text items) rest = data_line text ∷ item_lines items rest
  item_lines (called f items) rest = frame_lines f (item_lines items rest)

-- A program id is a word; a depth is written in digits.
abbrev pub IsWord : List ℕ → Type 0
IsWord [] = ⊥
IsWord (c ∷ cs) = All (λ d. non_space d ≡ true) (c ∷ cs)

abbrev pub IsDigits : List ℕ → Type 0
IsDigits [] = ⊥
IsDigits (c ∷ cs) = All (λ d. is_digit d ≡ true) (c ∷ cs)

-- A line that a program logs is none of the runtime's own.
pub record IsPlain (line : List ℕ) : Type 0 where
  pub no_invoke : match_invoke line ≡ none
  pub no_end : match_terminator line ≡ false
  pub no_data : match_program_data line ≡ none

abbrev pub is_base64 : ℕ → Bool
is_base64 c =
    (leb b'A' c && leb c b'Z')
    || (leb b'a' c && leb c b'z')
    || is_digit c
    || c == b'+'
    || c == b'/'
    || c == b'='

-- The base64 of what a program emits does not begin like an ending.
pub record IsDataText (text : List ℕ) : Type 0 where
  pub base64 : All (λ c. is_base64 c ≡ true) text
  pub no_success : starts_with (codes "success") text ≡ false
  pub no_failure : starts_with (codes "failed") text ≡ false

unfoldable mutual
  pub IsFrame : Frame → Type 0
  IsFrame (frame id depth items end) = IsWord id × IsDigits depth × AreItems items

  pub AreItems : Items → Type 0
  AreItems nil = Unit
  AreItems (logged line items) = IsPlain line × AreItems items
  AreItems (emitted text items) = IsDataText text × AreItems items
  AreItems (called f items) = IsFrame f × AreItems items

-- The events that the frames of the program emitted, in order.
module _ {A : Type 0} (from_base64 : Base64) (id disc : List ℕ) (parse : Read A) where
  abbrev pub emitted_event : List ℕ → List ℕ → Option A
  emitted_event owner text =
      if is_empty_text text
      then none
      else if not (same_bytes owner id)
      then none
      else try_parse_event from_base64 text disc parse

  unfoldable mutual
    pub frame_events : Frame → List A → List A
    frame_events (frame owner depth items end) es = item_events owner items es

    pub item_events : List ℕ → Items → List A → List A
    item_events owner nil es = es
    item_events owner (logged line items) es = item_events owner items es
    item_events owner (emitted text items) es =
        pushed_event (emitted_event owner text) (item_events owner items es)
    item_events owner (called f items) es = frame_events f (item_events owner items es)
