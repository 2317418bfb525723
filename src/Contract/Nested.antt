-- ===== src/Contract/Nested.antt =====
-- The events of a transaction: `decode_events` of packages/contract/src/decode.ts on the lines of nested calls.
use highgarden.Base.{ℕ, ◌≡◌, refl, ap, ◌∙◌, true, none, some, List, [], ◌∷◌}
use highgarden.Contract.Reader.{Read}
use highgarden.Contract.Events.{Base64, pushed_event, pop, decode_from, decode_events}
use highgarden.Contract.LogLines.{match_invoke, match_terminator}
use highgarden.Contract.Trace.{
  Frame, Items, frame, nil, logged, emitted, called, frame_lines, item_lines, invoke_line,
  ending_line, data_line, IsPlain, IsDataText, IsFrame, AreItems, emitted_event, frame_events,
  item_events,
}
use highgarden.Contract.Lines.{
  match_invoke-invoke_line, match_invoke-ending_line, match_terminator-ending_line,
  match_invoke-data_line, match_terminator-data_line, match_program_data-data_line,
}

module _ {A : Type 0} (from_base64 : Base64) (id disc : List ℕ) (parse : Read A) where
  -- A line, by what the three expressions make of it.
  on_invoke :
      (stack : List (List ℕ)) (line w : List ℕ) (lines : List (List ℕ))
      → match_invoke line ≡ some w
      → decode_from from_base64 id disc parse stack (line ∷ lines)
        ≡ decode_from from_base64 id disc parse (w ∷ stack) lines
  unfolding decode_from
  on_invoke stack line w lines e = rw (e, decode_from) refl

  on_end :
      (stack : List (List ℕ)) (line : List ℕ) (lines : List (List ℕ))
      → match_invoke line ≡ none
      → match_terminator line ≡ true
      → decode_from from_base64 id disc parse stack (line ∷ lines)
        ≡ decode_from from_base64 id disc parse (pop stack) lines
  unfolding decode_from
  on_end stack line lines e f = rw (e, decode_from) (rw (f, decode_from) refl)

  on_plain :
      (stack : List (List ℕ)) (line : List ℕ) (lines : List (List ℕ))
      → IsPlain line
      → decode_from from_base64 id disc parse stack (line ∷ lines)
        ≡ decode_from from_base64 id disc parse stack lines
  unfolding decode_from
  on_plain stack line lines h =
      rw (h.no_invoke, decode_from) (rw (h.no_end, decode_from) (rw (h.no_data, decode_from) refl))

  on_data :
      (owner text : List ℕ) (stack lines : List (List ℕ))
      → IsDataText text
      → decode_from from_base64 id disc parse (owner ∷ stack) (data_line text ∷ lines)
        ≡ pushed_event
            (emitted_event from_base64 id disc parse owner text)
            (decode_from from_base64 id disc parse (owner ∷ stack) lines)
  unfolding decode_from
  on_data owner text stack lines h =
      rw (match_invoke-data_line text h, decode_from)
        (rw (match_terminator-data_line text h, decode_from)
          (rw (match_program_data-data_line text, decode_from) refl))

  mutual
    unfolding frame_lines item_lines frame_events item_events IsFrame AreItems

    decode_from-frame_lines :
        (f : Frame) (stack lines : List (List ℕ))
        → IsFrame f
        → decode_from from_base64 id disc parse stack (frame_lines f lines)
          ≡ frame_events from_base64 id disc parse f
              (decode_from from_base64 id disc parse stack lines)
    decode_from-frame_lines (frame owner depth items end) stack lines h =
        on_invoke stack (invoke_line owner depth) owner
          (item_lines items (ending_line owner end ∷ lines))
          (match_invoke-invoke_line owner depth h.0 h.1)
        ∙ decode_from-item_lines owner items stack (ending_line owner end ∷ lines) h.2
        ∙ ap (item_events from_base64 id disc parse owner items) (
            on_end (owner ∷ stack) (ending_line owner end) lines
              (match_invoke-ending_line owner end h.0) (match_terminator-ending_line owner end h.0))

    decode_from-item_lines :
        (owner : List ℕ) (items : Items) (stack lines : List (List ℕ))
        → AreItems items
        → decode_from from_base64 id disc parse (owner ∷ stack) (item_lines items lines)
          ≡ item_events from_base64 id disc parse owner items
              (decode_from from_base64 id disc parse (owner ∷ stack) lines)
    decode_from-item_lines owner nil stack lines h = refl
    decode_from-item_lines owner (logged line items) stack lines h =
        on_plain (owner ∷ stack) line (item_lines items lines) h.0
        ∙ decode_from-item_lines owner items stack lines h.1
    decode_from-item_lines owner (emitted text items) stack lines h =
        on_data owner text stack (item_lines items lines) h.0
        ∙ ap (pushed_event (emitted_event from_base64 id disc parse owner text))
            (decode_from-item_lines owner items stack lines h.1)
    decode_from-item_lines owner (called f items) stack lines h =
        decode_from-frame_lines f (owner ∷ stack) (item_lines items lines) h.0
        ∙ ap (frame_events from_base64 id disc parse f)
            (decode_from-item_lines owner items stack lines h.1)

-- The lines of a transaction's top-level instructions, and the events among them.
abbrev pub transaction_lines : List Frame → List (List ℕ)
transaction_lines [] = []
transaction_lines (f ∷ fs) = frame_lines f (transaction_lines fs)

abbrev pub transaction_events :
    {A : Type 0} → Base64 → List ℕ → List ℕ → Read A → List Frame → List A
transaction_events from_base64 id disc parse [] = []
transaction_events from_base64 id disc parse (f ∷ fs) =
    frame_events from_base64 id disc parse f (transaction_events from_base64 id disc parse fs)

abbrev pub AreFrames : List Frame → Type 0
AreFrames [] = Unit
AreFrames (f ∷ fs) = IsFrame f × AreFrames fs

-- On the log of a transaction, however its programs call one another, the decoder gives the events that parse out of
-- the data emitted by the runs of the program itself, in order, and none of another program's; provided that program
-- ids are words, depths are digits, no program logs a text that reads as one of the runtime's own lines, and no
-- emitted base64 begins with "success" or "failed".
pub decode_events-transaction_lines :
    {A : Type 0} (from_base64 : Base64) (id disc : List ℕ) (parse : Read A) (fs : List Frame)
    (valid : AreFrames fs)
    → decode_events from_base64 id disc parse (transaction_lines fs)
      ≡ transaction_events from_base64 id disc parse fs
unfolding decode_events
decode_events-transaction_lines from_base64 id disc parse [] valid = unfold decode_from in refl
decode_events-transaction_lines from_base64 id disc parse (f ∷ fs) valid =
    decode_from-frame_lines from_base64 id disc parse f [] (transaction_lines fs) valid.0
    ∙ ap (frame_events from_base64 id disc parse f)
        (decode_events-transaction_lines from_base64 id disc parse fs valid.1)
