-- ===== src/Hedger/Cursor.antt =====
-- Where the hedger is on the chain: apps/hedger/db/cursor.ts.
--
-- The write of `advance` is a step of its own, since the listener and the poller both call it: writes that have
-- begun land in any order, or fail.
use highgarden.Base.{
  ℕ, zero, suc, Bool, false, Option, none, some, List, [], ◌∷◌, leb, if◌then◌else◌,
}

-- The singleton row.
pub record BotCursor : Type 0 where
  pub last_processed_slot : Option ℕ
  pub last_processed_signature : Option ℕ
  pub live_stream_connected_at : Option ℕ
  pub live_stream_disconnected_at : Option ℕ
  pub poller_last_run_at : Option ℕ

abbrev pub seeded : BotCursor
seeded = record {
  last_processed_slot = none;
  last_processed_signature = none;
  live_stream_connected_at = none;
  live_stream_disconnected_at = none;
  poller_last_run_at = none;
}

-- A write of `advance` that has begun.
pub record CursorWrite : Type 0 where
  pub to_slot : ℕ
  pub to_signature : ℕ

-- The object's fields, the row, if there is one, and the writes under way.
pub record Cursor : Type 0 where
  pub slot : Option ℕ
  pub signature : Option ℕ
  pub row : Option BotCursor
  pub writes : List CursorWrite

abbrev pub row_or_seed : Option BotCursor → BotCursor
row_or_seed none = seeded
row_or_seed (some r) = r

unfoldable pub load : Cursor → Cursor
load c =
    let r = row_or_seed c.row in
    record c { row = some r; slot = r.last_processed_slot; signature = r.last_processed_signature }

-- this.slot !== null && slot <= this.slot
abbrev pub is_behind : ℕ → Option ℕ → Bool
is_behind n none = false
is_behind n (some m) = leb n m

unfoldable pub advance_cursor : ℕ → ℕ → Cursor → Cursor
advance_cursor n sig c = if is_behind n c.slot then c else record c {
  slot = some n;
  signature = some sig;
  writes = record { to_slot = n; to_signature = sig } ∷ c.writes;
}

-- `botCursor.update`, which throws where there is no row.
abbrev pub update_row : (BotCursor → BotCursor) → Cursor → Cursor
update_row f c = record c { row = elim c.row [ none ↦ none | some r ↦ some (f r) ] }

abbrev pub write_row : CursorWrite → BotCursor → BotCursor
write_row u r = record r {
  last_processed_slot = some u.to_slot;
  last_processed_signature = some u.to_signature;
}

abbrev pub nth_write : ℕ → List CursorWrite → Option CursorWrite
nth_write n [] = none
nth_write zero (u ∷ us) = some u
nth_write (suc n) (u ∷ us) = nth_write n us

abbrev pub write_to : Option CursorWrite → Cursor → Cursor
write_to none c = c
write_to (some u) c = update_row (write_row u) c

unfoldable pub land : ℕ → Cursor → Cursor
land n c = write_to (nth_write n c.writes) c

unfoldable pub mark_live_connected : ℕ → Cursor → Cursor
mark_live_connected now =
    update_row
      (λ r. record r { live_stream_connected_at = some now; live_stream_disconnected_at = none })

unfoldable pub mark_live_disconnected : ℕ → Cursor → Cursor
mark_live_disconnected now = update_row (λ r. record r { live_stream_disconnected_at = some now })

unfoldable pub mark_poller_run : ℕ → Cursor → Cursor
mark_poller_run now = update_row (λ r. record r { poller_last_run_at = some now })

pub data CursorEvent : Type 0 where
  advances : ℕ → ℕ → CursorEvent
  lands connects disconnects polls : ℕ → CursorEvent

unfoldable pub cursor_step : CursorEvent → Cursor → Cursor
cursor_step (advances n sig) c = advance_cursor n sig c
cursor_step (lands n) c = land n c
cursor_step (connects t) c = mark_live_connected t c
cursor_step (disconnects t) c = mark_live_disconnected t c
cursor_step (polls t) c = mark_poller_run t c

unfoldable pub cursor_run : List CursorEvent → Cursor → Cursor
cursor_run [] c = c
cursor_run (e ∷ es) c = cursor_run es (cursor_step e c)
