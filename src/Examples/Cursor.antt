-- ===== src/Examples/Cursor.antt =====
-- The cursor where the listener and the poller advance_cursor it at once: apps/hedger/db/cursor.ts.
use highgarden.Base.{◌≡◌, refl, ◌≤◌, none, List, [], ◌∷◌}
use highgarden.Hedger.Cursor.{
  CursorEvent, advances, lands, polls, cursor_run, cursor_step, advance_cursor, land, load,
  mark_poller_run, row_or_seed,
}
use highgarden.Hedger.Latest.{height, stored_height, highest, boot, cursor_run-load}

-- The write of slot 7 lands before that of slot 5.
abbrev moves : List CursorEvent
moves = advances 5 81 ∷ advances 7 82 ∷ advances 6 83 ∷ lands 0 ∷ lands 1 ∷ polls 900 ∷ []

row_moves_back : stored_height (cursor_run moves (load (boot none))).row ≡ 6
unfolding cursor_run cursor_step advance_cursor land load mark_poller_run
row_moves_back = refl

cursor_run-load_example :
    let c = cursor_run moves (load (boot none)) in
    (height c.slot ≡ highest moves (height (row_or_seed none).last_processed_slot))
    × (stored_height c.row ≤ height c.slot)
cursor_run-load_example = cursor_run-load none moves
