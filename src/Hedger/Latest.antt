-- ===== src/Hedger/Latest.antt =====
-- What the cursor of the hedger stands at: apps/hedger/db/cursor.ts.
use highgarden.Base.{
  ℕ, zero, suc, ◌≤◌, ◌≡◌, refl, sym, ap, subst, inl, inr, ◌∙◌, false, Option, none, some, List, [],
  ◌∷◌, leb, if◌then◌else◌, arith, All, All-mono, Bool-cases,
}
use highgarden.Hedger.Cursor.{
  BotCursor, CursorWrite, Cursor, row_or_seed, load, is_behind, advance_cursor, update_row,
  write_row, nth_write, write_to, land, mark_live_connected, mark_live_disconnected,
  mark_poller_run, CursorEvent, advances, lands, connects, disconnects, polls, cursor_step,
  cursor_run,
}

-- No slot comes before slot 0.
abbrev pub height : Option ℕ → ℕ
height none = 0
height (some n) = suc n

abbrev pub stored_height : Option BotCursor → ℕ
stored_height none = 0
stored_height (some r) = height r.last_processed_slot

-- The highest slot that `advance` was called with.
abbrev pub highest : List CursorEvent → ℕ → ℕ
highest [] h = h
highest (advances n sig ∷ es) h = highest es (if leb (suc n) h then h else suc n)
highest (_ ∷ es) h = highest es h

abbrev Within : Cursor → Type 0
Within c = (stored_height c.row ≤ height c.slot) × All (λ u. suc u.to_slot ≤ height c.slot) c.writes

-- What a write that has begun may set.
abbrev Bounded : ℕ → Option CursorWrite → Type 0
Bounded h none = Unit
Bounded h (some u) = suc u.to_slot ≤ h

nth_write-Bounded :
    (n h : ℕ) (us : List CursorWrite) → All (λ u. suc u.to_slot ≤ h) us → Bounded h (nth_write n us)
nth_write-Bounded n h [] a = tt
nth_write-Bounded zero h (u ∷ us) a = a.0
nth_write-Bounded (suc n) h (u ∷ us) a = nth_write-Bounded n h us a.1

height-update_row :
    (f : BotCursor → BotCursor) (c : Cursor) (h : ℕ)
    → ((r : BotCursor) → height (f r).last_processed_slot ≤ h)
    → stored_height (update_row f c).row ≤ h
height-update_row f c h bound = go c.row
  where
    go : (r : Option BotCursor) → stored_height (elim r [ none ↦ none | some r ↦ some (f r) ]) ≤ h
    go none = omega arith
    go (some r) = bound r

write_to-Within :
    (u : Option CursorWrite) (c : Cursor)
    → Bounded (height c.slot) u
    → Within c
    → Within (write_to u c)
write_to-Within none c b h = h
write_to-Within (some u) c b h = (height-update_row (write_row u) c (height c.slot) (λ r. b), h.1)

write_to_slot : (u : Option CursorWrite) (c : Cursor) → (write_to u c).slot ≡ c.slot
write_to_slot none c = refl
write_to_slot (some u) c = refl

height-advance_cursor :
    (n sig : ℕ) (c : Cursor)
    → height (advance_cursor n sig c).slot
      ≡ (if leb (suc n) (height c.slot) then height c.slot else suc n)
unfolding advance_cursor
height-advance_cursor n sig c = ground arith

ahead : (n : ℕ) (s : Option ℕ) → is_behind n s ≡ false → height s ≤ suc n
ahead n none h = omega arith
ahead n (some m) h = ground arith

up_to : {a b c : ℕ} → a ≤ b → b ≤ c → a ≤ c
up_to h k = omega arith

same_height : (n : ℕ) → n ≤ n
same_height n = omega arith

advance_cursor-Within : (n sig : ℕ) (c : Cursor) → Within c → Within (advance_cursor n sig c)
unfolding advance_cursor
advance_cursor-Within n sig c h = elim (Bool-cases (is_behind n c.slot)) [
  | inl t ↦ rw t h
  | inr f ↦
      let up = ahead n c.slot f in
      rw f (
        up_to h.0 up,
        (
          same_height (suc n),
          All-mono {P = λ u. suc u.to_slot ≤ height c.slot} {Q = λ u. suc u.to_slot ≤ suc n}
              (λ u k. up_to k up) c.writes h.1,
        ),
      )
]

kept_row :
    (f : BotCursor → BotCursor) (c : Cursor)
    → ((r : BotCursor) → (f r).last_processed_slot ≡ r.last_processed_slot)
    → stored_height (update_row f c).row ≡ stored_height c.row
kept_row f c same = go c.row
  where
    go :
        (r : Option BotCursor)
        → stored_height (elim r [ none ↦ none | some r ↦ some (f r) ]) ≡ stored_height r
    go none = refl
    go (some r) = ap height (same r)

marked :
    (f : BotCursor → BotCursor) (c : Cursor)
    → ((r : BotCursor) → (f r).last_processed_slot ≡ r.last_processed_slot)
    → Within c
    → Within (update_row f c)
marked f c same h = (subst (λ k. k ≤ height c.slot) (sym (kept_row f c same)) h.0, h.1)

cursor_step-Within : (e : CursorEvent) (c : Cursor) → Within c → Within (cursor_step e c)
unfolding cursor_step land mark_live_connected mark_live_disconnected mark_poller_run
cursor_step-Within (advances n sig) c h = advance_cursor-Within n sig c h
cursor_step-Within (lands n) c h =
    write_to-Within (nth_write n c.writes) c (nth_write-Bounded n (height c.slot) c.writes h.1) h
cursor_step-Within (connects t) c h = marked _ c (λ r. refl) h
cursor_step-Within (disconnects t) c h = marked _ c (λ r. refl) h
cursor_step-Within (polls t) c h = marked _ c (λ r. refl) h

height-cursor_step :
    (e : CursorEvent) (es : List CursorEvent) (c : Cursor)
    → highest es (height (cursor_step e c).slot) ≡ highest (e ∷ es) (height c.slot)
unfolding cursor_step land mark_live_connected mark_live_disconnected mark_poller_run
height-cursor_step (advances n sig) es c = ap (highest es) (height-advance_cursor n sig c)
height-cursor_step (lands n) es c =
    ap (λ s. highest es (height s)) (write_to_slot (nth_write n c.writes) c)
height-cursor_step (connects t) es c = refl
height-cursor_step (disconnects t) es c = refl
height-cursor_step (polls t) es c = refl

run-Within : (es : List CursorEvent) (c : Cursor) → Within c → Within (cursor_run es c)
unfolding cursor_run
run-Within [] c h = h
run-Within (e ∷ es) c h = run-Within es (cursor_step e c) (cursor_step-Within e c h)

height-cursor_run :
    (es : List CursorEvent) (c : Cursor)
    → height (cursor_run es c).slot ≡ highest es (height c.slot)
unfolding cursor_run
height-cursor_run [] c = refl
height-cursor_run (e ∷ es) c = height-cursor_run es (cursor_step e c) ∙ height-cursor_step e es c

abbrev pub boot : Option BotCursor → Cursor
boot r = record { slot = none; signature = none; row = r; writes = [] }

load-Within : (r : Option BotCursor) → Within (load (boot r))
unfolding load
load-Within r = (same_height (height (row_or_seed r).last_processed_slot), tt)

-- After a boot from any row, whatever is advanced, marked and written in whatever order, the cursor stands at the
-- highest of the slot loaded and the slots that `advance` was called with, and the stored slot is never past it.
pub cursor_run-load :
    (r : Option BotCursor) (es : List CursorEvent)
    → let c = cursor_run es (load (boot r)) in
      (height c.slot ≡ highest es (height (row_or_seed r).last_processed_slot))
      × (stored_height c.row ≤ height c.slot)
unfolding load
cursor_run-load r es =
    (height-cursor_run es (load (boot r)), (run-Within es (load (boot r)) (load-Within r)).0)
