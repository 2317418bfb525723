-- ===== src/Liquidator/Budget.antt =====
-- How many shares one tick of apps/hedger/inventory/liquidator.ts sells or buys back.
use highgarden.Base.{
  ℕ, ◌+◌, ◌-◌, ◌≤◌, ◌≡◌, refl, sym, ap, subst, Bool, true, false, Bool-cases, Option, none, some,
  inl, inr, List, [], ◌∷◌, leb, ltb, any, if◌then◌else◌, arith,
}
use highgarden.Database.{InventoryRow}
use highgarden.Trade.{BookTop, OrderResult}
use highgarden.Netting.{is_claimable}
use highgarden.Liquidator.Fills.{
  total_filled, lost, reported, shares_of, total_lem, NoOverfill, TellsFill, Reports, Records,
}
use highgarden.Call.{Reply, ok, err, pure, ◌>>=◌}
use highgarden.Liquidator.Orders.{
  disturbed, bind-query, sent, on_reply, bind-send_liquidation, or_err, bind-or_throw,
  append_note_lem, note_then, settled, liquidate_one_safely_lem,
}
use highgarden.Call.Frame.{bind-value, Reply-cases, catch-value, catch-throw}
use highgarden.Liquidator.{
  LiquidationOrder, Inventory, Query, record_query, LiquidationFailure, no_top, LiquidatorServices,
  list_stale_orphans, try_claim, unclaim, record_liquidation, Note, append_note, lookup_tick_size,
  reverse_side, target_cents, unwind_order, unwind, at_target, liquidate_claimed, liquidate_one,
  liquidate_one_safely, liquidate_rows, run_once, tick, liquidation_failed, no_top_of_book,
  ticks_or_default, mark_liquidated,
}

-- A call that returns shares has had them reported, and no more than so many; one that throws has had none reported.
abbrev Spends : LiquidatorServices → ℕ → ℕ → Reply LiquidationFailure ℕ × Inventory → Type 0
Spends sv bound before (ok n, w) = (reported sv w.orders ≤ before + n) × (n ≤ bound)
Spends sv bound before (err e, w) = reported sv w.orders ≤ before

abbrev Ended : Type 0
Ended = Reply LiquidationFailure ℕ × Inventory

-- On both answers of a query.
either :
    (P : Ended → Type 0) (b : Bool) (x y : Ended) → (b ≡ true → P x) → P y → P (if b then x else y)
either P true x y h k = h refl
either P false x y h k = k

same_le : (a : ℕ) → a ≤ a
same_le a = omega arith

noted_le :
    (sv : LiquidatorServices) (id : ℕ) (note : Note) (w : Inventory) (bound : ℕ)
    → reported sv w.orders ≤ bound
    → reported sv (append_note sv id note w).1.orders ≤ bound + 0
noted_le sv id note w bound h =
    let same = ap (reported sv) (append_note_lem sv id note w).1 in omega arith

both :
    (P : Reply LiquidationFailure (Unit {0}) × Inventory → Type 0) (b : Bool)
    (x y : Reply LiquidationFailure (Unit {0}) × Inventory)
    → P x
    → P y
    → P (if b then x else y)
both P true x y h k = h
both P false x y h k = k

module _ (sv : LiquidatorServices) (no_overfill : NoOverfill sv) (reports : Reports sv)
    (records : Records sv) where
  abbrev SpendsFrom : InventoryRow → ℕ → Ended → Type 0
  SpendsFrom row before = Spends sv row.shares before

  recorded-Spends :
      (row : InventoryRow) (r : OrderResult) (before : ℕ) (w : Inventory)
      → reported sv w.orders ≤ before + r.filled_shares
      → r.filled_shares ≤ row.shares
      → SpendsFrom row before
          ((record_liquidation sv row.id r.polymarket_order_id >>= λ _. pure r.filled_shares) w)
  unfolding record_liquidation
  recorded-Spends row r before w h k =
      subst (SpendsFrom row before)
        (sym (bind-query sv record_query _ _ (λ _. pure r.filled_shares) w))
        (rw (records w.calls) (h, k))

  answered-Spends :
      (row : InventoryRow) (o : LiquidationOrder) (w : Inventory) (reply : Option OrderResult)
      → o.size_shares ≡ row.shares
      → sv.place_market_order w.orders o ≡ reply
      → SpendsFrom row (reported sv w.orders) (
          on_reply
            (λ r. record_liquidation sv row.id r.polymarket_order_id >>= λ _. pure r.filled_shares)
            (sent w o)
            reply)
  answered-Spends row o w none size e = let h = ap shares_of e in omega arith
  answered-Spends row o w (some r) size e =
      let h = ap shares_of e in
      let fits = no_overfill w.orders o in
      let tells = subst (λ r. TellsFill r (sv.fills w.orders o)) e (reports w.orders o) in
      recorded-Spends row r (reported sv w.orders) (sent w o) (omega arith) (omega arith)

  unwind-Spends :
      (row : InventoryRow) (price : ℕ) (w : Inventory)
      → SpendsFrom row (reported sv w.orders) (unwind sv row price w)
  unfolding unwind lookup_tick_size
  unwind-Spends row price w =
      let before = reported sv w.orders in
      let o = unwind_order row price (ticks_or_default (sv.market_ticks row.market_id)) in
      let w' = disturbed sv w in
      subst (SpendsFrom row before) (sym (bind-query sv Query.tick_size_query _ _ _ w)) (
        either (SpendsFrom row before) (sv.query_up Query.tick_size_query w.calls) _ _
          (λ up.
            subst (SpendsFrom row before) (sym (bind-send_liquidation sv o _ w'))
              (answered-Spends row o w' (sv.place_market_order w.orders o) refl refl))
          (same_le before))

  target-Spends :
      (row : InventoryRow) (price : Option ℕ) (w : Inventory)
      → SpendsFrom row (reported sv w.orders) (at_target sv row price w)
  unfolding at_target unclaim
  target-Spends row (some price) w = unwind-Spends row price w
  target-Spends row none w =
      let before = reported sv w.orders in
      subst (SpendsFrom row before) (sym (bind-query sv Query.unclaim_query _ _ _ w)) (
        either (SpendsFrom row before) (sv.query_up Query.unclaim_query w.calls) _ _
          (λ up.
            subst (SpendsFrom row before) (sym (note_then sv row.id no_top_of_book _ _))
              (noted_le sv row.id no_top_of_book _ before (same_le before), omega arith))
          (same_le before))

  claimed-Spends :
      (row : InventoryRow) (w : Inventory)
      → SpendsFrom row (reported sv w.orders) (liquidate_claimed sv row w)
  claimed-Spends row w =
      subst (SpendsFrom row (reported sv w.orders))
        (sym (bind-or_throw (sv.top_of_book row.polymarket_token_id) no_top _ w))
        (go (sv.top_of_book row.polymarket_token_id))
    where
      go :
          (top : Option BookTop)
          → SpendsFrom row
              (reported sv w.orders)
              (or_err no_top (λ t. at_target sv row (target_cents (reverse_side row.side) t)) w top)
      go none = same_le (reported sv w.orders)
      go (some t) = target-Spends row (target_cents (reverse_side row.side) t) w

  one-Spends :
      (row : InventoryRow) (w : Inventory)
      → SpendsFrom row (reported sv w.orders) (liquidate_one sv row w)
  unfolding liquidate_one try_claim
  one-Spends row w =
      let before = reported sv w.orders in
      subst (SpendsFrom row before) (sym (bind-query sv Query.claim_query _ _ _ w)) (
        either (SpendsFrom row before) (sv.query_up Query.claim_query w.calls) _ _
          (λ up. go (any (is_claimable row.id) (disturbed sv w).table)) (same_le before))
    where
      go :
          (b : Bool)
          → SpendsFrom row (reported sv w.orders) (
              (if b then liquidate_claimed sv row else pure 0) (record (disturbed sv w) {
                table = mark_liquidated row.id sv.now (disturbed sv w).table;
              }))
      go true =
          claimed-Spends row (record (disturbed sv w) {
            table = mark_liquidated row.id sv.now (disturbed sv w).table;
          })
      go false = (let h = same_le (reported sv w.orders) in omega arith, omega arith)

  -- What is caught counts as nothing reported.
  Settles : InventoryRow → ℕ → Ended → Type 0
  Settles row before r =
      (n : ℕ) × (r.0 ≡ ok n) × (reported sv r.1.orders ≤ before + n) × (n ≤ row.shares)

  liquidate_one_safely-Settles :
      (row : InventoryRow) (w : Inventory)
      → Settles row (reported sv w.orders) (liquidate_one_safely sv row w)
  unfolding Settles
  liquidate_one_safely-Settles row w =
      subst (Settles row (reported sv w.orders)) (sym (liquidate_one_safely_lem sv row w))
        (go (liquidate_one sv row w) (one-Spends row w))
    where
      go :
          (r : Ended)
          → SpendsFrom row (reported sv w.orders) r
          → Settles row (reported sv w.orders) (settled sv row.id r)
      go (ok n, v) h = (n, refl, h.0, h.1)
      go (err e, v) h =
          (0, refl, noted_le sv row.id liquidation_failed v (reported sv w.orders) h, omega arith)

  rows-Spends :
      (rows : List InventoryRow) (remaining : ℕ) (w : Inventory)
      → reported sv (liquidate_rows sv rows remaining w).1.orders ≤ reported sv w.orders + remaining
  unfolding liquidate_rows Settles
  rows-Spends [] remaining w = omega arith
  rows-Spends (row ∷ rows) remaining w = elim (Bool-cases (leb remaining 0)) [
    | inl stop ↦ rw stop (omega arith)
    | inr go_on ↦ elim (Bool-cases (ltb remaining row.shares)) [
      | inl large ↦ rw (go_on, large) (rows-Spends rows remaining w)
      | inr fits ↦
          let (n, e, spent, bound) = liquidate_one_safely-Settles row w in
          let rest = rows-Spends rows (remaining - n) (liquidate_one_safely sv row w).1 in
          let le : row.shares ≤ remaining = ground arith in
          rw (go_on, fits)
            (subst
              (λ (r : Reply LiquidationFailure (Unit {0}) × Inventory).
                reported sv r.1.orders ≤ reported sv w.orders + remaining)
              (sym (
                bind-value (liquidate_one_safely sv row)
                  (λ consumed. liquidate_rows sv rows (remaining - consumed)) w e))
              (omega arith))
    ]
  ]

  run_once-Spends :
      (w : Inventory)
      → reported sv (run_once sv w).1.orders ≤ reported sv w.orders + sv.max_shares_per_tick
  unfolding run_once list_stale_orphans
  run_once-Spends w =
      let Fine : Reply LiquidationFailure (Unit {0}) × Inventory → Type 0 =
        λ r. reported sv r.1.orders ≤ reported sv w.orders + sv.max_shares_per_tick in
      subst Fine (sym (bind-query sv Query.list_query _ _ _ w)) (
        both Fine (sv.query_up Query.list_query w.calls) _ _
          (rows-Spends _ sv.max_shares_per_tick (disturbed sv w)) (omega arith))

pub same_state : (sv : LiquidatorServices) (w : Inventory) → (tick sv w).1 ≡ (run_once sv w).1
unfolding tick
same_state sv w = elim (Reply-cases (run_once sv w).0) [
  | inl (a, e) ↦
      ap (λ (r : Reply LiquidationFailure (Unit {0}) × Inventory). r.1)
        (catch-value (run_once sv) (λ e. pure tt) w e)
  | inr (f, e) ↦
      ap (λ (r : Reply LiquidationFailure (Unit {0}) × Inventory). r.1)
        (catch-throw (run_once sv) (λ e. pure tt) w e)
]

-- Whatever the others do to the table and whichever other calls fail: if Polymarket fills no more than was ordered, its
-- answers tell the shares filled, and the order ids can be written, all orders of one tick whose calls are answered fill
-- together at most the shares of the tick's budget. Those whose calls throw, which may have been filled, come on top.
pub tick-budget :
    (sv : LiquidatorServices) (no_overfill : NoOverfill sv) (reports : Reports sv)
    (records : Records sv) (w : Inventory)
    → total_filled sv (tick sv w).1.orders + lost sv w.orders
      ≤ total_filled sv w.orders + sv.max_shares_per_tick + lost sv (tick sv w).1.orders
tick-budget sv no_overfill reports records w =
    let before = total_lem sv reports w.orders in
    let after = total_lem sv reports (tick sv w).1.orders in
    let spent : reported sv (tick sv w).1.orders ≤ reported sv w.orders + sv.max_shares_per_tick =
      subst (λ v. reported sv v.orders ≤ reported sv w.orders + sv.max_shares_per_tick)
        (sym (same_state sv w)) (run_once-Spends sv no_overfill reports records w) in
    omega arith
