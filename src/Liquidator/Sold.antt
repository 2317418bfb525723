-- ===== src/Liquidator/Sold.antt =====
-- Each row is sold or bought back once, and by the liquidator alone: apps/hedger/inventory/liquidator.ts beside the
-- netting of apps/server/services/service.inventory-netter.ts.
use highgarden.Base.{
  ℕ, ◌-◌, ◌≡◌, ◌≢◌, refl, sym, subst, Bool, true, false, Bool-cases, Option, none, some, inl, inr,
  List, [], ◌∷◌, leb, ltb, any, All, if◌then◌else◌,
}
use highgarden.Database.{InventoryRow}
use highgarden.Trade.{BookTop, OrderResult}
use highgarden.Netting.{Table, is_claimable, mark_netted}
use highgarden.Call.{Reply, ok, err, pure, ◌>>=◌}
use highgarden.Call.Frame.{bind-frame_at}
use highgarden.Liquidator.{
  LiquidationOrder, Inventory, Query, LiquidationFailure, no_top, LiquidatorServices,
  list_stale_orphans, try_claim, unclaim, record_liquidation, Note, append_note, lookup_tick_size,
  reverse_side, target_cents, unwind_order, unwind, at_target, liquidate_claimed, liquidate_one,
  liquidate_one_safely, liquidate_rows, run_once, tick, liquidation_failed, no_top_of_book,
  ticks_or_default, mark_liquidated, mark_unliquidated,
}
use highgarden.Liquidator.Orders.{
  disturbed, bind-query, sent, on_reply, bind-send_liquidation, or_err, bind-or_throw,
  append_note_lem, note_then, settled, liquidate_one_safely_lem,
}
use highgarden.Liquidator.Stamps.{
  Owned, Owned-claimed, Owned-mark_liquidated, Owned-mark_unliquidated, Owned-mark_netted,
}
use highgarden.Liquidator.Budget.{same_state}

-- What the others do leaves the rows that the liquidator has alone.
abbrev pub Respects : LiquidatorServices → Type 0
Respects sv = (k id : ℕ) (t : Table) → Owned id t → Owned id (sv.others k t)

-- The rows that orders were sent for, each once, are all the liquidator's.
abbrev pub EachOwned : List LiquidationOrder → Table → Type 0
EachOwned [] t = Unit
EachOwned (o ∷ os) t =
    Owned o.client_order_id t × All (λ p. p.client_order_id ≢ o.client_order_id) os × EachOwned os t

abbrev pub IsSold : Inventory → Type 0
IsSold w = EachOwned w.orders w.table

-- A row just claimed, for which no order was sent.
abbrev Ready : ℕ → Inventory → Type 0
Ready id w = IsSold w × Owned id w.table × All (λ p. p.client_order_id ≢ id) w.orders

EachOwned-mono :
    (os : List LiquidationOrder) (t u : Table)
    → ((id : ℕ) → Owned id t → Owned id u)
    → EachOwned os t
    → EachOwned os u
EachOwned-mono [] t u f h = tt
EachOwned-mono (o ∷ os) t u f h = (f o.client_order_id h.0, h.1, EachOwned-mono os t u f h.2)

-- A row that can be claimed is none of those.
unordered_yet :
    (id : ℕ) (os : List LiquidationOrder) (t : Table)
    → any (is_claimable id) t ≡ true
    → EachOwned os t
    → All (λ p. p.client_order_id ≢ id) os
unordered_yet id [] t c h = tt
unordered_yet id (o ∷ os) t c h = (
  λ e.
      (let closed = h.0.1 in
        let opened = subst (λ i. any (is_claimable i) t ≡ true) (sym e) c in cc),
  unordered_yet id os t c h.2,
)

EachOwned-unclaimed :
    (id : ℕ) (os : List LiquidationOrder) (t : Table)
    → All (λ p. p.client_order_id ≢ id) os
    → EachOwned os t
    → EachOwned os (mark_unliquidated id t)
EachOwned-unclaimed id [] t a h = tt
EachOwned-unclaimed id (o ∷ os) t a h = (
  Owned-mark_unliquidated o.client_order_id id t (λ e. a.0 (sym e)) h.0,
  h.1,
  EachOwned-unclaimed id os t a.1 h.2,
)

abbrev Ended : Type 0 → Type 0
Ended A = Reply LiquidationFailure A × Inventory

either :
    {A : Type 0} (P : Inventory → Type 0) (b : Bool) (x y : Ended A)
    → P x.1
    → P y.1
    → P (if b then x else y).1
either P true x y h k = h
either P false x y h k = k

module _ (sv : LiquidatorServices) (respects : Respects sv) where
  disturbed-IsSold : (w : Inventory) → IsSold w → IsSold (disturbed sv w)
  disturbed-IsSold w h =
      EachOwned-mono w.orders w.table (sv.others w.calls w.table)
        (λ id. respects w.calls id w.table) h

  disturbed-Ready : (id : ℕ) (w : Inventory) → Ready id w → Ready id (disturbed sv w)
  disturbed-Ready id w h = (disturbed-IsSold w h.0, respects w.calls id w.table h.1, h.2)

  append_note-IsSold :
      (id : ℕ) (note : Note) (w : Inventory) → IsSold w → IsSold (append_note sv id note w).1
  append_note-IsSold id note w h =
      let (_, orders, table) = append_note_lem sv id note w in
      subst (λ os. EachOwned os (append_note sv id note w).1.table) (sym orders)
        (subst (EachOwned w.orders) (sym table) (disturbed-IsSold w h))

  answered-IsSold :
      (id : ℕ) (w : Inventory) (reply : Option OrderResult)
      → IsSold w
      → IsSold
          (on_reply
            (λ r. record_liquidation sv id r.polymarket_order_id >>= λ _. pure r.filled_shares)
            w
            reply).1
  unfolding record_liquidation
  answered-IsSold id w none h = h
  answered-IsSold id w (some r) h =
      subst (λ (o : Ended ℕ). IsSold o.1)
        (sym (bind-query sv Query.record_query _ _ (λ _. pure r.filled_shares) w))
        (either IsSold (sv.query_up Query.record_query w.calls) _ _ (disturbed-IsSold w h)
          (disturbed-IsSold w h))

  unwind-IsSold :
      (row : InventoryRow) (price : ℕ) (w : Inventory)
      → Ready row.id w
      → IsSold (unwind sv row price w).1
  unfolding unwind lookup_tick_size
  unwind-IsSold row price w h =
      let o = unwind_order row price (ticks_or_default (sv.market_ticks row.market_id)) in
      let w' = disturbed sv w in
      let ready = disturbed-Ready row.id w h in
      subst (λ (r : Ended ℕ). IsSold r.1) (sym (bind-query sv Query.tick_size_query _ _ _ w))
        (either IsSold (sv.query_up Query.tick_size_query w.calls) _ _
          (subst (λ (r : Ended ℕ). IsSold r.1) (sym (bind-send_liquidation sv o _ w'))
            (answered-IsSold row.id (sent w' o) (sv.place_market_order w'.orders o)
              (ready.1, ready.2, ready.0)))
          ready.0)

  target-IsSold :
      (row : InventoryRow) (price : Option ℕ) (w : Inventory)
      → Ready row.id w
      → IsSold (at_target sv row price w).1
  unfolding at_target unclaim
  target-IsSold row (some price) w h = unwind-IsSold row price w h
  target-IsSold row none w h =
      let w' = disturbed sv w in
      let ready = disturbed-Ready row.id w h in
      subst (λ (r : Ended ℕ). IsSold r.1) (sym (bind-query sv Query.unclaim_query _ _ _ w))
        (either IsSold (sv.query_up Query.unclaim_query w.calls) _ _
          (subst (λ (r : Ended ℕ). IsSold r.1) (sym (note_then sv row.id no_top_of_book _ _))
            (append_note-IsSold row.id no_top_of_book _
              (EachOwned-unclaimed row.id w'.orders w'.table ready.2 ready.0)))
          ready.0)

  claimed-IsSold :
      (row : InventoryRow) (w : Inventory) → Ready row.id w → IsSold (liquidate_claimed sv row w).1
  claimed-IsSold row w h =
      subst (λ (r : Ended ℕ). IsSold r.1)
        (sym (bind-or_throw (sv.top_of_book row.polymarket_token_id) no_top _ w))
        (go (sv.top_of_book row.polymarket_token_id))
    where
      go :
          (top : Option BookTop)
          → IsSold
              (or_err no_top
                (λ t. at_target sv row (target_cents (reverse_side row.side) t))
                w
                top).1
      go none = h.0
      go (some t) = target-IsSold row (target_cents (reverse_side row.side) t) w h

  one-IsSold : (row : InventoryRow) (w : Inventory) → IsSold w → IsSold (liquidate_one sv row w).1
  unfolding liquidate_one try_claim
  one-IsSold row w h =
      subst (λ (r : Ended ℕ). IsSold r.1) (sym (bind-query sv Query.claim_query _ _ _ w))
        (either IsSold (sv.query_up Query.claim_query w.calls) _ _
          (go (any (is_claimable row.id) (disturbed sv w).table) refl) (disturbed-IsSold w h))
    where
      after : Inventory
      after = record (disturbed sv w) {
        table = mark_liquidated row.id sv.now (disturbed sv w).table;
      }

      kept : IsSold after
      kept =
          EachOwned-mono w.orders (disturbed sv w).table after.table
            (λ id. Owned-mark_liquidated id row.id sv.now (disturbed sv w).table)
            (disturbed-IsSold w h)

      go :
          (b : Bool)
          → any (is_claimable row.id) (disturbed sv w).table ≡ b
          → IsSold ((if b then liquidate_claimed sv row else pure 0) after).1
      go false e = kept
      go true e = claimed-IsSold row after (
        kept,
        Owned-claimed row.id sv.now (disturbed sv w).table e,
        unordered_yet row.id w.orders (disturbed sv w).table e (disturbed-IsSold w h),
      )

  safely-IsSold :
      (row : InventoryRow) (w : Inventory) → IsSold w → IsSold (liquidate_one_safely sv row w).1
  safely-IsSold row w h =
      subst (λ (r : Ended ℕ). IsSold r.1) (sym (liquidate_one_safely_lem sv row w))
        (go (liquidate_one sv row w) (one-IsSold row w h))
    where
      go : (r : Ended ℕ) → IsSold r.1 → IsSold (settled sv row.id r).1
      go (ok n, v) k = k
      go (err e, v) k = append_note-IsSold row.id liquidation_failed v k

  rows-IsSold :
      (rows : List InventoryRow) (remaining : ℕ) (w : Inventory)
      → IsSold w
      → IsSold (liquidate_rows sv rows remaining w).1
  unfolding liquidate_rows
  rows-IsSold [] remaining w h = h
  rows-IsSold (row ∷ rows) remaining w h = elim (Bool-cases (leb remaining 0)) [
    | inl stop ↦ rw stop h
    | inr go_on ↦ elim (Bool-cases (ltb remaining row.shares)) [
      | inl large ↦ rw (go_on, large) (rows-IsSold rows remaining w h)
      | inr fits ↦
          rw (go_on, fits)
            (bind-frame_at (λ u v. IsSold u → IsSold v) (λ u v x f g k. g (f k))
              (liquidate_one_safely sv row)
              (λ consumed. liquidate_rows sv rows (remaining - consumed)) w (safely-IsSold row w)
              (λ n e. rows-IsSold rows (remaining - n) (liquidate_one_safely sv row w).1) h)
    ]
  ]

  run_once-IsSold : (w : Inventory) → IsSold w → IsSold (run_once sv w).1
  unfolding run_once list_stale_orphans
  run_once-IsSold w h =
      subst (λ (r : Ended (Unit {0})). IsSold r.1) (sym (bind-query sv Query.list_query _ _ _ w))
        (either IsSold (sv.query_up Query.list_query w.calls) _ _
          (rows-IsSold _ sv.max_shares_per_tick (disturbed sv w) (disturbed-IsSold w h))
          (disturbed-IsSold w h))

-- The netting's claims, in any order, respect the liquidator's rows.
pub netting_respects : (id now : ℕ) (t : Table) (i : ℕ) → Owned i t → Owned i (mark_netted id now t)
netting_respects id now t i h = Owned-mark_netted i id now t h

-- Where the others leave the liquidator's rows alone, each tick keeps this: no inventory row has had two orders sent
-- for it, and each that had one carries the liquidator's stamp, has not been netted and can be claimed by nobody. So
-- it is whichever calls fail, whatever Polymarket answers, and whichever rows the netting takes in between.
pub tick-IsSold :
    (sv : LiquidatorServices) (respects : Respects sv) (w : Inventory) (sold : IsSold w)
    → IsSold (tick sv w).1
tick-IsSold sv respects w sold =
    subst IsSold (sym (same_state sv w)) (run_once-IsSold sv respects w sold)
