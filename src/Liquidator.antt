-- ===== src/Liquidator.antt =====
-- The liquidation of stale inventory: apps/hedger/inventory/liquidator.ts.
--
-- Between two database calls the server's netting, or another liquidator, may run: `others k` is their effect on the
-- table before the k-th call of this tick. A call that finds no database throws. The timer is left out.
mod Orders
mod Stamps
pub mod Fills
pub mod Budget
pub mod Sold
use highgarden.Base.{
  ℕ, suc, ◌+◌, ◌-◌, ◌*◌, Bool, true, false, not, ◌&&◌, Option, none, some, List, [], ◌∷◌, ◌==◌, ltb,
  leb, any, select, update_where, if◌then◌else◌,
}
use highgarden.Database.{Side, buy, sell, InventoryRow}
use highgarden.Netting.{Table, is_free, is_claimable, sort_by_created}
use highgarden.Trade.{BookTop, OrderResult}
use highgarden.Call.{Reply, ok, err, Call, pure, or_throw, modify, catch, ◌>>=◌, ◌>>◌}

-- `liq-<row id>` is the client order id.
pub record LiquidationOrder : Type 0 where
  pub token_id : ℕ
  pub side : Side
  pub size_shares : ℕ
  pub price_cents : ℕ
  pub tick_size : ℕ
  pub neg_risk : Bool
  pub client_order_id : ℕ

pub data Note : Type 0 where
  no_top_of_book liquidation_failed : Note

-- The inventory, the orders sent to Polymarket (newest first), the order ids and notes written to rows, and how many
-- database calls this tick has made.
pub record Inventory : Type 0 where
  pub table : Table
  pub orders : List LiquidationOrder
  pub liquidate_order_ids : List (ℕ × Option ℕ)
  pub notes : List (ℕ × Note)
  pub calls : ℕ

pub data Query : Type 0 where
  list_query claim_query unclaim_query tick_size_query record_query note_query : Query

pub data LiquidationFailure : Type 0 where
  no_database no_top no_order : LiquidationFailure

-- What Polymarket answers to an order, after these, and what it really fills of it: an order whose call throws may have
-- been filled.
pub record LiquidatorServices : Type 0 where
  pub now : ℕ
  pub liquidate_after_hours : ℕ
  pub max_shares_per_tick : ℕ
  pub others : ℕ → Table → Table
  pub query_up : Query → ℕ → Bool
  pub top_of_book : ℕ → Option BookTop
  pub market_ticks : ℕ → Option (ℕ × Bool)
  pub place_market_order : List LiquidationOrder → LiquidationOrder → Option OrderResult
  pub fills : List LiquidationOrder → LiquidationOrder → ℕ

abbrev pub LiquidatorCall : Type 0 → Type 0
LiquidatorCall A = Call Inventory LiquidationFailure A

-- A database call: what the others did first, then this, if there is a database.
unfoldable pub query :
    {A : Type 0}
    → LiquidatorServices
    → Query
    → (Inventory → A)
    → (Inventory → Inventory)
    → LiquidatorCall A
query sv q read write w =
    let w' = record w { table = sv.others w.calls w.table; calls = suc w.calls } in
    if sv.query_up q w.calls then (ok (read w'), write w') else (err no_database, w')

-- createdAt: { lt: cutoff }, nettedAt: null, liquidatedAt: null
abbrev pub is_stale : LiquidatorServices → InventoryRow → Bool
is_stale sv r = is_free r && ltb r.created_at (sv.now - sv.liquidate_after_hours * 3_600_000)

unfoldable pub list_stale_orphans : LiquidatorServices → LiquidatorCall Table
list_stale_orphans sv =
    query sv list_query (λ w. sort_by_created (select (is_stale sv) w.table)) (λ w. w)

abbrev pub mark_liquidated : ℕ → ℕ → Table → Table
mark_liquidated id now = update_where (is_claimable id) (λ r. record r { liquidated_at = some now })

abbrev pub mark_unliquidated : ℕ → Table → Table
mark_unliquidated id = update_where (λ r. r.id == id) (λ r. record r { liquidated_at = none })

unfoldable pub try_claim : LiquidatorServices → ℕ → LiquidatorCall Bool
try_claim sv id =
    query sv claim_query (λ w. any (is_claimable id) w.table)
      (λ w. record w { table = mark_liquidated id sv.now w.table })

unfoldable pub unclaim : LiquidatorServices → ℕ → LiquidatorCall (Unit {0})
unclaim sv id =
    query sv unclaim_query (λ w. tt) (λ w. record w { table = mark_unliquidated id w.table })

unfoldable pub record_liquidation : LiquidatorServices → ℕ → Option ℕ → LiquidatorCall (Unit {0})
record_liquidation sv id order =
    query sv record_query (λ w. tt)
      (λ w. record w { liquidate_order_ids = (id, order) ∷ w.liquidate_order_ids })

-- Best effort: a failure is swallowed.
unfoldable pub append_note : LiquidatorServices → ℕ → Note → LiquidatorCall (Unit {0})
append_note sv id note =
    catch (query sv note_query (λ w. tt) (λ w. record w { notes = (id, note) ∷ w.notes }))
      (λ e. pure tt)

abbrev pub ticks_or_default : Option (ℕ × Bool) → ℕ × Bool
ticks_or_default none = (1, false)
ticks_or_default (some t) = t

unfoldable pub lookup_tick_size : LiquidatorServices → ℕ → LiquidatorCall (ℕ × Bool)
lookup_tick_size sv market =
    query sv tick_size_query (λ w. ticks_or_default (sv.market_ticks market)) (λ w. w)

abbrev pub reverse_side : Side → Side
reverse_side buy = sell
reverse_side sell = buy

abbrev pub target_cents : Side → BookTop → Option ℕ
target_cents buy top = top.best_ask_cents
target_cents sell top = top.best_bid_cents

unfoldable pub send_liquidation : LiquidatorServices → LiquidationOrder → LiquidatorCall OrderResult
send_liquidation sv o w =
    or_throw (sv.place_market_order w.orders o) no_order (record w { orders = o ∷ w.orders })

abbrev pub unwind_order : InventoryRow → ℕ → ℕ × Bool → LiquidationOrder
unwind_order row price (tick, neg) = record {
  token_id = row.polymarket_token_id;
  side = reverse_side row.side;
  size_shares = row.shares;
  price_cents = price;
  tick_size = tick;
  neg_risk = neg;
  client_order_id = row.id;
}

-- With a price: the order is placed and recorded.
unfoldable pub unwind : LiquidatorServices → InventoryRow → ℕ → LiquidatorCall ℕ
unwind sv row price = do
  ticks ← lookup_tick_size sv row.market_id
  result ← send_liquidation sv (unwind_order row price ticks)
  record_liquidation sv row.id result.polymarket_order_id
  pure result.filled_shares

unfoldable pub at_target : LiquidatorServices → InventoryRow → Option ℕ → LiquidatorCall ℕ
at_target sv row none = do unclaim sv row.id; append_note sv row.id no_top_of_book; pure 0
at_target sv row (some price) = unwind sv row price

abbrev pub liquidate_claimed : LiquidatorServices → InventoryRow → LiquidatorCall ℕ
liquidate_claimed sv row = do
  top ← or_throw (sv.top_of_book row.polymarket_token_id) no_top
  at_target sv row (target_cents (reverse_side row.side) top)

unfoldable pub liquidate_one : LiquidatorServices → InventoryRow → LiquidatorCall ℕ
liquidate_one sv row = do
  claimed ← try_claim sv row.id
  if claimed then liquidate_claimed sv row else pure 0

unfoldable pub liquidate_one_safely : LiquidatorServices → InventoryRow → LiquidatorCall ℕ
liquidate_one_safely sv row =
    catch (liquidate_one sv row) (λ e. append_note sv row.id liquidation_failed >> pure 0)

-- The `for` over the candidates, with the shares that remain.
unfoldable pub liquidate_rows :
    LiquidatorServices → List InventoryRow → ℕ → LiquidatorCall (Unit {0})
liquidate_rows sv [] remaining = pure tt
liquidate_rows sv (row ∷ rows) remaining =
    if leb remaining 0
    then pure tt
    else if ltb remaining row.shares
    then liquidate_rows sv rows remaining
    else (liquidate_one_safely sv row >>= λ consumed. liquidate_rows sv rows (remaining - consumed))

unfoldable pub run_once : LiquidatorServices → LiquidatorCall (Unit {0})
run_once sv = do
  candidates ← list_stale_orphans sv
  liquidate_rows sv candidates sv.max_shares_per_tick

unfoldable pub tick : LiquidatorServices → LiquidatorCall (Unit {0})
tick sv = catch (run_once sv) (λ e. pure tt)
