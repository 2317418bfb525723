-- ===== src/Examples/Liquidator.antt =====
-- A stale position sold while the netting takes another row: apps/hedger/inventory/liquidator.ts.
use highgarden.Base.{ℕ, ◌+◌, ◌≡◌, ◌≤◌, refl, true, none, some, [], ◌∷◌, arith}
use highgarden.Netting.{mark_netted}
use highgarden.Liquidator.{
  Inventory, LiquidatorServices, tick, run_once, query, list_stale_orphans, liquidate_rows,
  liquidate_one_safely, liquidate_one, try_claim, at_target, unwind, lookup_tick_size,
  send_liquidation, record_liquidation,
}
use highgarden.Liquidator.Fills.{total_filled, lost}
use highgarden.Liquidator.Budget.{tick-budget}
use highgarden.Liquidator.Sold.{IsSold, netting_respects, tick-IsSold}
use highgarden.Netting.{sort_by_created, insert_by_created}
use highgarden.Call.{◌>>=◌, catch}
use highgarden.Examples.{orphan_one, book}

le_self : (n : ℕ) → n ≤ n
le_self n = omega arith

abbrev sv : LiquidatorServices
sv = record {
  now = 100_000_000;
  liquidate_after_hours = 6;
  max_shares_per_tick = 50;
  others = λ k t. mark_netted 77 k t;
  query_up = λ q k. true;
  top_of_book = λ token. some book;
  market_ticks = λ m. none;
  place_market_order = λ os o. some (record {
    polymarket_order_id = some 91;
    filled_shares = o.size_shares;
    avg_price_cents = some 44;
    fully_filled = true;
  });
  fills = λ os o. o.size_shares;
}

abbrev stock : Inventory
stock = record {
  table = orphan_one ∷ [];
  orders = [];
  liquidate_order_ids = [];
  notes = [];
  calls = 0;
}

sells_six : total_filled sv (tick sv stock).1.orders ≡ 6
unfolding tick run_once query list_stale_orphans liquidate_rows liquidate_one_safely liquidate_one
    try_claim at_target unwind lookup_tick_size send_liquidation record_liquidation sort_by_created
    insert_by_created mark_netted ◌>>=◌ catch
sells_six = refl

tick-budget_example :
    total_filled sv (tick sv stock).1.orders + lost sv stock.orders
    ≤ total_filled sv stock.orders + sv.max_shares_per_tick + lost sv (tick sv stock).1.orders
tick-budget_example =
    tick-budget sv (λ os o. le_self o.size_shares) (λ os o. refl) (λ k. refl) stock

tick-IsSold_example : IsSold (tick sv stock).1
tick-IsSold_example = tick-IsSold sv (λ k id t h. netting_respects 77 k t id h) stock tt
