-- ===== src/Pricing.antt =====
-- The prices of a trade: apps/server/services/service.trade-orchestrator.ts, from the netted rows and
-- Polymarket's fill to what the user pays. Averages are of whole cents, rounded by `Math.round`.
pub mod Bounds
use highgarden.Base.{
  ℕ, ◌+◌, ◌*◌, Bool, Option, none, some, List, [], ◌∷◌, ltb, ◌==◌, or_else, if◌then◌else◌, map,
}
use highgarden.Base.Int.{ℤ, pos, sub_ℕ, ltb_ℤ, pos_part}
use highgarden.Base.Round.{round_div}
use highgarden.Database.{Side, buy, sell, netted_text}
use highgarden.Netting.{NettedConsumption, NettingResult}
use highgarden.Trade.{OrderResult, Result, ok, err, trade_error, stale_book, BookTop}

pub record HedgeFilled : Type 0 where
  pub polymarket_order_id : ℕ
  pub filled_shares : ℕ
  pub avg_price_cents : ℕ
  pub netted_from_inventory : Bool
  pub netted_inventory_ids : List ℕ

-- The loop of `weighted_avg`, over its two running totals.
unfoldable pub weighted_totals : List NettedConsumption → ℕ → ℕ → ℕ × ℕ
weighted_totals [] total_shares total_usdc_cents = (total_shares, total_usdc_cents)
weighted_totals (c ∷ cs) total_shares total_usdc_cents =
    weighted_totals cs (total_shares + c.shares_consumed)
      (total_usdc_cents + c.shares_consumed * c.avg_price_cents)

unfoldable pub weighted_avg : List NettedConsumption → Option ℕ
weighted_avg [] = none
weighted_avg (c ∷ cs) =
    let (shares, cents) = weighted_totals (c ∷ cs) 0 0 in
    if ltb 0 shares then some (round_div cents shares) else none

unfoldable pub merge_avg : ℕ → Option ℕ → ℕ → Option ℕ → Result ℕ
merge_avg a_shares a_avg b_shares b_avg =
    if a_shares + b_shares == 0
    then err (trade_error stale_book 503)
    else ok
        (round_div (or_else a_avg 0 * a_shares + or_else b_avg 0 * b_shares) (a_shares + b_shares))

-- polymarket?.filledShares ?? 0
abbrev pub leg_shares : Option OrderResult → ℕ
leg_shares none = 0
leg_shares (some r) = r.filled_shares

abbrev pub leg_avg : Option OrderResult → Option ℕ
leg_avg none = none
leg_avg (some r) = r.avg_price_cents

-- netting.consumed[0]?.polymarketOrderId ?? "netted"
abbrev pub first_order_id : List NettedConsumption → ℕ
first_order_id [] = netted_text
first_order_id (c ∷ cs) = c.polymarket_order_id

abbrev pub hedge_order_id : Option OrderResult → List NettedConsumption → ℕ
hedge_order_id none cs = first_order_id cs
hedge_order_id (some r) cs = or_else r.polymarket_order_id (first_order_id cs)

abbrev pub with_avg : NettingResult → Option OrderResult → Result ℕ → Result HedgeFilled
with_avg netting polymarket (ok avg) = ok (record {
  polymarket_order_id = hedge_order_id polymarket netting.consumed;
  filled_shares = netting.total_shares_netted + leg_shares polymarket;
  avg_price_cents = avg;
  netted_from_inventory = ltb 0 netting.total_shares_netted;
  netted_inventory_ids = map (λ c. c.inventory_id) netting.consumed;
})
with_avg netting polymarket (err e) = err e

unfoldable pub combine_hedge_legs : NettingResult → Option OrderResult → Result HedgeFilled
combine_hedge_legs netting polymarket = with_avg netting polymarket (
    merge_avg netting.total_shares_netted (weighted_avg netting.consumed) (leg_shares polymarket)
      (leg_avg polymarket))

unfoldable pub clamp_cents : ℤ → ℕ
clamp_cents cents =
    if ltb_ℤ cents (pos 1) then 1 else if ltb_ℤ (pos 99) cents then 99 else pos_part cents

-- The user buys above and sells below what the platform paid or received.
unfoldable pub derive_user_price : ℕ → ℕ → Side → ℕ
unfolding clamp_cents
derive_user_price spread hedge_avg_cents buy = clamp_cents (pos (hedge_avg_cents + spread))
derive_user_price spread hedge_avg_cents sell = clamp_cents (sub_ℕ hedge_avg_cents spread)

unfoldable pub pick_target_price : BookTop → Side → Option ℕ
pick_target_price top buy = top.best_ask_cents
pick_target_price top sell = top.best_bid_cents

-- In cents: `Math.round` of a whole number changes nothing.
unfoldable pub compute_total_usd : ℕ → ℕ → ℕ
compute_total_usd filled_shares price_cents = filled_shares * price_cents
