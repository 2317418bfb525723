-- ===== src/Examples/Trade.antt =====
-- Trades at the market of the examples: apps/server/services/service.trade-orchestrator.ts.
use highgarden.Base.{
  ℕ, ◌+◌, ◌≤◌, ◌≡◌, refl, ◌↔◌, ◌⊎◌, inr, true, false, some, [], ◌∷◌, min, max, ltb, arith,
  if◌then◌else◌, ◌-◌,
}
use highgarden.Database.{buy, sell, yes_outcome}
use highgarden.Netting.{
  NettingResult, net, net_rows, find_candidates, sort_by_created, insert_by_created, try_claim_row,
  mark_netted,
}
use highgarden.Trade.{World, TradeResult, ResolvedMarket, Failure, ok, err, ◌>>=◌, OrderResult}
use highgarden.Pricing.{
  HedgeFilled, derive_user_price, combine_hedge_legs, pick_target_price, clamp_cents,
  compute_total_usd,
}
use highgarden.Pricing.Bounds.{derive_user_price_bounds, combine_hedge_legs-within}
use highgarden.SolanaTrade.{
  place_order, load_custodial_keypair, load_market_pda, assert_quote_market, send_place_order,
  record_fill_idempotent,
}
use highgarden.Records.{persist_quote, insert_quote, insert_fill, mark_quote_consumed}
use highgarden.Validation.{
  validate as validate_pretrade, check_funder_balance, get_balance_cached, judge_funder,
  check_market_status, judge_status, get_status_cached, status_ttl_ms, hedge, no_hedge,
}
use highgarden.Validation.Caches.{get_status_cached_ttl}
use highgarden.Pretrade.{
  reference_price_cents, assert_user_can_trade, load_user_pubkey, assert_buy_funds, assert_pretrade,
  payout, wallet_of, user_row, buy_price_cap_cents,
}
use highgarden.Pretrade.Cover.{assert_pretrade_covered}
use highgarden.Orchestrator.{
  price_and_settle, settle_on_solana, sign_quote_internally, execute, execute_no_hedge,
  execute_solana_only, settle, hedge_and_settle, attempt_netting, validate, shape_market,
  derive_nonce, pretrade_args,
}
use highgarden.Orchestrator.Gate.{validate_iff, IsOpen, IsShaped}
use highgarden.Orchestrator.Safety.{execute_gated, execute_no_hedge_gated, Refused, Passed}
use highgarden.Orchestrator.NoHedge.{execute_no_hedge-NoHedging, NoHedging}
use highgarden.Orchestrator.Paid.{execute_no_hedge-IsPaid, IsPaid}
use highgarden.Orchestrator.HedgeRow.{execute-SameHedges}
use highgarden.Orchestrator.Losses.{final_quote, IsSettled, settle_keeps_position}
use highgarden.Orchestrator.Steps.{Kept}
use highgarden.Orchestrator.Netted.{fully_netted-NotRestored}
use highgarden.Examples.{services, no_solana, settings, request, world_with, stock, book}

abbrev w : World
w = world_with stock

abbrev market : ResolvedMarket
market = record {
  id = 10;
  poly_market_id = 11;
  solana_market_pda = 12;
  yes_token_id = 71;
  no_token_id = 72;
  tick_size = 1;
  neg_risk = false;
  polymarket_side = buy;
  outcome = yes_outcome;
  token_id = 71;
}

execute_gated_example :
    Refused w (execute settings services (request buy 10) w)
    ⊎ Passed settings services (request buy 10) hedge w
execute_gated_example = execute_gated settings services (request buy 10) w

execute_no_hedge_gated_example :
    Refused w (execute_no_hedge settings services (request sell 10) w)
    ⊎ Passed settings services (request sell 10) no_hedge w
execute_no_hedge_gated_example = execute_no_hedge_gated settings services (request sell 10) w

execute_no_hedge-NoHedging_example :
    NoHedging w (execute_no_hedge settings services (request buy 10) w).1
    × NoHedging w (execute_solana_only settings services (request buy 10) w).1
execute_no_hedge-NoHedging_example = execute_no_hedge-NoHedging settings services (request buy 10) w

execute-SameHedges_example : (execute settings services (request buy 10) w).1.hedges ≡ w.hedges
execute-SameHedges_example = execute-SameHedges settings services (request buy 10) w refl

validate_iff_example :
    ((validate settings services 10 buy yes_outcome w).0 ≡ ok market)
    ↔ (row : _) × (pda : ℕ) × (poly : _) × IsOpen settings services 10 w row pda poly
      × IsShaped market row pda poly buy yes_outcome
validate_iff_example = validate_iff settings services 10 buy yes_outcome w market

derive_user_price_bounds_example :
    (1 ≤ derive_user_price 2 45 buy)
    × (derive_user_price 2 45 buy ≡ max 1 (min 99 (45 + 2)))
    × (1 ≤ derive_user_price 2 45 sell)
    × (derive_user_price 2 45 sell ≡ max 1 (min 99 (45 - 2)))
derive_user_price_bounds_example = derive_user_price_bounds 2 45

-- Ten shares bought at 45 cents, of an order that is new.
abbrev filled_hedge : HedgeFilled
filled_hedge = record {
  polymarket_order_id = 51;
  filled_shares = 10;
  avg_price_cents = 45;
  netted_from_inventory = false;
  netted_inventory_ids = [];
}

settle_keeps_position_example :
    ((r : TradeResult) × ((settle settings no_solana (request buy 10) 64 market filled_hedge w).0
        ≡ ok r)
      × (r.filled_shares ≡ 10)
      × (r.price_paid_cents ≡ derive_user_price 2 45 buy)
      × IsSettled no_solana
          (final_quote settings no_solana (request buy 10) 64 market filled_hedge)
          w
          r.tx_signature
          (settle settings no_solana (request buy 10) 64 market filled_hedge w).1)
    ⊎ ((e : Failure) × ((settle settings no_solana (request buy 10) 64 market filled_hedge w).0
          ≡ err e)
        × Kept no_solana market filled_hedge
            (final_quote settings no_solana (request buy 10) 64 market filled_hedge)
            w
            (settle settings no_solana (request buy 10) 64 market filled_hedge w).1)
settle_keeps_position_example =
    settle_keeps_position settings no_solana (request buy 10) 64 market filled_hedge w refl refl
      refl refl refl

get_status_cached_ttl_example :
    (get_status_cached services 11 (get_status_cached services 11 w).1).0
    ≡ ok (
        if ltb services.now (services.now + status_ttl_ms)
        then some (record { closed = false; archived = false; accepting_orders = true })
        else services.gamma_status 11)
get_status_cached_ttl_example =
    get_status_cached_ttl services services 11
      (record { closed = false; archived = false; accepting_orders = true }) w refl refl

abbrev netted_six : NettingResult
netted_six = record {
  consumed =
      (record {
        inventory_id = 30;
        shares_consumed = 6;
        avg_price_cents = 40;
        polymarket_order_id = 31;
      })
      ∷ [];
  total_shares_netted = 6;
  remaining_shares = 4;
}

abbrev four_more : OrderResult
four_more = record {
  polymarket_order_id = some 51;
  filled_shares = 4;
  avg_price_cents = some 45;
  fully_filled = true;
}

combine_hedge_legs-within_example :
    (h : HedgeFilled) × (combine_hedge_legs netted_six (some four_more) ≡ ok h)
    × (40 ≤ h.avg_price_cents)
    × (h.avg_price_cents ≤ 45)
    × (h.filled_shares ≡ 6 + 4)
combine_hedge_legs-within_example =
    combine_hedge_legs-within 40 45 netted_six (some four_more) refl
      ((omega arith, omega arith), tt) (inr (45, refl, omega arith, omega arith)) (omega arith)

abbrev sold : TradeResult
sold = record {
  tx_signature = 63;
  polymarket_order_id = 3;
  filled_shares = 10;
  price_paid_cents = 47;
  total_usd = 470;
  request_id = 64;
  netted_from_inventory = false;
}

execute_no_hedge-IsPaid_example : IsPaid settings services (request buy 10) sold w
unfolding execute_no_hedge price_and_settle settle_on_solana validate shape_market assert_pretrade
    validate_pretrade check_market_status get_status_cached judge_status assert_user_can_trade
    load_user_pubkey assert_buy_funds buy_price_cap_cents pick_target_price derive_user_price
    clamp_cents sign_quote_internally derive_nonce persist_quote insert_quote place_order
    load_custodial_keypair load_market_pda assert_quote_market send_place_order
    record_fill_idempotent insert_fill mark_quote_consumed compute_total_usd ◌>>=◌
execute_no_hedge-IsPaid_example =
    execute_no_hedge-IsPaid settings services (request buy 10) w sold refl

assert_pretrade_covered_example :
    (pubkey : ℕ) × (wallet_of (user_row 20 w) ≡ some pubkey)
    × (((request buy 10).side ≡ buy)
          × (payout 10 (buy_price_cap_cents 2 buy (some 45) (some 44)) ≤ services.user_usdc pubkey)
        ⊎ ((request buy 10).side ≡ sell) × (10 ≤ services.user_shares pubkey 12 yes_outcome))
unfolding assert_pretrade validate_pretrade check_market_status get_status_cached judge_status
    check_funder_balance get_balance_cached judge_funder reference_price_cents assert_user_can_trade
    load_user_pubkey assert_buy_funds buy_price_cap_cents ◌>>=◌
assert_pretrade_covered_example =
    assert_pretrade_covered settings services
      (pretrade_args (request buy 10) market (some book) hedge) w refl

abbrev netted_all : NettingResult
netted_all = record {
  consumed =
      (record {
        inventory_id = 30;
        shares_consumed = 6;
        avg_price_cents = 40;
        polymarket_order_id = 31;
      })
      ∷ [];
  total_shares_netted = 6;
  remaining_shares = 0;
}

fully_netted-NotRestored_example :
    (hedge_and_settle settings no_solana (request buy 6) market w).1.inventory
    ≡ (attempt_netting no_solana market 6 w).1.inventory
unfolding attempt_netting net net_rows find_candidates sort_by_created insert_by_created
    try_claim_row mark_netted
fully_netted-NotRestored_example =
    fully_netted-NotRestored settings no_solana (request buy 6) market w netted_all
      (record {
        inventory_id = 30;
        shares_consumed = 6;
        avg_price_cents = 40;
        polymarket_order_id = 31;
      })
      [] refl refl refl refl
