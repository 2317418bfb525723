-- ===== src/Orchestrator/Fill.antt =====
-- Steps 3 and 4: cover from inventory, and fill the rest on Polymarket (apps/server/services/service.trade-orchestrator.ts).
use highgarden.Base.{ℕ, Option, none, some, [], ◌∷◌, leb, if◌then◌else◌}
use highgarden.Netting.{NettingTarget, NettingResult, net}
use highgarden.Pricing.{pick_target_price, combine_hedge_legs, HedgeFilled}
use highgarden.Trade.{
  trade_error, other_error, ResolvedMarket, OrderRequest, OrderResult, Services, Action, ok, pure,
  or_throw, throw_if, modify, ◌>>=◌, ◌>>◌, stale_book, trade_unavailable,
}

-- When the netter throws.
abbrev pub nothing_netted : ℕ → NettingResult
nothing_netted shares = record { consumed = []; total_shares_netted = 0; remaining_shares = shares }

abbrev pub or_nothing : ℕ → Option NettingResult → NettingResult
or_nothing shares none = nothing_netted shares
or_nothing shares (some r) = r

abbrev pub netting_target : ResolvedMarket → ℕ → NettingTarget
netting_target market shares = record {
  market_id = market.id;
  polymarket_side = market.polymarket_side;
  outcome = market.outcome;
  shares_needed = shares;
}

unfoldable pub attempt_netting : Services → ResolvedMarket → ℕ → Action NettingResult
attempt_netting sv market shares w =
    let (r, t) = net sv.netting sv.now (netting_target market shares) w.inventory in
    (ok (or_nothing shares r), record w { inventory = t })

abbrev pub order_request : Services → ResolvedMarket → ℕ → ℕ → OrderRequest
order_request sv market shares price_cents = record {
  token_id = market.token_id;
  side = market.polymarket_side;
  size_shares = shares;
  price_cents = price_cents;
  tick_size = market.tick_size;
  neg_risk = market.neg_risk;
  client_order_id = sv.random_uuid;
}

-- Sends the order; a throw, a late reply and an empty fill are all TRADE_UNAVAILABLE.
unfoldable pub place_and_check : Services → OrderRequest → Action OrderResult
place_and_check sv order = do
  modify λ w. record w { orders = order ∷ w.orders }
  result ← or_throw (sv.place_market_order order) (trade_error trade_unavailable 503)
  throw_if (leb result.filled_shares 0) (trade_error trade_unavailable 503)
  pure result

abbrev pub place_rest : Services → ResolvedMarket → ℕ → Action (Option OrderResult)
place_rest sv market shares = do
  top ← or_throw (sv.fill_top market.token_id) other_error
  target_price ←
      or_throw (pick_target_price top market.polymarket_side) (trade_error stale_book 503)
  result ← place_and_check sv (order_request sv market shares target_price)
  pure (some result)

unfoldable pub fill_via_polymarket :
    Services → ResolvedMarket → NettingResult → Action (Option OrderResult)
unfolding place_and_check pick_target_price
fill_via_polymarket sv market netting =
    if leb netting.remaining_shares 0
    then pure none
    else place_rest sv market netting.remaining_shares

-- `combine_hedge_legs` as a step of a call.
abbrev pub combine : NettingResult → Option OrderResult → Action HedgeFilled
combine netting fill w = (combine_hedge_legs netting fill, w)
