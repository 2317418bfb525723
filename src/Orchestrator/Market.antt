-- ===== src/Orchestrator/Market.antt =====
-- Step 1 of a trade: is the market open to it, and which token is meant? `validate` and
-- `shape_market` of apps/server/services/service.trade-orchestrator.ts.
use highgarden.Base.{ℕ, Bool, true, false, not, Option, none, some, leb}
use highgarden.Base.Int.{abs}
use highgarden.Database.{
  Side, Outcome, yes_outcome, no_outcome, MarketStatus, paused_market, resolved_market, truthy,
}
use highgarden.Trade.{
  trade_error, other_error, MarketRow, PolyMarketRow, ExposureRow, ResolvedMarket, Services,
  Settings, Action, pure, gets, or_throw, throw_if, ◌>>=◌, ◌>>◌, find_market, market_not_found,
  market_not_listed_on_solana, market_paused, market_resolved, market_ended, exposure_limit,
}
use highgarden.SolanaTrade.{market_row}

abbrev pub is_paused : MarketRow → Bool
is_paused m = elim m.status [
  | paused_market ↦ true
  | _ ↦ elim m.exposure [ none ↦ false | some e ↦ e.paused ]
]

abbrev pub is_resolved : MarketStatus → Bool
is_resolved resolved_market = true
is_resolved _ = false

abbrev pub over_cap : ℕ → Option ExposureRow → Bool
over_cap cap none = false
over_cap cap (some e) = leb cap (abs e.unhedged_usd)

abbrev pub token_of : Outcome → PolyMarketRow → ℕ
token_of yes_outcome p = p.yes_token_id
token_of no_outcome p = p.no_token_id

unfoldable pub shape_market : MarketRow → ℕ → PolyMarketRow → Side → Outcome → ResolvedMarket
shape_market m pda p side outcome = record {
  id = m.id;
  poly_market_id = m.poly_market_id;
  solana_market_pda = pda;
  yes_token_id = p.yes_token_id;
  no_token_id = p.no_token_id;
  tick_size = p.tick_size;
  neg_risk = p.neg_risk;
  polymarket_side = side;
  outcome = outcome;
  token_id = token_of outcome p;
}

unfoldable pub validate : Settings → Services → ℕ → Side → Outcome → Action ResolvedMarket
validate st sv market_db_id side outcome = do
  throw_if (not (sv.db_up find_market)) other_error
  found ← gets (market_row market_db_id)
  row ← or_throw found (trade_error market_not_found 409)
  pda ← or_throw (truthy row.solana_market_pda) (trade_error market_not_listed_on_solana 409)
  throw_if (is_paused row) (trade_error market_paused 409)
  throw_if (is_resolved row.status) (trade_error market_resolved 409)
  throw_if (leb row.end_at sv.now) (trade_error market_ended 409)
  throw_if (over_cap st.unhedged_delta_cap_usd row.exposure) (trade_error exposure_limit 429)
  poly ← or_throw row.polymarket (trade_error market_not_found 422)
  pure (shape_market row pda poly side outcome)
