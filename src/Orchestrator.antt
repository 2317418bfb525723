-- ===== src/Orchestrator.antt =====
-- apps/server/services/service.trade-orchestrator.ts: a trade from the request to the rows it leaves.
--
-- `execute` is hedge first: cover from inventory, fill the rest on Polymarket, then sign and submit
-- on Solana. `execute_no_hedge` and `execute_solana_only` settle on Solana alone.
mod Market
pub mod Gate
mod Fill
pub mod Safety
pub mod Blocked
pub mod HedgeRow
pub mod NoHedge
pub mod Paid
pub mod Steps
pub mod Losses
pub mod Netted
unfoldable pub use Market.*
unfoldable pub use Fill.*
use highgarden.Base.{
  ℕ, ◌+◌, ◌*◌, ◌/◌, Bool, true, false, not, Option, none, some, or_else, ◌==◌, if◌then◌else◌,
}
use highgarden.Database.{Side, buy, sell, empty_text, no_hedge_text, skipped_text}
use highgarden.Pricing.{
  HedgeFilled, derive_user_price, pick_target_price, compute_total_usd, combine_hedge_legs,
}
use highgarden.Validation.{Mode, hedge, no_hedge}
use highgarden.Pretrade.{PretradeArgs, assert_pretrade, assert_treasury_can_cover}
use highgarden.Records.{
  persist_quote, mark_quote_consumed, persist_fill_and_hedge, record_orphan_inventory,
}
use highgarden.SolanaTrade.{place_order}
use highgarden.Trade.{
  Failure, trade_error, other_error, World, TradeRequest, TradeResult, ResolvedMarket, BookTop,
  SignedQuote, Services, Settings, Action, Result, ok, err, pure, throw, or_throw, throw_if, catch,
  ◌>>=◌, ◌>>◌, stale_book, trade_reconcile_pending,
}

-- Null when Polymarket is out of reach.
abbrev pub top_ask : Option BookTop → Option ℕ
top_ask none = none
top_ask (some t) = t.best_ask_cents

abbrev pub top_bid : Option BookTop → Option ℕ
top_bid none = none
top_bid (some t) = t.best_bid_cents

abbrev pub pretrade_args : TradeRequest → ResolvedMarket → Option BookTop → Mode → PretradeArgs
pretrade_args req market top mode = record {
  user_id = req.user_id;
  side = req.side;
  outcome = req.outcome;
  size_shares = req.size_shares;
  market_pda = market.solana_market_pda;
  polymarket_market_id = market.poly_market_id;
  polymarket_side = market.polymarket_side;
  top_ask_cents = top_ask top;
  top_bid_cents = top_bid top;
  mode = mode;
}

unfoldable pub derive_nonce : Services → ℕ → ℕ
derive_nonce sv request_id =
    if request_id == empty_text then sv.random_nonce else sv.nonce_of request_id

abbrev pub quote_of : ResolvedMarket → TradeRequest → ℕ → ℕ → ℕ → ℕ → SignedQuote
quote_of market req price_cents size_shares nonce expires_at_unix = record {
  market = market.solana_market_pda;
  side = req.side;
  outcome = req.outcome;
  price = price_cents;
  size = size_shares;
  expires_at = expires_at_unix;
  nonce = nonce;
}

-- Throws where the signer's key is not set.
unfoldable pub sign_quote_internally : Services → SignedQuote → Action SignedQuote
sign_quote_internally sv quote = do throw_if (not sv.signer_configured) other_error; pure quote

abbrev pub expiry : Settings → Services → ℕ
expiry st sv = sv.now / 1000 + st.quote_expiry_seconds

unfoldable pub submit_solana_or_record_inventory :
    Settings → Services → TradeRequest → ResolvedMarket → SignedQuote → HedgeFilled → Action ℕ
submit_solana_or_record_inventory st sv req market signed hedge_filled =
    catch (place_order st sv req.user_id req.market_db_id signed) λ e.
      record_orphan_inventory sv market hedge_filled
      >> throw (trade_error trade_reconcile_pending 500)

-- A seller's payout must be covered; if not, what was just filled becomes inventory.
abbrev pub cover_sell : Services → ResolvedMarket → HedgeFilled → ℕ → Side → Action (Unit {0})
cover_sell sv market hedge_filled price_cents buy = pure tt
cover_sell sv market hedge_filled price_cents sell =
    catch (assert_treasury_can_cover sv hedge_filled.filled_shares price_cents)
      λ e. record_orphan_inventory sv market hedge_filled >> throw e

abbrev pub result_of : ℕ → ℕ → ℕ → ℕ → ℕ → Bool → TradeResult
result_of sig order_id shares price_cents request_id netted = record {
  tx_signature = sig;
  polymarket_order_id = order_id;
  filled_shares = shares;
  price_paid_cents = price_cents;
  total_usd = compute_total_usd shares price_cents;
  request_id = request_id;
  netted_from_inventory = netted;
}

-- `execute` from the moment at which the hedge is in place.
unfoldable pub settle :
    Settings → Services → TradeRequest → ℕ → ResolvedMarket → HedgeFilled → Action TradeResult
settle st sv req request_id market hedge_filled =
    let price = derive_user_price st.spread_cents hedge_filled.avg_price_cents req.side in
    let quote =
      quote_of market req price hedge_filled.filled_shares (derive_nonce sv request_id)
        (expiry st sv) in
    do
      cover_sell sv market hedge_filled price req.side
      signed ← sign_quote_internally sv quote
      persist_quote sv market.id req price hedge_filled.filled_shares signed (expiry st sv)
      sig ← submit_solana_or_record_inventory st sv req market signed hedge_filled
      mark_quote_consumed sv signed.nonce
      persist_fill_and_hedge sv req market signed hedge_filled price sig
      pure (
          result_of sig hedge_filled.polymarket_order_id hedge_filled.filled_shares price request_id
            hedge_filled.netted_from_inventory)

-- `execute` from the checks on.
unfoldable pub hedge_and_settle :
    Settings → Services → TradeRequest → ResolvedMarket → Action TradeResult
hedge_and_settle st sv req market = do
  netting ← attempt_netting sv market req.size_shares
  polymarket_fill ← fill_via_polymarket sv market netting
  hedge_filled ← combine netting polymarket_fill
  settle st sv req (or_else req.request_id sv.random_uuid) market hedge_filled

unfoldable pub execute : Settings → Services → TradeRequest → Action TradeResult
execute st sv req = do
  market ← validate st sv req.market_db_id req.side req.outcome
  let top = sv.preflight_top market.token_id
  assert_pretrade st sv (pretrade_args req market top hedge)
  hedge_and_settle st sv req market

-- The price is read off the live book; there is no fallback price.
abbrev pub reference_price : Option BookTop → Side → Option ℕ
reference_price none side = none
reference_price (some t) side = pick_target_price t side

abbrev pub cover_no_hedge : Services → ℕ → ℕ → Side → Action (Unit {0})
cover_no_hedge sv shares price_cents buy = pure tt
cover_no_hedge sv shares price_cents sell = assert_treasury_can_cover sv shares price_cents

-- Sign, persist, submit and mark: the end of both paths that settle on Solana alone.
unfoldable pub settle_on_solana :
    Settings → Services → TradeRequest → ℕ → ResolvedMarket → ℕ → ℕ → Action TradeResult
settle_on_solana st sv req request_id market price order_id = do
  signed ←
      sign_quote_internally sv
        (quote_of market req price req.size_shares (derive_nonce sv request_id) (expiry st sv))
  persist_quote sv market.id req price req.size_shares signed (expiry st sv)
  sig ← place_order st sv req.user_id req.market_db_id signed
  mark_quote_consumed sv signed.nonce
  pure (result_of sig order_id req.size_shares price request_id false)

unfoldable pub price_and_settle :
    Settings → Services → TradeRequest → ResolvedMarket → Option BookTop → Action TradeResult
price_and_settle st sv req market top = do
  reference_cents ←
      or_throw (reference_price top market.polymarket_side) (trade_error stale_book 503)
  let price = derive_user_price st.spread_cents reference_cents req.side
  cover_no_hedge sv req.size_shares price req.side
  settle_on_solana st sv req (or_else req.request_id sv.random_uuid) market price no_hedge_text

unfoldable pub execute_no_hedge : Settings → Services → TradeRequest → Action TradeResult
execute_no_hedge st sv req = do
  market ← validate st sv req.market_db_id req.side req.outcome
  let top = sv.preflight_top market.token_id
  assert_pretrade st sv (pretrade_args req market top no_hedge)
  price_and_settle st sv req market top

-- A test path at a fixed price of 50 cents.
unfoldable pub execute_solana_only : Settings → Services → TradeRequest → Action TradeResult
execute_solana_only st sv req = do
  market ← validate st sv req.market_db_id req.side req.outcome
  settle_on_solana st sv req (or_else req.request_id sv.random_uuid) market 50 skipped_text
