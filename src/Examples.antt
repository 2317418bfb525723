-- ===== src/Examples.antt =====
-- A market, a user and a day on which everything answers: the data of the examples.
mod Netting
mod Trade
mod Hedger
mod Recovery
mod Cursor
mod Contract
mod Liquidator
mod Ingest
mod Resolution
mod Idempotency
use highgarden.Base.{ℕ, Bool, true, false, Option, none, some, List, [], ◌∷◌}
use highgarden.Base.Int.{pos}
use highgarden.Database.{
  Side, buy, sell, Outcome, yes_outcome, no_outcome, open_market, InventoryRow, QuoteRow,
}
use highgarden.Netting.{alone, Table, NettingTarget}
use highgarden.Trade.{
  World, MarketRow, PolyMarketRow, UserRow, Services, Settings, TradeRequest, OrderResult, BookTop,
  SignedQuote, SendReply, OrderRequest,
}

abbrev pub poly_row : PolyMarketRow
poly_row = record { yes_token_id = 71; no_token_id = 72; tick_size = 1; neg_risk = false }

abbrev pub market_one : MarketRow
market_one = record {
  id = 10;
  poly_market_id = 11;
  solana_market_pda = some 12;
  status = open_market;
  end_at = 9_000_000;
  polymarket = some poly_row;
  exposure = none;
}

abbrev pub user_one : UserRow
user_one = record { id = 20; custodial_public_key = some 21; custodial_secret_encrypted = some 22 }

-- Six shares bought at 40 cents, of which nobody has the other side.
abbrev pub orphan_one : InventoryRow
orphan_one = record {
  id = 30;
  market_id = 10;
  polymarket_order_id = 31;
  polymarket_token_id = 71;
  side = buy;
  outcome = yes_outcome;
  shares = 6;
  avg_price_cents = 40;
  created_at = 500;
  netted_at = none;
  liquidated_at = none;
}

abbrev pub stock : Table
stock = orphan_one ∷ []

abbrev pub world_with : Table → World
world_with t = record {
  markets = market_one ∷ [];
  users = user_one ∷ [];
  inventory = t;
  quotes = [];
  fills = [];
  hedges = [];
  orders = [];
  submissions = [];
  status_cache = [];
  balance_cache = none;
  next_id = 100;
}

abbrev pub settings : Settings
settings = record {
  spread_cents = 2;
  unhedged_delta_cap_usd = 1000;
  quote_expiry_seconds = 60;
  fee_payer_set = true;
}

abbrev pub book : BookTop
book = record { best_bid_cents = some 44; best_ask_cents = some 45 }

-- Polymarket fills the whole order at its price.
abbrev pub fills_whole : OrderRequest → Option OrderResult
fills_whole o = some (record {
  polymarket_order_id = some 51;
  filled_shares = o.size_shares;
  avg_price_cents = some o.price_cents;
  fully_filled = true;
})

abbrev pub services_with : (SignedQuote → SendReply) → Services
services_with send = record {
  now = 2_000_000;
  random_uuid = 61;
  random_nonce = 62;
  nonce_of = λ r. r;
  db_up = λ q. true;
  netting = alone;
  preflight_top = λ t. some book;
  fill_top = λ t. some book;
  place_market_order = fills_whole;
  gamma_status = λ m. some (record { closed = false; archived = false; accepting_orders = true });
  funder_pusd = some 1_000_000_000;
  user_usdc = λ k. 50_000_000;
  user_shares = λ k m o. 100;
  treasury = 1_000_000_000;
  signer_configured = true;
  keypair_matches = λ s p. true;
  send_place_order = send;
}

-- Solana takes every transaction, or none.
abbrev pub services : Services
services = services_with (λ q. record { landed = true; signature = some 63 })

abbrev pub no_solana : Services
no_solana = services_with (λ q. record { landed = false; signature = none })

abbrev pub request : Side → ℕ → TradeRequest
request side shares = record {
  user_id = 20;
  market_db_id = 10;
  side = side;
  outcome = yes_outcome;
  size_shares = shares;
  request_id = some 64;
}

abbrev pub target : NettingTarget
target = record { market_id = 10; polymarket_side = buy; outcome = yes_outcome; shares_needed = 10 }
