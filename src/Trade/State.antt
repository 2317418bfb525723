-- ===== src/Trade/State.antt =====
-- The rows, requests and replies of a trade, the state and the services.
use highgarden.Base.{ℕ, Bool, Option, List}
use highgarden.Base.Int.{ℤ}
use highgarden.Database.{Side, Outcome, MarketStatus, InventoryRow, QuoteRow, FillRow}
use highgarden.Netting.{Interleaving}

pub data TradeErrorCode : Type 0 where
  market_not_found market_not_listed_on_solana market_paused market_resolved market_ended :
      TradeErrorCode
  market_closed_on_polymarket stale_book trade_unavailable trade_reconcile_pending : TradeErrorCode
  insufficient_usdc insufficient_treasury insufficient_shares insufficient_funder_balance :
      TradeErrorCode
  market_not_accepting_orders below_hedge_min_notional exposure_limit user_no_wallet :
      TradeErrorCode

-- Whatever is thrown: a `TradeError` with its HTTP status, or any other error.
pub data Failure : Type 0 where
  trade_error : TradeErrorCode → ℕ → Failure
  other_error : Failure

pub record PolyMarketRow : Type 0 where
  pub yes_token_id : ℕ
  pub no_token_id : ℕ
  pub tick_size : ℕ
  pub neg_risk : Bool

pub record ExposureRow : Type 0 where
  pub unhedged_usd : ℤ
  pub paused : Bool

-- A `Market` row with its `polymarket` and `exposure` relations.
pub record MarketRow : Type 0 where
  pub id : ℕ
  pub poly_market_id : ℕ
  pub solana_market_pda : Option ℕ
  pub status : MarketStatus
  pub end_at : ℕ
  pub polymarket : Option PolyMarketRow
  pub exposure : Option ExposureRow

pub record UserRow : Type 0 where
  pub id : ℕ
  pub custodial_public_key : Option ℕ
  pub custodial_secret_encrypted : Option ℕ

-- The `Hedge` row as the server writes it.
pub record ServerHedgeRow : Type 0 where
  pub fill_id : ℕ
  pub polymarket_order_id : ℕ
  pub polymarket_token_id : ℕ
  pub polymarket_side : Side
  pub bull_job_id : ℕ
  -- the nonce, for `server-<nonce>`
  pub client_order_id : Option ℕ
  pub requested_size : ℕ
  pub filled_size : ℕ
  pub avg_price : ℕ

pub record TradeRequest : Type 0 where
  pub user_id : ℕ
  pub market_db_id : ℕ
  pub side : Side
  pub outcome : Outcome
  pub size_shares : ℕ
  pub request_id : Option ℕ

pub record TradeResult : Type 0 where
  pub tx_signature : ℕ
  pub polymarket_order_id : ℕ
  pub filled_shares : ℕ
  pub price_paid_cents : ℕ
  -- in cents
  pub total_usd : ℕ
  pub request_id : ℕ
  pub netted_from_inventory : Bool

pub record ResolvedMarket : Type 0 where
  pub id : ℕ
  pub poly_market_id : ℕ
  pub solana_market_pda : ℕ
  pub yes_token_id : ℕ
  pub no_token_id : ℕ
  pub tick_size : ℕ
  pub neg_risk : Bool
  pub polymarket_side : Side
  pub outcome : Outcome
  pub token_id : ℕ

pub record BookTop : Type 0 where
  pub best_bid_cents : Option ℕ
  pub best_ask_cents : Option ℕ

-- The client order id, `server-<uuid>`, is the uuid.
pub record OrderRequest : Type 0 where
  pub token_id : ℕ
  pub side : Side
  pub size_shares : ℕ
  pub price_cents : ℕ
  pub tick_size : ℕ
  pub neg_risk : Bool
  pub client_order_id : ℕ

pub record OrderResult : Type 0 where
  pub polymarket_order_id : Option ℕ
  pub filled_shares : ℕ
  pub avg_price_cents : Option ℕ
  pub fully_filled : Bool

pub record SignedQuote : Type 0 where
  pub market : ℕ
  pub side : Side
  pub outcome : Outcome
  pub price : ℕ
  pub size : ℕ
  pub expires_at : ℕ
  pub nonce : ℕ

pub record GammaStatus : Type 0 where
  pub closed : Bool
  pub archived : Bool
  pub accepting_orders : Bool

pub record CacheSlot (V : Type 0) : Type 0 where
  pub value : V
  pub expires_at : ℕ

-- The tables, what has been sent out (newest first), and the validator's caches.
pub record World : Type 0 where
  pub markets : List MarketRow
  pub users : List UserRow
  pub inventory : List InventoryRow
  pub quotes : List QuoteRow
  pub fills : List FillRow
  pub hedges : List ServerHedgeRow
  -- orders sent to Polymarket
  pub orders : List OrderRequest
  -- `place_order` transactions that went through on Solana
  pub submissions : List SignedQuote
  pub status_cache : List (ℕ × CacheSlot GammaStatus)
  pub balance_cache : Option (CacheSlot ℕ)
  -- the next row id that the database hands out
  pub next_id : ℕ

pub record Settings : Type 0 where
  pub spread_cents : ℕ
  pub unhedged_delta_cap_usd : ℕ
  pub quote_expiry_seconds : ℕ
  pub fee_payer_set : Bool

-- The database calls of the trade services that can fail by themselves.
pub data DbCall : Type 0 where
  find_market find_user create_quote find_keypair find_pda record_fill consume_quote : DbCall
  create_fill_and_hedge create_orphan : DbCall

-- What becomes of a transaction: whether it goes through on Solana, and the signature that the client gives back, none
-- where it throws. The client throws where the confirmation is lost, and it does not look at the error of a
-- confirmed transaction, so each goes without the other.
pub record SendReply : Type 0 where
  pub landed : Bool
  pub signature : Option ℕ

-- What the world outside answers in the course of one request; `none` is a call that throws.
pub record Services : Type 0 where
  pub now : ℕ
  pub random_uuid : ℕ
  pub random_nonce : ℕ
  -- the first 16 bytes of the SHA-256 of a request id, in hex
  pub nonce_of : ℕ → ℕ
  pub db_up : DbCall → Bool
  pub netting : Interleaving
  -- the two reads of the book by `execute`
  pub preflight_top : ℕ → Option BookTop
  pub fill_top : ℕ → Option BookTop
  -- `none` also where the reply comes after the timeout
  pub place_market_order : OrderRequest → Option OrderResult
  pub gamma_status : ℕ → Option GammaStatus
  pub funder_pusd : Option ℕ
  pub user_usdc : ℕ → ℕ
  pub user_shares : ℕ → ℕ → Outcome → ℕ
  pub treasury : ℕ
  -- the quote signer's key is set
  pub signer_configured : Bool
  -- the stored secret decrypts to the key pair of the stored public key
  pub keypair_matches : ℕ → ℕ → Bool
  pub send_place_order : SignedQuote → SendReply
