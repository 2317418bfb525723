-- ===== src/Hedger/State.antt =====
-- The rows and replies that one hedge job works on: apps/hedger/hedger/types.ts and the row types of
-- apps/hedger/db.
use highgarden.Base.{ℕ, Bool, Option, List}
use highgarden.Base.Int.{ℤ}
use highgarden.Database.{Side, Outcome, HedgeStatus, QuoteRow, FillRow}
use highgarden.Call.{Reply, Call}
use highgarden.Trade.{MarketRow, UserRow, BookTop, OrderResult}

-- The text `hedger-<bull job id>`, or `server-<nonce>` on a row of the server's.
pub data ClientId : Type 0 where
  hedger_id server_id : ℕ → ClientId

-- The client order id of an order: the hedge's, or `<the hedge's>-walk-<n>`.
pub data OrderTag : Type 0 where
  initial_order : Option ClientId → OrderTag
  walk_order : Option ClientId → ℕ → OrderTag

pub record HedgeRow : Type 0 where
  pub id : ℕ
  pub fill_id : ℕ
  pub status : HedgeStatus
  pub bull_job_id : Option ℕ
  pub client_order_id : Option ClientId
  pub polymarket_order_id : Option ℕ
  pub polymarket_token_id : Option ℕ
  pub polymarket_side : Option Side
  pub requested_size : Option ℕ
  pub filled_size : ℕ
  pub avg_price : Option ℕ
  pub attempts : ℕ
  pub last_error : Option ℕ

-- An `Exposure` row, in whole dollars.
pub record Exposure : Type 0 where
  pub market_id : ℕ
  pub unhedged_usd : ℤ
  pub paused : Bool

pub record HedgeOrder : Type 0 where
  pub token_id : ℕ
  pub side : Side
  pub size_shares : ℕ
  pub price_cents : ℤ
  pub tick_size : ℕ
  pub neg_risk : Bool
  pub client_order_id : OrderTag

-- The tables, and the orders sent to Polymarket, newest first.
pub record Tables : Type 0 where
  pub users : List UserRow
  pub markets : List MarketRow
  pub quotes : List QuoteRow
  pub fills : List FillRow
  pub hedges : List HedgeRow
  pub exposures : List Exposure
  pub orders : List HedgeOrder
  pub next_id : ℕ

-- Thrown: a `RetryableError`, or any other error.
pub data HedgeFailure : Type 0 where
  retryable unexpected : HedgeFailure

abbrev pub HedgeCall : Type 0 → Type 0
HedgeCall A = Call Tables HedgeFailure A

-- The database calls of a job.
pub data Query : Type 0 where
  find_user find_market find_fill create_fill find_hedge create_hedge : Query
  mark_hedging_row add_exposure mark_done_row settle_exposure : Query

-- What the outside answers in the course of one attempt.
pub record HedgeServices : Type 0 where
  pub slippage_limit_cents : ℕ
  -- the call reaches the database
  pub query_up : Query → Bool
  -- what other writers add between a lookup and the `create` that follows it
  pub rival_fills : List FillRow → List FillRow
  pub rival_hedges : List HedgeRow → List HedgeRow
  -- a token's book; `none` is a throw
  pub top_of_book : ℕ → Option BookTop
  -- the reply to an order, which may depend on all orders sent before it
  pub place_market_order : List HedgeOrder → HedgeOrder → Reply HedgeFailure OrderResult

-- The payload of a job: the event's fields, with the nonce in hex, which is also the job's id.
pub record HedgeJob : Type 0 where
  pub attempts_made : ℕ
  pub user : ℕ
  pub market : ℕ
  pub side : ℕ
  pub outcome : ℕ
  pub size : ℕ
  pub price : ℕ
  pub nonce : ℕ
  pub signature : ℕ

pub data HedgeResult : Type 0 where
  job_filled : ℕ → Option ℕ → Option ℕ → HedgeResult
  job_partial : ℕ → Option ℕ → HedgeResult
  job_skipped : HedgeStatus → HedgeResult

pub record HedgeDirection : Type 0 where
  pub token_id : ℕ
  pub polymarket_side : Side
  pub outcome : Outcome

pub record MarketMetadata : Type 0 where
  pub id : ℕ
  pub yes_token_id : ℕ
  pub no_token_id : ℕ
  pub tick_size : ℕ
  pub neg_risk : Bool

pub record ResolvedContext : Type 0 where
  pub user : ℕ
  pub market : MarketMetadata
  pub fill : FillRow
  pub hedge : HedgeRow
  pub direction : HedgeDirection
