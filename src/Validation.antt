-- ===== src/Validation.antt =====
-- `validate` of apps/server/services/service.pre-trade-validator.ts: is the market open on Polymarket,
-- and can the platform hedge there?
--
-- The caches live as long as the server, in the shared state. A Map is a list of entries, the newest
-- first.
pub mod Caches
use highgarden.Base.{
  ℕ, ◌+◌, ◌*◌, Bool, true, false, ◌||◌, not, Option, none, some, List, [], ◌∷◌, ltb, leb, ◌==◌, min,
  max, if◌then◌else◌,
}
use highgarden.Database.{Side, buy, sell, Outcome, truthy}
use highgarden.Trade.{
  TradeErrorCode, Failure, trade_error, other_error, World, UserRow, Services, Settings, DbCall,
  GammaStatus, CacheSlot, Action, Result, ok, err, pure, throw, gets, or_throw, throw_if, modify,
  ◌>>=◌, ◌>>◌, market_closed_on_polymarket, market_not_accepting_orders, below_hedge_min_notional,
  insufficient_funder_balance, insufficient_treasury, insufficient_usdc, insufficient_shares,
  user_no_wallet, find_user, BookTop,
}

abbrev pub status_ttl_ms : ℕ
status_ttl_ms = 30_000

abbrev pub balance_ttl_ms : ℕ
balance_ttl_ms = 30_000

-- 5 pUSD
abbrev pub min_funder_buffer_pusd : ℕ
min_funder_buffer_pusd = 5_000_000

-- $1
abbrev pub polymarket_min_notional_usd : ℕ
polymarket_min_notional_usd = 1_000_000

pub data Mode : Type 0 where
  hedge no_hedge : Mode

-- A `ValidationFailure` is its code.
pub data Validation : Type 0 where
  valid : Validation
  invalid : TradeErrorCode → Validation

pub record ValidateInput : Type 0 where
  pub polymarket_market_id : ℕ
  pub side : Side
  pub estimated_hedge_cost_usd : ℕ
  pub polymarket_notional_usd : ℕ
  pub mode : Mode

abbrev pub http_status : TradeErrorCode → ℕ
http_status market_closed_on_polymarket = 409
http_status market_not_accepting_orders = 409
http_status below_hedge_min_notional = 422
http_status _ = 503

-- Also the `throw` in front of it.
unfoldable pub translate_validation_failure : TradeErrorCode → Failure
translate_validation_failure code = trade_error code (http_status code)

-- status_cache.get(id)
abbrev pub cached_status : ℕ → List (ℕ × CacheSlot GammaStatus) → Option (CacheSlot GammaStatus)
cached_status id [] = none
cached_status id ((j, slot) ∷ m) = if j == id then some slot else cached_status id m

abbrev pub live_status : ℕ → Option (CacheSlot GammaStatus) → Option GammaStatus
live_status now none = none
live_status now (some slot) = if ltb now slot.expires_at then some slot.value else none

abbrev pub store_status : ℕ → ℕ → Option GammaStatus → Action (Option GammaStatus)
store_status now id none = pure none
store_status now id (some fresh) = do
  modify λ w. record w {
    status_cache =
        (id, record { value = fresh; expires_at = now + status_ttl_ms }) ∷ w.status_cache;
  }
  pure (some fresh)

abbrev pub or_fetch : Option GammaStatus → Action (Option GammaStatus) → Action (Option GammaStatus)
or_fetch (some s) m = pure (some s)
or_fetch none m = m

unfoldable pub get_status_cached : Services → ℕ → Action (Option GammaStatus)
get_status_cached sv id = do
  slot ← gets (λ w. cached_status id w.status_cache)
  or_fetch (live_status sv.now slot) (store_status sv.now id (sv.gamma_status id))

-- Gamma out of reach passes.
unfoldable pub judge_status : Option GammaStatus → Validation
judge_status none = valid
judge_status (some s) =
    if s.closed || s.archived
    then invalid market_closed_on_polymarket
    else if not s.accepting_orders
    then invalid market_not_accepting_orders
    else valid

unfoldable pub check_market_status : Services → ℕ → Action Validation
unfolding get_status_cached judge_status
check_market_status sv id = do status ← get_status_cached sv id; pure (judge_status status)

abbrev pub live_balance : ℕ → Option (CacheSlot ℕ) → Option ℕ
live_balance now none = none
live_balance now (some slot) = if ltb now slot.expires_at then some slot.value else none

abbrev pub store_balance : ℕ → Option ℕ → Action (Option ℕ)
store_balance now none = pure none
store_balance now (some fresh) = do
  modify λ w. record w {
    balance_cache = some (record { value = fresh; expires_at = now + balance_ttl_ms });
  }
  pure (some fresh)

abbrev pub or_read : Option ℕ → Action (Option ℕ) → Action (Option ℕ)
or_read (some b) m = pure (some b)
or_read none m = m

unfoldable pub get_balance_cached : Services → Action (Option ℕ)
get_balance_cached sv = do
  slot ← gets (λ w. w.balance_cache)
  or_read (live_balance sv.now slot) (store_balance sv.now sv.funder_pusd)

-- A balance that cannot be read passes.
unfoldable pub judge_funder : ℕ → Option ℕ → Validation
judge_funder cost none = valid
judge_funder cost (some balance) =
    if ltb balance (cost + min_funder_buffer_pusd)
    then invalid insufficient_funder_balance
    else valid

unfoldable pub check_funder_balance : Services → ℕ → Action Validation
unfolding get_balance_cached judge_funder
check_funder_balance sv cost = do balance ← get_balance_cached sv; pure (judge_funder cost balance)

-- The checks of `validate` after the market's status.
abbrev pub check_execution : Services → Mode → Side → ValidateInput → Action Validation
check_execution sv no_hedge side input = pure valid
check_execution sv hedge side input =
    if ltb input.polymarket_notional_usd polymarket_min_notional_usd
    then pure (invalid below_hedge_min_notional)
    else elim side [
      | buy ↦ check_funder_balance sv input.estimated_hedge_cost_usd
      | sell ↦ pure valid
    ]

abbrev pub and_then : Validation → Action Validation → Action Validation
and_then valid m = m
and_then (invalid code) m = pure (invalid code)

unfoldable pub validate : Services → ValidateInput → Action Validation
validate sv input = do
  market_check ← check_market_status sv input.polymarket_market_id
  and_then market_check (check_execution sv input.mode input.side input)
