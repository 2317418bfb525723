-- ===== src/Pretrade.antt =====
-- The checks of a trade before anything is sent: the assertions of
-- apps/server/services/service.pre-trade-validator.ts.
pub mod Cover
pub mod Refusals
use highgarden.Base.{
  ℕ, ◌+◌, ◌*◌, ◌/◌, Bool, true, false, not, Option, none, some, List, [], ◌∷◌, ltb, leb, ◌==◌, min,
  max, find, if◌then◌else◌,
}
use highgarden.Database.{Side, buy, sell, Outcome, truthy}
use highgarden.Trade.{
  Failure, trade_error, other_error, World, UserRow, Services, Settings, Action, Result, ok, err,
  pure, throw, gets, or_throw, throw_if, ◌>>=◌, ◌>>◌, insufficient_treasury, insufficient_usdc,
  insufficient_shares, user_no_wallet, find_user,
}
use highgarden.Validation.{
  Mode, Validation, valid, invalid, ValidateInput, validate, translate_validation_failure,
}

abbrev pub buy_price_fallback_cents : ℕ
buy_price_fallback_cents = 99

abbrev pub buy_price_buffer_cents : ℕ
buy_price_buffer_cents = 2

abbrev pub usdc_per_cent : ℕ
usdc_per_cent = 10_000

pub record PretradeArgs : Type 0 where
  pub user_id : ℕ
  pub side : Side
  pub outcome : Outcome
  pub size_shares : ℕ
  pub market_pda : ℕ
  pub polymarket_market_id : ℕ
  pub polymarket_side : Side
  pub top_ask_cents : Option ℕ
  pub top_bid_cents : Option ℕ
  pub mode : Mode

-- The price that the order would cross: polymarket_side === "BUY" ? top_ask : top_bid
abbrev pub reference : Side → Option ℕ → Option ℕ → Option ℕ
reference buy ask bid = ask
reference sell ask bid = bid

abbrev pub cap_of : ℕ → Option ℕ → ℕ
cap_of spread none = buy_price_fallback_cents
cap_of spread (some r) = min buy_price_fallback_cents (max 1 (r + spread + buy_price_buffer_cents))

unfoldable pub buy_price_cap_cents : ℕ → Side → Option ℕ → Option ℕ → ℕ
buy_price_cap_cents spread side ask bid = cap_of spread (reference side ask bid)

abbrev pub midpoint_of : Option ℕ → ℕ
midpoint_of none = 50
midpoint_of (some r) = r

unfoldable pub reference_price_cents : Side → Option ℕ → Option ℕ → ℕ
reference_price_cents side ask bid = midpoint_of (reference side ask bid)

-- A user's row, or null.
abbrev pub user_row : ℕ → World → Option UserRow
user_row id w = find (λ u. u.id == id) w.users

abbrev pub wallet_of : Option UserRow → Option ℕ
wallet_of none = none
wallet_of (some u) = truthy u.custodial_public_key

unfoldable pub load_user_pubkey : Services → ℕ → Action ℕ
load_user_pubkey sv id = do
  throw_if (not (sv.db_up find_user)) other_error
  row ← gets (user_row id)
  or_throw (wallet_of row) (trade_error user_no_wallet 409)

-- shares × price in millionths of a dollar
abbrev pub payout : ℕ → ℕ → ℕ
payout shares price_cents = shares * price_cents * usdc_per_cent

unfoldable pub assert_treasury_can_cover : Services → ℕ → ℕ → Action (Unit {0})
assert_treasury_can_cover sv shares price_cents =
    if leb shares 0
    then pure tt
    else throw_if (ltb sv.treasury (payout shares price_cents))
        (trade_error insufficient_treasury 503)

unfoldable pub assert_buy_funds : Settings → Services → ℕ → PretradeArgs → Action (Unit {0})
unfolding buy_price_cap_cents
assert_buy_funds st sv pubkey args =
    throw_if
      (ltb (sv.user_usdc pubkey) (
        payout args.size_shares (
          buy_price_cap_cents st.spread_cents args.polymarket_side args.top_ask_cents
            args.top_bid_cents)))
      (trade_error insufficient_usdc 402)

unfoldable pub assert_sell_shares : Services → ℕ → PretradeArgs → Action (Unit {0})
assert_sell_shares sv pubkey args =
    throw_if (ltb (sv.user_shares pubkey args.market_pda args.outcome) args.size_shares)
      (trade_error insufficient_shares 409)

abbrev pub assert_side : Settings → Services → ℕ → PretradeArgs → Side → Action (Unit {0})
assert_side st sv pubkey args buy = assert_buy_funds st sv pubkey args
assert_side st sv pubkey args sell = assert_sell_shares sv pubkey args

unfoldable pub assert_user_can_trade : Settings → Services → PretradeArgs → Action (Unit {0})
assert_user_can_trade st sv args = do
  pubkey ← load_user_pubkey sv args.user_id
  assert_side st sv pubkey args args.side

-- size × reference / 100 dollars, in millionths
abbrev pub notional_usd : PretradeArgs → ℕ
notional_usd args =
    args.size_shares
    * reference_price_cents args.polymarket_side args.top_ask_cents args.top_bid_cents
    * usdc_per_cent

abbrev pub validate_input : PretradeArgs → ValidateInput
validate_input args = record {
  polymarket_market_id = args.polymarket_market_id;
  side = args.side;
  estimated_hedge_cost_usd = notional_usd args;
  polymarket_notional_usd = notional_usd args;
  mode = args.mode;
}

abbrev pub or_reject : Validation → Action (Unit {0})
or_reject valid = pure tt
or_reject (invalid code) = throw (translate_validation_failure code)

unfoldable pub assert_pretrade : Settings → Services → PretradeArgs → Action (Unit {0})
assert_pretrade st sv args = do
  market_validation ← validate sv (validate_input args)
  or_reject market_validation
  assert_user_can_trade st sv args
