-- ===== src/Pretrade/Cover.antt =====
-- What the checks before a trade ask for: apps/server/services/service.pre-trade-validator.ts.
use highgarden.Base.{◌⊎◌, ℕ, ◌≤◌, ◌≡◌, ap, sym, ◌∙◌, List, find, ◌==◌, Option, some, arith}
use highgarden.Validation.Caches.{validate-Untouched}
use highgarden.Pretrade.Refusals.{reject-Untouched}
use highgarden.Database.{by_side, buy, sell}
use highgarden.Trade.{
  ◌>>=◌, World, Services, Settings, ok, Untouched, Untouched-trans, UserRow, bind-ok, ◌>>◌,
}
use highgarden.Pricing.{derive_user_price}
use highgarden.Validation.{validate}
use highgarden.Pretrade.{
  PretradeArgs, assert_pretrade, assert_user_can_trade, assert_buy_funds, assert_sell_shares,
  user_row, wallet_of, assert_side, validate_input, or_reject, load_user_pubkey, payout,
  buy_price_cap_cents,
}

-- The cap that the check reserves is no less than the price that the user will pay, at the same book.
pub cap-covers :
    (spread r : ℕ) (ask bid : Option ℕ)
    → ask ≡ some r
    → derive_user_price spread r buy ≤ buy_price_cap_cents spread buy ask bid
unfolding derive_user_price buy_price_cap_cents
cap-covers spread r ask bid e = rw e (ground arith)

load_user_pubkey_ok :
    (sv : Services) (id : ℕ) (w : World) (pubkey : ℕ)
    → (load_user_pubkey sv id w).0 ≡ ok pubkey
    → wallet_of (user_row id w) ≡ some pubkey
unfolding load_user_pubkey ◌>>=◌
load_user_pubkey_ok sv id w pubkey h = ground arith

assert_side_ok :
    (st : Settings) (sv : Services) (pubkey : ℕ) (args : PretradeArgs) (w : World)
    → (assert_side st sv pubkey args args.side w).0 ≡ ok tt
    → (args.side ≡ buy
        → payout args.size_shares (
            buy_price_cap_cents st.spread_cents args.polymarket_side args.top_ask_cents
              args.top_bid_cents)
          ≤ sv.user_usdc pubkey)
      × (args.side ≡ sell → args.size_shares ≤ sv.user_shares pubkey args.market_pda args.outcome)
unfolding assert_buy_funds assert_sell_shares
assert_side_ok st sv pubkey args w h = (λ e. ground arith, λ e. ground arith)

-- What a trade that passes the checks has behind it: the user's wallet, and in it the money for the
-- whole size at the cap, or the shares to sell.
abbrev pub Covered : Settings → Services → PretradeArgs → World → Type 0
Covered st sv args w =
    (pubkey : ℕ) × (wallet_of (user_row args.user_id w) ≡ some pubkey)
    × (args.side ≡ buy
        → payout args.size_shares (
            buy_price_cap_cents st.spread_cents args.polymarket_side args.top_ask_cents
              args.top_bid_cents)
          ≤ sv.user_usdc pubkey)
    × (args.side ≡ sell → args.size_shares ≤ sv.user_shares pubkey args.market_pda args.outcome)

user_can_trade_ok :
    (st : Settings) (sv : Services) (args : PretradeArgs) (w : World)
    → (assert_user_can_trade st sv args w).0 ≡ ok tt
    → Covered st sv args w
unfolding assert_user_can_trade
user_can_trade_ok st sv args w h =
    let (pubkey, e, rest) =
      bind-ok (load_user_pubkey sv args.user_id) (λ p. assert_side st sv p args args.side) w tt h in
    let (b, s) = assert_side_ok st sv pubkey args _ rest in
    (pubkey, load_user_pubkey_ok sv args.user_id w pubkey e, b, s)

Covered-users :
    (st : Settings) (sv : Services) (args : PretradeArgs) (w w' : World)
    → w'.users ≡ w.users
    → Covered st sv args w'
    → Covered st sv args w
Covered-users st sv args w w' e (pubkey, known, b, s) = (
  pubkey,
  ap (λ (us : List UserRow). wallet_of (find (λ u. u.id == args.user_id) us)) (sym e) ∙ known,
  b,
  s,
)

pub assert_pretrade_ok :
    (st : Settings) (sv : Services) (args : PretradeArgs) (w : World)
    → (assert_pretrade st sv args w).0 ≡ ok tt
    → Covered st sv args w
unfolding assert_pretrade
assert_pretrade_ok st sv args w h =
    let (v, e, rest) =
      bind-ok (validate sv (validate_input args))
        (λ v. or_reject v >> assert_user_can_trade st sv args) w tt h in
    let w₁ = (validate sv (validate_input args) w).1 in
    let (_, e', rest') = bind-ok (or_reject v) (λ _. assert_user_can_trade st sv args) w₁ tt rest in
    let w₂ = (or_reject v w₁).1 in
    let same : Untouched w w₂ =
      Untouched-trans (validate-Untouched sv (validate_input args) w) (reject-Untouched v w₁) in
    Covered-users st sv args w w₂ same.users (user_can_trade_ok st sv args w₂ rest')

-- A trade that passes the checks has this behind it: the user has a wallet, and in it the money for
-- the whole size at the price cap, of a buyer, or the shares, of a seller.
pub assert_pretrade_covered :
    (st : Settings) (sv : Services) (args : PretradeArgs) (w : World)
    → (assert_pretrade st sv args w).0 ≡ ok tt
    → (pubkey : ℕ) × (wallet_of (user_row args.user_id w) ≡ some pubkey)
      × (((args.side ≡ buy)
            × (payout args.size_shares (
                  buy_price_cap_cents st.spread_cents args.polymarket_side args.top_ask_cents
                    args.top_bid_cents)
                ≤ sv.user_usdc pubkey))
          ⊎ ((args.side ≡ sell)
              × (args.size_shares ≤ sv.user_shares pubkey args.market_pda args.outcome)))
assert_pretrade_covered st sv args w h =
    let (pubkey, known, b, s) = assert_pretrade_ok st sv args w h in
    (pubkey, known, by_side args.side _ _ b s)
