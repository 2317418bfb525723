-- ===== src/Pretrade/Refusals.antt =====
-- What the checks before a trade write: apps/server/services/service.pre-trade-validator.ts.
use highgarden.Base.{ℕ, arith}
use highgarden.Trade.{
  ◌>>=◌, World, Services, Settings, Untouched, Untouched-refl, Untouched-compose, bind-frame,
}
use highgarden.Validation.{Validation, valid, invalid, validate}
use highgarden.Validation.Caches.{validate-Untouched}
use highgarden.Pretrade.{
  PretradeArgs, assert_pretrade, assert_user_can_trade, assert_treasury_can_cover, load_user_pubkey,
  assert_buy_funds, assert_sell_shares, or_reject, validate_input,
}

pub user_can_trade-Untouched :
    (st : Settings) (sv : Services) (args : PretradeArgs) (w : World)
    → Untouched w (assert_user_can_trade st sv args w).1
unfolding assert_user_can_trade load_user_pubkey assert_buy_funds assert_sell_shares ◌>>=◌
user_can_trade-Untouched st sv args w = ground arith

pub reject-Untouched : (v : Validation) (w : World) → Untouched w (or_reject v w).1
reject-Untouched valid w = Untouched-refl w
reject-Untouched (invalid code) w = Untouched-refl w

pub assert_pretrade-Untouched :
    (st : Settings) (sv : Services) (args : PretradeArgs) (w : World)
    → Untouched w (assert_pretrade st sv args w).1
unfolding assert_pretrade
assert_pretrade-Untouched st sv args w =
    bind-frame Untouched Untouched-compose (validate sv (validate_input args)) _ w
      (validate-Untouched sv (validate_input args) w)
      λ v u.
        bind-frame Untouched Untouched-compose (or_reject v) _ u (reject-Untouched v u)
          λ _ u'. user_can_trade-Untouched st sv args u'

pub treasury-Untouched :
    (sv : Services) (shares price_cents : ℕ) (w : World)
    → Untouched w (assert_treasury_can_cover sv shares price_cents w).1
unfolding assert_treasury_can_cover
treasury-Untouched sv shares price_cents w = ground arith
