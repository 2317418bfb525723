-- ===== src/Orchestrator/NoHedge.antt =====
-- What a trade without a hedge leaves alone: apps/server/services/service.trade-orchestrator.ts.
use highgarden.Base.{ℕ, ◌≡◌, ◌∙◌, Option, none, some, arith, or_else}
use highgarden.Database.{Side, buy, sell, no_hedge_text, skipped_text}
use highgarden.Trade.{
  World, Services, Settings, TradeRequest, ResolvedMarket, BookTop, SignedQuote, Failure, ◌>>=◌,
  Untouched, Untouched-refl, bind-frame, or_throw, trade_error, stale_book,
}
use highgarden.Records.{persist_quote, mark_quote_consumed}
use highgarden.SolanaTrade.{
  place_order, load_custodial_keypair, load_market_pda, assert_quote_market, send_place_order,
  record_fill_idempotent,
}
use highgarden.Pricing.{derive_user_price}
use highgarden.Validation.{no_hedge}
use highgarden.Pretrade.Refusals.{assert_pretrade-Untouched, treasury-Untouched}
use highgarden.Orchestrator.{
  pretrade_args, execute_no_hedge, price_and_settle, settle_on_solana, cover_no_hedge,
  sign_quote_internally, expiry, reference_price, execute_solana_only,
}
use highgarden.Orchestrator.Safety.{validate-Untouched}

-- No order has gone to Polymarket, and no inventory and no `Hedge` row has changed.
pub record NoHedging (w w' : World) : Type 0 where
  pub orders : w'.orders ≡ w.orders
  pub inventory : w'.inventory ≡ w.inventory
  pub hedges : w'.hedges ≡ w.hedges

NoHedging-compose : (u v w : World) → NoHedging u v → NoHedging v w → NoHedging u w
NoHedging-compose u v w p q = record {
  orders = q.orders ∙ p.orders;
  inventory = q.inventory ∙ p.inventory;
  hedges = q.hedges ∙ p.hedges;
}

NoHedging-of : {u v : World} → Untouched u v → NoHedging u v
NoHedging-of p = record { orders = p.orders; inventory = p.inventory; hedges = p.hedges }

pub place_order-NoHedging :
    (st : Settings) (sv : Services) (user market : ℕ) (q : SignedQuote) (w : World)
    → NoHedging w (place_order st sv user market q w).1
unfolding place_order load_custodial_keypair load_market_pda assert_quote_market send_place_order
    record_fill_idempotent ◌>>=◌
place_order-NoHedging st sv user market q w = ground arith

pub persist_quote-NoHedging :
    (sv : Services) (market_id : ℕ) (req : TradeRequest) (price size : ℕ) (q : SignedQuote)
    (expires : ℕ) (w : World)
    → NoHedging w (persist_quote sv market_id req price size q expires w).1
unfolding persist_quote
persist_quote-NoHedging sv market_id req price size q expires w = ground arith

pub mark-NoHedging :
    (sv : Services) (nonce : ℕ) (w : World) → NoHedging w (mark_quote_consumed sv nonce w).1
unfolding mark_quote_consumed
mark-NoHedging sv nonce w = ground arith

pub sign-NoHedging :
    (sv : Services) (q : SignedQuote) (w : World) → NoHedging w (sign_quote_internally sv q w).1
unfolding sign_quote_internally ◌>>=◌
sign-NoHedging sv q w = ground arith

settle-NoHedging :
    (st : Settings) (sv : Services) (req : TradeRequest) (id : ℕ) (market : ResolvedMarket)
    (price order_id : ℕ) (w : World)
    → NoHedging w (settle_on_solana st sv req id market price order_id w).1
unfolding settle_on_solana
settle-NoHedging st sv req id market price order_id w =
    bind-frame NoHedging NoHedging-compose _ _ w (sign-NoHedging sv _ w) λ signed w₁.
      bind-frame NoHedging NoHedging-compose _ _ w₁
        (persist_quote-NoHedging sv market.id req price req.size_shares signed (expiry st sv) w₁)
        λ _ w₂.
          bind-frame NoHedging NoHedging-compose _ _ w₂
            (place_order-NoHedging st sv req.user_id req.market_db_id signed w₂)
            λ sig w₃.
              bind-frame NoHedging NoHedging-compose _ _ w₃ (mark-NoHedging sv signed.nonce w₃)
                λ _ w₄. NoHedging-of (Untouched-refl w₄)

or_throw-NoHedging :
    {A : Type 0} (o : Option A) (e : Failure) (w : World) → NoHedging w (or_throw o e w).1
or_throw-NoHedging none e w = NoHedging-of (Untouched-refl w)
or_throw-NoHedging (some a) e w = NoHedging-of (Untouched-refl w)

cover-NoHedging :
    (sv : Services) (shares price : ℕ) (side : Side) (w : World)
    → NoHedging w (cover_no_hedge sv shares price side w).1
cover-NoHedging sv shares price buy w = NoHedging-of (Untouched-refl w)
cover-NoHedging sv shares price sell w = NoHedging-of (treasury-Untouched sv shares price w)

price_and_settle-NoHedging :
    (st : Settings) (sv : Services) (req : TradeRequest) (market : ResolvedMarket)
    (top : Option BookTop) (w : World)
    → NoHedging w (price_and_settle st sv req market top w).1
unfolding price_and_settle
price_and_settle-NoHedging st sv req market top w =
    bind-frame NoHedging NoHedging-compose
      (or_throw (reference_price top market.polymarket_side) (trade_error stale_book 503)) _ w
      (or_throw-NoHedging (reference_price top market.polymarket_side) _ w)
      λ r w₁.
        bind-frame NoHedging NoHedging-compose _ _ w₁
          (cover-NoHedging sv req.size_shares (derive_user_price st.spread_cents r req.side)
            req.side w₁)
          λ _ w₂.
            settle-NoHedging st sv req (or_else req.request_id sv.random_uuid) market
              (derive_user_price st.spread_cents r req.side) no_hedge_text w₂

-- Whatever comes of it, a trade without a hedge sends no order to Polymarket and changes no row of
-- the inventory and no `Hedge` row; nor does the test path.
pub execute_no_hedge-NoHedging :
    (st : Settings) (sv : Services) (req : TradeRequest) (w : World)
    → NoHedging w (execute_no_hedge st sv req w).1 × NoHedging w (execute_solana_only st sv req w).1
unfolding execute_no_hedge execute_solana_only
execute_no_hedge-NoHedging st sv req w = (
  bind-frame NoHedging NoHedging-compose _ _ w (NoHedging-of (validate-Untouched st sv req w))
      (λ m w₁.
        bind-frame NoHedging NoHedging-compose _ _ w₁
          (NoHedging-of (
            assert_pretrade-Untouched st sv
              (pretrade_args req m (sv.preflight_top m.token_id) no_hedge) w₁))
          λ _ w₂. price_and_settle-NoHedging st sv req m (sv.preflight_top m.token_id) w₂),
  bind-frame NoHedging NoHedging-compose _ _ w (NoHedging-of (validate-Untouched st sv req w))
      (λ m w₁.
        settle-NoHedging st sv req (or_else req.request_id sv.random_uuid) m 50 skipped_text w₁),
)
