-- ===== src/Orchestrator/Paid.antt =====
-- The price and the cover of a trade without a hedge: `execute_no_hedge` of
-- apps/server/services/service.trade-orchestrator.ts.
use native.Mathlib.Nat.{le_trans}
use highgarden.Base.{◌⊎◌, inl, inr, ℕ, ◌≤◌, ◌≡◌, refl, sym, ap, subst, Option, none, some, arith}
use highgarden.Database.{by_side, Side, Outcome, buy, sell, no_hedge_text}
use highgarden.Trade.{
  MarketRow, PolyMarketRow, World, Services, Settings, TradeRequest, TradeResult, ResolvedMarket,
  BookTop, Failure, ok, on-ok, ok-injective, or_throw,
}
use highgarden.Pricing.{derive_user_price, pick_target_price}
use highgarden.Validation.{no_hedge}
use highgarden.Pretrade.{
  assert_pretrade, assert_treasury_can_cover, payout, wallet_of, user_row, buy_price_cap_cents,
}
use highgarden.Pretrade.Cover.{assert_pretrade_ok, cap-covers}
use highgarden.Orchestrator.{
  pretrade_args, execute_no_hedge, price_and_settle, settle_on_solana, cover_no_hedge,
  reference_price, top_ask, top_bid,
}
use highgarden.Orchestrator.Gate.{validate-frame, passes-IsOpen, IsOpen, IsShaped}

abbrev Priced : ℕ → TradeRequest → TradeResult → Type 0
Priced price req r = (r.price_paid_cents ≡ price) × (r.filled_shares ≡ req.size_shares)

settle_ok :
    (st : Settings) (sv : Services) (req : TradeRequest) (id : ℕ) (market : ResolvedMarket)
    (price order_id : ℕ) (w : World) (r : TradeResult)
    → (settle_on_solana st sv req id market price order_id w).0 ≡ ok r
    → Priced price req r
unfolding settle_on_solana
settle_ok st sv req id market price order_id w r h =
    on-ok (Priced price req r) _ _ w r h λ signed _ h₁.
      on-ok (Priced price req r) _ _ _ r h₁ λ _ _ h₂.
        on-ok (Priced price req r) _ _ _ r h₂ λ sig _ h₃.
          on-ok (Priced price req r) _ _ _ r h₃ λ _ _ h₄.
            let e = ok-injective (sym h₄) in
            (
              ap (λ (x : TradeResult). x.price_paid_cents) e,
              ap (λ (x : TradeResult). x.filled_shares) e,
            )

treasury_ok :
    (sv : Services) (shares price : ℕ) (w : World)
    → (cover_no_hedge sv shares price sell w).0 ≡ ok tt
    → payout shares price ≤ sv.treasury
unfolding assert_treasury_can_cover
treasury_ok sv shares price w h = grind arith

reference_ok :
    (o : Option ℕ) (e : Failure) (w : World) (ref : ℕ) → (or_throw o e w).0 ≡ ok ref → o ≡ some ref
reference_ok none e w ref h = cc
reference_ok (some a) e w ref h = cc

-- The best ask is the price of a buy, the best bid that of a sell.
abbrev pub IsAtBook : BookTop → Side → ℕ → Type 0
IsAtBook top side reference_cents =
    ((side ≡ buy) × (top.best_ask_cents ≡ some reference_cents))
    ⊎ ((side ≡ sell) × (top.best_bid_cents ≡ some reference_cents))

-- Who pays, out of what: the user's wallet, or the wallet's shares and the treasury.
abbrev pub IsCovered : Services → TradeRequest → ℕ → ℕ → ℕ → Type 0
IsCovered sv req pubkey market_pda price =
    ((req.side ≡ buy) × (payout req.size_shares price ≤ sv.user_usdc pubkey))
    ⊎ ((req.side ≡ sell)
        × ((req.size_shares ≤ sv.user_shares pubkey market_pda req.outcome)
            × (payout req.size_shares price ≤ sv.treasury)))

-- The price and the cover of a trade without a hedge, at this book of the market's token.
abbrev pub IsPaid : Settings → Services → TradeRequest → TradeResult → World → Type 0
IsPaid st sv req r w =
    (row : MarketRow) × (market_pda : ℕ) × (poly : PolyMarketRow) × (market : ResolvedMarket)
    × (top : BookTop) × (reference_cents : ℕ) × (pubkey : ℕ) × IsOpen st sv req.market_db_id w row
        market_pda poly
    × IsShaped market row market_pda poly req.side req.outcome
    × (sv.preflight_top market.token_id ≡ some top)
    × IsAtBook top req.side reference_cents
    × (r.price_paid_cents ≡ derive_user_price st.spread_cents reference_cents req.side)
    × (r.filled_shares ≡ req.size_shares)
    × (wallet_of (user_row req.user_id w) ≡ some pubkey)
    × IsCovered sv req pubkey market_pda r.price_paid_cents

at_book :
    (book : Option BookTop) (side : Side) (ref : ℕ)
    → reference_price book side ≡ some ref
    → (top : BookTop) × (book ≡ some top) × IsAtBook top side ref
unfolding pick_target_price
at_book none side ref h = cc
at_book (some top) buy ref h = (top, refl, inl (refl, h))
at_book (some top) sell ref h = (top, refl, inr (refl, h))

shaped_side :
    (m : ResolvedMarket) (row : MarketRow) (pda : ℕ) (poly : PolyMarketRow) (side : Side)
    (o : Outcome)
    → IsShaped m row pda poly side o
    → (m.polymarket_side ≡ side) × (m.solana_market_pda ≡ pda)
shaped_side m row pda poly side o (inl (_, e)) = (
  ap (λ (x : ResolvedMarket). x.polymarket_side) e,
  ap (λ (x : ResolvedMarket). x.solana_market_pda) e,
)
shaped_side m row pda poly side o (inr (_, e)) = (
  ap (λ (x : ResolvedMarket). x.polymarket_side) e,
  ap (λ (x : ResolvedMarket). x.solana_market_pda) e,
)

payout_mono : (shares a b : ℕ) → a ≤ b → payout shares a ≤ payout shares b
payout_mono shares a b h = grind arith

book_ask :
    (top : Option BookTop) (ref : ℕ) → reference_price top buy ≡ some ref → top_ask top ≡ some ref
unfolding pick_target_price
book_ask none ref h = cc
book_ask (some t) ref h = h

paid_buy :
    (spread : ℕ) (top : Option BookTop) (ref shares money : ℕ) (side : Side)
    → reference_price top side ≡ some ref
    → (side ≡ buy
        → payout shares (buy_price_cap_cents spread side (top_ask top) (top_bid top)) ≤ money)
    → side ≡ buy
    → payout shares (derive_user_price spread ref side) ≤ money
paid_buy spread top ref shares money buy e covered is_buy =
    le_trans
      (payout_mono shares _ _
        (cap-covers spread ref (top_ask top) (top_bid top) (book_ask top ref e)))
      (covered refl)
paid_buy spread top ref shares money sell e covered is_buy = cc

paid_sell :
    (sv : Services) (shares price : ℕ) (side : Side) (w : World)
    → (cover_no_hedge sv shares price side w).0 ≡ ok tt
    → side ≡ sell
    → payout shares price ≤ sv.treasury
paid_sell sv shares price buy w h is_sell = cc
paid_sell sv shares price sell w h is_sell = treasury_ok sv shares price w h

-- A trade without a hedge that returns has found its market open or cancelled, and is answered with the whole size at
-- the price of the book that was read for the market's token of that outcome, the best ask for a buy and the best bid for a sell, moved by the
-- spread. The user has a wallet; at the time of the check a buyer's wallet held the money for it at that very price, a
-- seller's the shares of that market and outcome, and the treasury the seller's payout.
pub execute_no_hedge-IsPaid :
    (st : Settings) (sv : Services) (req : TradeRequest) (w : World) (r : TradeResult)
    → (execute_no_hedge st sv req w).0 ≡ ok r
    → IsPaid st sv req r w
unfolding execute_no_hedge price_and_settle
execute_no_hedge-IsPaid st sv req w r h = on-ok (IsPaid st sv req r w) _ _ w r h λ market opened h₁.
    on-ok (IsPaid st sv req r w) _ _ _ r h₁ λ _ checked h₂.
      on-ok (IsPaid st sv req r w) _ _ _ r h₂ λ ref priced h₃.
        on-ok (IsPaid st sv req r w) _ _ _ r h₃ λ _ covered h₄.
          let (row, pda, poly, opened', shaped) =
            passes-IsOpen st sv req.market_db_id req.side req.outcome w market opened in
          let same = validate-frame st sv req.market_db_id req.side req.outcome w in
          let args = pretrade_args req market (sv.preflight_top market.token_id) no_hedge in
          let (pubkey, known, b, s) =
            assert_pretrade_ok st sv args w
              (subst (λ u. (assert_pretrade st sv args u).0 ≡ ok tt) same checked) in
          let (price, size) = settle_ok st sv req _ market _ no_hedge_text _ r h₄ in
          let top = sv.preflight_top market.token_id in
          let (side_is, pda_is) = shaped_side market row pda poly req.side req.outcome shaped in
          let at_side =
            subst (λ d. reference_price top d ≡ some ref) side_is (reference_ok _ _ _ ref priced) in
          let b' =
            subst
              (λ d.
                req.side ≡ buy
                → payout req.size_shares
                    (buy_price_cap_cents st.spread_cents d (top_ask top) (top_bid top))
                  ≤ sv.user_usdc pubkey)
              side_is b in
          let (book, read, booked) = at_book top req.side ref at_side in
          let cover : IsCovered sv req pubkey market.solana_market_pda r.price_paid_cents =
            by_side req.side (payout req.size_shares r.price_paid_cents ≤ sv.user_usdc pubkey)
              ((req.size_shares ≤ sv.user_shares pubkey market.solana_market_pda req.outcome)
                × (payout req.size_shares r.price_paid_cents ≤ sv.treasury))
              (λ e.
                subst (λ p. payout req.size_shares p ≤ sv.user_usdc pubkey) (sym price)
                  (paid_buy st.spread_cents top ref req.size_shares (sv.user_usdc pubkey) req.side
                    at_side b' e))
              (λ e. (
                s e,
                subst (λ p. payout req.size_shares p ≤ sv.treasury) (sym price)
                    (paid_sell sv req.size_shares _ req.side _ covered e),
              )) in
          (
            row,
            pda,
            poly,
            market,
            book,
            ref,
            pubkey,
            opened',
            shaped,
            read,
            booked,
            price,
            size,
            known,
            subst (λ p. IsCovered sv req pubkey p r.price_paid_cents) pda_is cover,
          )
