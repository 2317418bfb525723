-- ===== src/Orchestrator/HedgeRow.antt =====
-- The `Hedge` row of `execute` in apps/server/services/service.trade-orchestrator.ts.
use highgarden.Base.{leb, ℕ, ◌≡◌, refl, ap, inl, inr, true, arith, or_else, Bool-cases}
use highgarden.Database.{Side, buy, sell}
use highgarden.Pricing.{pick_target_price, derive_user_price, HedgeFilled}
use highgarden.Trade.{
  World, Services, Settings, pure, TradeRequest, ResolvedMarket, SignedQuote, Failure, Action,
  trade_error, trade_reconcile_pending, bind-frame_at, ◌>>=◌, ◌>>◌, throw, catch, catch-frame,
  bind-frame, record_fill,
}
use highgarden.Records.{
  persist_quote, mark_quote_consumed, persist_fill_and_hedge, record_orphan_inventory,
}
use highgarden.Pretrade.{assert_treasury_can_cover}
use highgarden.Pretrade.Refusals.{treasury-Untouched, assert_pretrade-Untouched}
use highgarden.Orchestrator.NoHedge.{
  NoHedging, sign-NoHedging, persist_quote-NoHedging, place_order-NoHedging, mark-NoHedging,
}
use highgarden.Netting.{NettingResult}
use highgarden.Validation.{hedge}
use highgarden.Orchestrator.Safety.{validate-Untouched}
use highgarden.Orchestrator.{
  place_rest, place_and_check, fill_via_polymarket, attempt_netting, combine, pretrade_args,
  execute, hedge_and_settle, sign_quote_internally, expiry, submit_solana_or_record_inventory,
  settle, cover_sell,
}
use highgarden.SolanaTrade.{place_order}
use highgarden.Orchestrator.Blocked.{
  Blocked, mark-Blocked, persist_fill_and_hedge-Blocked, submit-Blocked, SameHedges,
  SameHedges-compose,
}

orphan-hedges :
    (sv : Services) (market : ResolvedMarket) (h : HedgeFilled) (w : World)
    → SameHedges w (record_orphan_inventory sv market h w).1
unfolding record_orphan_inventory SameHedges
orphan-hedges sv market h w = ground arith

-- What `execute` does with the hedge in place, step by step.
module _ (st : Settings) (sv : Services) (req : TradeRequest) (market : ResolvedMarket)
    (h : HedgeFilled) where
  reconcile-hedges :
      {A : Type 0} (m : Action A) (g : Failure → Failure) (w : World)
      → SameHedges w (m w).1
      → SameHedges w (catch m (λ e. record_orphan_inventory sv market h >> throw (g e)) w).1
  unfolding SameHedges
  reconcile-hedges m g w first = catch-frame SameHedges SameHedges-compose m _ w first λ e v.
      bind-frame SameHedges SameHedges-compose _ _ v (orphan-hedges sv market h v) λ _ u. refl

  cover_sell-hedges :
      (price : ℕ) (side : Side) (w : World) → SameHedges w (cover_sell sv market h price side w).1
  unfolding SameHedges
  cover_sell-hedges price buy w = refl
  cover_sell-hedges price sell w =
      reconcile-hedges (assert_treasury_can_cover sv h.filled_shares price) (λ e. e) w
        (treasury-Untouched sv h.filled_shares price w).hedges

  before_fill-hedges :
      (q : SignedQuote) (price : ℕ) (w : World)
      → (NoHedging w (sign_quote_internally sv q w).1)
        × NoHedging w (persist_quote sv market.id req price h.filled_shares q (expiry st sv) w).1
        × NoHedging w (place_order st sv req.user_id req.market_db_id q w).1
        × NoHedging w (mark_quote_consumed sv q.nonce w).1
  before_fill-hedges q price w = (
    sign-NoHedging sv q w,
    persist_quote-NoHedging sv market.id req price h.filled_shares q (expiry st sv) w,
    place_order-NoHedging st sv req.user_id req.market_db_id q w,
    mark-NoHedging sv q.nonce w,
  )

  submit-hedges :
      (q : SignedQuote) (w : World)
      → SameHedges w (submit_solana_or_record_inventory st sv req market q h w).1
  unfolding submit_solana_or_record_inventory SameHedges
  submit-hedges q w =
      reconcile-hedges (place_order st sv req.user_id req.market_db_id q)
        (λ _. trade_error trade_reconcile_pending 500) w (before_fill-hedges q 0 w).2.hedges

  filled :
      {A : Type 0} (q : SignedQuote) (price sig : ℕ) (r : A) (w : World)
      → Blocked q.nonce sig w
      → SameHedges w
          ((mark_quote_consumed sv q.nonce
              >> (persist_fill_and_hedge sv req market q h price sig >> pure r))
            w).1
  unfolding SameHedges
  filled q price sig r w blocked =
      bind-frame_at SameHedges SameHedges-compose _ _ w (mark-NoHedging sv q.nonce w).hedges λ _ _.
        bind-frame_at SameHedges SameHedges-compose _ _ _
          (ap (λ (v : World). v.hedges)
            (persist_fill_and_hedge-Blocked sv req market q h price sig _
              (mark-Blocked sv q.nonce sig w blocked)))
          λ _ _. refl

  settle-hedges :
      (id : ℕ) (w : World)
      → sv.db_up record_fill ≡ true
      → SameHedges w (settle st sv req id market h w).1
  unfolding settle SameHedges
  settle-hedges id w up =
      let price = derive_user_price st.spread_cents h.avg_price_cents req.side in
      bind-frame SameHedges SameHedges-compose _ _ w (cover_sell-hedges price req.side w) λ _ w₁.
        bind-frame SameHedges SameHedges-compose _ _ w₁ (before_fill-hedges _ price w₁).0.hedges
          λ signed w₂.
            bind-frame SameHedges SameHedges-compose _ _ w₂
              (before_fill-hedges signed price w₂).1.hedges
              λ _ w₃.
                bind-frame_at SameHedges SameHedges-compose _ _ w₃ (submit-hedges signed w₃)
                  λ sig sent.
                    filled signed price sig _ _
                      (submit-Blocked st sv req market signed h w₃ up sig sent)

place_rest-hedges :
    (sv : Services) (market : ResolvedMarket) (shares : ℕ) (w : World)
    → SameHedges w (place_rest sv market shares w).1
unfolding place_and_check pick_target_price ◌>>=◌ SameHedges
place_rest-hedges sv market shares w = ground arith

fill-hedges :
    (sv : Services) (market : ResolvedMarket) (n : NettingResult) (w : World)
    → SameHedges w (fill_via_polymarket sv market n w).1
unfolding fill_via_polymarket SameHedges
fill-hedges sv market n w = elim (Bool-cases (leb n.remaining_shares 0)) [
  | inl e ↦ rw e refl
  | inr e ↦ rw e (place_rest-hedges sv market n.remaining_shares w)
]

netting-hedges :
    (sv : Services) (market : ResolvedMarket) (shares : ℕ) (w : World)
    → SameHedges w (attempt_netting sv market shares w).1
unfolding attempt_netting SameHedges
netting-hedges sv market shares w = refl

-- Where the database takes the `Fill` row that the on-chain leg writes, a hedged trade writes no
-- `Hedge` row, whether it returns or throws: the transaction that is to write it creates the fill
-- a second time, under the same nonce and signature.
pub execute-SameHedges :
    (st : Settings) (sv : Services) (req : TradeRequest) (w : World)
    → sv.db_up record_fill ≡ true
    → (execute st sv req w).1.hedges ≡ w.hedges
unfolding execute hedge_and_settle SameHedges
execute-SameHedges st sv req w up =
    bind-frame SameHedges SameHedges-compose _ _ w (validate-Untouched st sv req w).hedges λ m w₁.
      bind-frame SameHedges SameHedges-compose _ _ w₁
        (assert_pretrade-Untouched st sv (pretrade_args req m (sv.preflight_top m.token_id) hedge)
          w₁).hedges
        λ _ w₂.
          bind-frame SameHedges SameHedges-compose _ _ w₂ (netting-hedges sv m req.size_shares w₂)
            λ n w₃. bind-frame SameHedges SameHedges-compose _ _ w₃ (fill-hedges sv m n w₃) λ f w₄.
              bind-frame SameHedges SameHedges-compose (combine n f) _ w₄ refl
                λ h w₅. settle-hedges st sv req m h (or_else req.request_id sv.random_uuid) w₅ up
