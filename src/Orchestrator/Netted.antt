-- ===== src/Orchestrator/Netted.antt =====
-- A trade that the inventory covers in full: `execute` of apps/server/services/service.trade-orchestrator.ts.
use highgarden.Base.{
  ℕ, ◌≡◌, refl, sym, ap, subst, ◌∙◌, true, Option, none, List, ◌∷◌, arith, any, ◌==◌, or_else,
}
use highgarden.Database.{Side, buy, sell}
use highgarden.Pricing.{
  with_avg, first_order_id, HedgeFilled, derive_user_price, combine_hedge_legs,
}
use highgarden.Netting.{NettingResult, NettedConsumption}
use highgarden.Trade.{
  OrderResult, bind-frame_at, ok-injective, World, Services, Settings, TradeRequest, TradeResult,
  ResolvedMarket, SignedQuote, Failure, Result, ok, err, Action, throw, catch, ◌>>=◌, ◌>>◌,
  trade_error, trade_reconcile_pending, bind-value, bind-frame, catch-frame,
}
use highgarden.Records.{record_orphan_inventory}
use highgarden.SolanaTrade.{place_order}
use highgarden.Orchestrator.NoHedge.{
  sign-NoHedging, persist_quote-NoHedging, place_order-NoHedging, mark-NoHedging,
}
use highgarden.Pretrade.{assert_treasury_can_cover}
use highgarden.Pretrade.Refusals.{treasury-Untouched}
use highgarden.Orchestrator.{
  settle, cover_sell, submit_solana_or_record_inventory, expiry, hedge_and_settle, attempt_netting,
  fill_via_polymarket, combine,
}
use highgarden.Orchestrator.Steps.{is_of, persist_fill-Still}

-- A relation that says: the inventory stays, when a row of the hedge's order is in it.
abbrev Stays : HedgeFilled → World → World → Type 0
Stays h w v = any (is_of h) w.inventory ≡ true → v.inventory ≡ w.inventory

Stays-compose : (h : HedgeFilled) (u v w : World) → Stays h u v → Stays h v w → Stays h u w
Stays-compose h u v w p q there =
    let e = p there in q (subst (λ rs. any (is_of h) rs ≡ true) (sym e) there) ∙ e

orphan-Stays :
    (sv : Services) (market : ResolvedMarket) (h : HedgeFilled) (w : World)
    → Stays h w (record_orphan_inventory sv market h w).1
unfolding record_orphan_inventory
orphan-Stays sv market h w there = ground arith

module _ (st : Settings) (sv : Services) (req : TradeRequest) (market : ResolvedMarket)
    (h : HedgeFilled) where
  reconcile-Stays :
      {A : Type 0} (m : Action A) (g : Failure → Failure) (w : World)
      → (m w).1.inventory ≡ w.inventory
      → Stays h w (catch m (λ e. record_orphan_inventory sv market h >> throw (g e)) w).1
  reconcile-Stays m g w same =
      catch-frame (Stays h) (Stays-compose h) m _ w (λ _. same)
        λ e v.
          bind-frame (Stays h) (Stays-compose h) _ _ v (orphan-Stays sv market h v) λ _ u. λ _. refl

  cover-Stays :
      (price : ℕ) (side : Side) (w : World) → Stays h w (cover_sell sv market h price side w).1
  cover-Stays price buy w = λ _. refl
  cover-Stays price sell w =
      reconcile-Stays (assert_treasury_can_cover sv h.filled_shares price) (λ e. e) w
        (treasury-Untouched sv h.filled_shares price w).inventory

  submit-Stays :
      (q : SignedQuote) (w : World)
      → Stays h w (submit_solana_or_record_inventory st sv req market q h w).1
  unfolding submit_solana_or_record_inventory
  submit-Stays q w =
      reconcile-Stays (place_order st sv req.user_id req.market_db_id q)
        (λ _. trade_error trade_reconcile_pending 500) w
        (place_order-NoHedging st sv req.user_id req.market_db_id q w).inventory

  settle-Stays : (id : ℕ) (w : World) → Stays h w (settle st sv req id market h w).1
  unfolding settle
  settle-Stays id w =
      let price = derive_user_price st.spread_cents h.avg_price_cents req.side in
      bind-frame (Stays h) (Stays-compose h) _ _ w (cover-Stays price req.side w) λ _ w₁.
        bind-frame (Stays h) (Stays-compose h) _ _ w₁ (λ _. (sign-NoHedging sv _ w₁).inventory)
          λ q w₂.
            bind-frame (Stays h) (Stays-compose h) _ _ w₂
              (λ _.
                (persist_quote-NoHedging sv market.id req price h.filled_shares q (expiry st sv)
                  w₂).inventory)
              λ _ w₃. bind-frame (Stays h) (Stays-compose h) _ _ w₃ (submit-Stays q w₃) λ sig w₄.
                bind-frame (Stays h) (Stays-compose h) _ _ w₄
                  (λ _. (mark-NoHedging sv q.nonce w₄).inventory)
                  λ _ w₅.
                    bind-frame (Stays h) (Stays-compose h) _ _ w₅
                      (λ _. (persist_fill-Still sv req market q h price sig w₅).1) λ _ w₆. λ _. refl

-- The order id of a hedge that comes from inventory alone is that of the first row consumed.
with_avg_ok :
    (n : NettingResult) (r : Result ℕ) (h : HedgeFilled)
    → with_avg n none r ≡ ok h
    → h.polymarket_order_id ≡ first_order_id n.consumed
with_avg_ok n (ok a) h e = ap (λ (x : HedgeFilled). x.polymarket_order_id) (ok-injective (sym e))
with_avg_ok n (err f) h e = cc

combined_order_id :
    (n : NettingResult) (c : NettedConsumption) (cs : List NettedConsumption) (h : HedgeFilled)
    → n.consumed ≡ c ∷ cs
    → combine_hedge_legs n none ≡ ok h
    → h.polymarket_order_id ≡ c.polymarket_order_id
unfolding combine_hedge_legs
combined_order_id n c cs h first e = with_avg_ok n _ h e ∙ ap first_order_id first

-- From the netter on, when nothing is left to fill.
after_netting :
    (st : Settings) (sv : Services) (req : TradeRequest) (market : ResolvedMarket)
    (n : NettingResult) (c : NettedConsumption) (cs : List NettedConsumption) (w : World)
    → n.consumed ≡ c ∷ cs
    → any (λ r. r.polymarket_order_id == c.polymarket_order_id) w.inventory ≡ true
    → ((combine n none >>= λ h. settle st sv req (or_else req.request_id sv.random_uuid) market h)
        w).1.inventory
      ≡ w.inventory
after_netting st sv req market n c cs w first there =
    bind-frame_at (λ u v. v.inventory ≡ u.inventory) (λ u v x p q. q ∙ p) (combine n none) _ w refl
      λ h e. settle-Stays st sv req market h (or_else req.request_id sv.random_uuid) w (
        subst (λ i. any (λ r. r.polymarket_order_id == i) w.inventory ≡ true)
          (sym (combined_order_id n c cs h first e)) there)

nothing_to_fill :
    (sv : Services) (market : ResolvedMarket) (n : NettingResult) (w : World)
    → n.remaining_shares ≡ 0
    → fill_via_polymarket sv market n w ≡ (ok none, w)
unfolding fill_via_polymarket
nothing_to_fill sv market n w all = rw all refl

-- A trade that the inventory covers in full leaves the inventory as the netter left it, whatever
-- comes of the trade: where it fails later, the rows stay claimed and nothing is written in their
-- place, since the row that would be has the order id of one that is there.
pub fully_netted-NotRestored :
    (st : Settings) (sv : Services) (req : TradeRequest) (market : ResolvedMarket) (w : World)
    (n : NettingResult) (c : NettedConsumption) (cs : List NettedConsumption)
    → (attempt_netting sv market req.size_shares w).0 ≡ ok n
    → n.remaining_shares ≡ 0
    → n.consumed ≡ c ∷ cs
    → any
        (λ r. r.polymarket_order_id == c.polymarket_order_id)
        (attempt_netting sv market req.size_shares w).1.inventory
      ≡ true
    → (hedge_and_settle st sv req market w).1.inventory
      ≡ (attempt_netting sv market req.size_shares w).1.inventory
unfolding hedge_and_settle
fully_netted-NotRestored st sv req market w n c cs netted all first there =
    let v = (attempt_netting sv market req.size_shares w).1 in
    let filled = nothing_to_fill sv market n v all in
    ap (λ (r : Result TradeResult × World). r.1.inventory) (bind-value _ _ w netted)
    ∙ ap (λ (r : Result TradeResult × World). r.1.inventory)
        (bind-value (fill_via_polymarket sv market n) _ v
          (ap (λ (r : Result (Option OrderResult) × World). r.0) filled))
    ∙ subst
        (λ u.
          ((combine n none >>= λ h.
          settle st sv req (or_else req.request_id sv.random_uuid) market h)
            u).1.inventory
          ≡ v.inventory)
        (sym (ap (λ (r : Result (Option OrderResult) × World). r.1) filled))
        (after_netting st sv req market n c cs v first there)
