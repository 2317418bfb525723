-- ===== src/Orchestrator/Losses.antt =====
-- What becomes of the position on Polymarket when a trade ends: `execute` of
-- apps/server/services/service.trade-orchestrator.ts from the hedge on.
use highgarden.Base.{
  ◌+◌, ◌/◌, some, if◌then◌else◌, Bool-cases, ℕ, ◌≡◌, refl, sym, ap, subst, ◌∙◌, ◌⊎◌, inl, inr, true,
  false, ◌∷◌, any, ◌==◌,
}
use highgarden.Database.{Side, buy, sell, netted_text}
use highgarden.Pricing.{HedgeFilled, derive_user_price}
use highgarden.Trade.{
  World, Services, Settings, TradeRequest, TradeResult, ResolvedMarket, SignedQuote, Failure,
  Result, ok, err, Action, throw, pure, catch, ◌>>=◌, ◌>>◌, trade_error, trade_reconcile_pending,
  create_quote, create_orphan, bind-value, bind-throw, catch-value, Reply-cases,
}
use highgarden.Records.{
  persist_quote, mark_quote_consumed, persist_fill_and_hedge, record_orphan_inventory,
}
use highgarden.SolanaTrade.{place_order, landed_with}
use highgarden.Pretrade.{assert_treasury_can_cover}
use highgarden.Pretrade.Refusals.{treasury-Untouched}
use highgarden.Orchestrator.{
  settle, cover_sell, submit_solana_or_record_inventory, quote_of, derive_nonce, expiry, result_of,
}
use highgarden.Orchestrator.Steps.{
  is_of, Kept, IsUnconfirmed, Still, reconcile-Kept, Ends, Sent, place_order-Ends, persist_quote_up,
  persist_fill-Still, mark-Still, sign_up,
}

-- A step of `settle` has left the trade open, or ended it with the position kept.
abbrev Step :
    {A : Type 0}
    → Services
    → ResolvedMarket
    → HedgeFilled
    → SignedQuote
    → World
    → (A → World → Type 0)
    → Result A × World
    → Type 0
Step {A} sv market h q w Q r =
    ((a : A) × (r.0 ≡ ok a) × Q a r.1) ⊎ ((e : Failure) × (r.0 ≡ err e) × Kept sv market h q w r.1)

Step-bind :
    {A B : Type 0} (sv : Services) (market : ResolvedMarket) (h : HedgeFilled) (q : SignedQuote)
    (w : World) (Q : A → World → Type 0) (R : B → World → Type 0) (m : Action A) (f : A → Action B)
    (v : World)
    → Step sv market h q w Q (m v)
    → ((a : A) (u : World) → Q a u → Step sv market h q w R (f a u))
    → Step sv market h q w R ((m >>= f) v)
Step-bind sv market h q w Q R m f v (inl (a, e, done)) rest =
    subst (Step sv market h q w R) (sym (bind-value m f v e)) (rest a (m v).1 done)
Step-bind sv market h q w Q R m f v (inr (e, was, kept)) rest =
    subst (Step sv market h q w R) (sym (bind-throw m f v was)) (inr (e, refl, kept))

module _ (st : Settings) (sv : Services) (req : TradeRequest) (market : ResolvedMarket)
    (h : HedgeFilled) (up : sv.db_up create_orphan ≡ true)
    (bought : (h.polymarket_order_id == netted_text) ≡ false) (w : World)
    (fresh : any (is_of h) w.inventory ≡ false) where
  reconcile-Step :
      {A : Type 0} (q : SignedQuote) (Q : A → World → Type 0) (m : Action A) (g : Failure → Failure)
      (v : World)
      → ((e : Failure)
          → (m v).0 ≡ err e
          → IsUnconfirmed sv q w (m v).1 × ((m v).1.inventory ≡ w.inventory))
      → ((a : A) → (m v).0 ≡ ok a → Q a (m v).1)
      → Step sv market h q w Q (catch m (λ e. record_orphan_inventory sv market h >> throw (g e)) v)
  reconcile-Step {A = A} q Q m g v failed done =
      let handler : Failure → Action A = λ e. record_orphan_inventory sv market h >> throw (g e) in
      elim (Reply-cases (m v).0) [
        | inl (a, e) ↦
            subst (Step sv market h q w Q) (sym (catch-value m handler v e))
              (inl (a, refl, done a e))
        | inr (e, was) ↦
            let (kept, err') =
              reconcile-Kept sv market h q up bought m g w v e fresh was (failed e was).0
                (failed e was).1 in
            inr (g e, err', kept)
      ]

  cover-Step :
      (q : SignedQuote) (price : ℕ) (side : Side)
      → Step sv market h q w (λ (_ : Unit {0}) v. Still w v) (cover_sell sv market h price side w)
  cover-Step q price buy = inl (tt, refl, (refl, refl))
  cover-Step q price sell =
      let same = treasury-Untouched sv h.filled_shares price w in
      reconcile-Step q (λ _ v. Still w v) (assert_treasury_can_cover sv h.filled_shares price)
        (λ e. e) w (λ e _. (inl same.submissions, same.inventory))
        (λ a _. (same.submissions, same.inventory))

  unconfirmed_from :
      (q : SignedQuote) (v u : World)
      → v.submissions ≡ w.submissions
      → IsUnconfirmed sv q v u
      → IsUnconfirmed sv q w u
  unconfirmed_from q v u s (inl same) = inl (same ∙ s)
  unconfirmed_from q v u s (inr (through, lost, same)) =
      inr (through, lost, same ∙ ap (λ ss. q ∷ ss) s)

  submit-Step :
      (q : SignedQuote) (v : World)
      → Still w v
      → Step sv market h q w
          (λ (sig : ℕ) u. Sent sv q w sig u)
          (submit_solana_or_record_inventory st sv req market q h v)
  unfolding submit_solana_or_record_inventory
  submit-Step q v (s, i) =
      let call = place_order st sv req.user_id req.market_db_id q in
      reconcile-Step q (λ sig u. Sent sv q w sig u) call
        (λ _. trade_error trade_reconcile_pending 500) v
        (λ e was.
          let (s', i') =
            subst (λ r. Ends sv q v (r, (call v).1)) was
              (place_order-Ends st sv req.user_id req.market_db_id q v) in
          (unconfirmed_from q v (call v).1 s s', i' ∙ i))
        (λ sig was.
          let (e, s', i') =
            subst (λ r. Ends sv q v (r, (call v).1)) was
              (place_order-Ends st sv req.user_id req.market_db_id q v) in
          (e, s' ∙ ap (landed_with (sv.send_place_order q) q) s, i' ∙ i))

  -- The result is that of the quote sent.
  abbrev IsFinal : SignedQuote → TradeResult → World → Type 0
  IsFinal q r v =
      (r.filled_shares ≡ q.size) × (r.price_paid_cents ≡ q.price) × Sent sv q w r.tx_signature v

  finish-Step :
      (q : SignedQuote) (price sig : ℕ) (r : TradeResult) (v : World)
      → r.filled_shares ≡ q.size
      → r.price_paid_cents ≡ q.price
      → Sent sv q w r.tx_signature v
      → Step sv market h q w (IsFinal q) (
          (mark_quote_consumed sv q.nonce
              >> (persist_fill_and_hedge sv req market q h price sig >> pure r))
            v)
  unfolding ◌>>=◌ mark_quote_consumed persist_fill_and_hedge
  finish-Step q price sig r v size p (given, s, i) =
      let (s₁, i₁) = mark-Still sv q.nonce v in
      let (s₂, i₂) =
        persist_fill-Still sv req market q h price sig (mark_quote_consumed sv q.nonce v).1 in
      inl (r, refl, (size, p, (given, s₂ ∙ s₁ ∙ s, i₂ ∙ i₁ ∙ i)))

  -- `settle` once the quote is signed.
  abbrev with_quote : ℕ → ℕ → SignedQuote → Action TradeResult
  with_quote id price q =
      persist_quote sv market.id req price h.filled_shares q (expiry st sv)
      >> (submit_solana_or_record_inventory st sv req market q h >>= λ sig.
          mark_quote_consumed sv q.nonce
          >> (persist_fill_and_hedge sv req market q h price sig
              >> pure (
                  result_of sig h.polymarket_order_id h.filled_shares price id
                    h.netted_from_inventory)))

  persisted :
      (id price : ℕ) (q : SignedQuote) (v : World)
      → h.filled_shares ≡ q.size
      → price ≡ q.price
      → sv.db_up create_quote ≡ true
      → Still w v
      → Step sv market h q w (IsFinal q) (with_quote id price q v)
  persisted id price q v size p quotes (s, i) =
      let (done, (s', i')) =
        persist_quote_up sv market.id req price h.filled_shares q (expiry st sv) v quotes in
      Step-bind sv market h q w (λ _ u. Still w u) (IsFinal q) _ _ v
        (inl (tt, done, (s' ∙ s, i' ∙ i)))
        λ _ u still.
          Step-bind sv market h q w (λ sig u. Sent sv q w sig u) (IsFinal q) _ _ u
            (submit-Step q u still) λ sig u₁ sent. finish-Step q price sig _ u₁ size p sent

  settle-Step :
      (id : ℕ)
      → sv.signer_configured ≡ true
      → sv.db_up create_quote ≡ true
      → let q =
          quote_of market req
            (derive_user_price st.spread_cents h.avg_price_cents req.side)
            h.filled_shares
            (derive_nonce sv id)
            (expiry st sv) in
        Step sv market h q w (IsFinal q) (settle st sv req id market h w)
  unfolding settle
  settle-Step id signer quotes =
      let price = derive_user_price st.spread_cents h.avg_price_cents req.side in
      let q = quote_of market req price h.filled_shares (derive_nonce sv id) (expiry st sv) in
      Step-bind sv market h q w (λ _ v. Still w v) (IsFinal q) _ _ w (cover-Step q price req.side)
        λ _ v still.
          Step-bind sv market h q w (λ s v. (s ≡ q) × Still w v) (IsFinal q) _ _ v
            (inl (
              q,
              (sign_up sv q v signer).0,
              (refl, subst (Still w) (sym (sign_up sv q v signer).1) still),
            ))
            λ signed v₁ (is_q, s₁).
              subst (λ s. Step sv market h s w (IsFinal s) (with_quote id price signed v₁)) is_q
                (persisted id price signed v₁ (ap (λ (x : SignedQuote). x.size) (sym is_q))
                  (ap (λ (x : SignedQuote). x.price) (sym is_q)) quotes s₁)

-- The quote of the whole hedge at the derived price.
abbrev pub final_quote :
    Settings → Services → TradeRequest → ℕ → ResolvedMarket → HedgeFilled → SignedQuote
final_quote st sv req id market h = record {
  market = market.solana_market_pda;
  side = req.side;
  outcome = req.outcome;
  price = derive_user_price st.spread_cents h.avg_price_cents req.side;
  size = h.filled_shares;
  expires_at = sv.now / 1000 + st.quote_expiry_seconds;
  nonce = derive_nonce sv id;
}

-- The client has given this signature for the quote, which stands on Solana if it went through there; the inventory is as
-- before.
abbrev pub IsSettled : Services → SignedQuote → World → ℕ → World → Type 0
IsSettled sv q w sig v =
    ((sv.send_place_order q).signature ≡ some sig)
    × ((((sv.send_place_order q).landed ≡ true) × (v.submissions ≡ q ∷ w.submissions))
        ⊎ (((sv.send_place_order q).landed ≡ false) × (v.submissions ≡ w.submissions)))
    × (v.inventory ≡ w.inventory)

Sent-IsSettled :
    (sv : Services) (q : SignedQuote) (w : World) (sig : ℕ) (v : World)
    → Sent sv q w sig v
    → IsSettled sv q w sig v
Sent-IsSettled sv q w sig v (signed, subs, inv) = elim (Bool-cases (sv.send_place_order q).landed) [
  | inl e ↦
      (signed, inl (e, subs ∙ ap (λ b. if b then q ∷ w.submissions else w.submissions) e), inv)
  | inr e ↦
      (signed, inr (e, subs ∙ ap (λ b. if b then q ∷ w.submissions else w.submissions) e), inv)
]

-- With the hedge in place, its order id new to the inventory, and the signer and the two tables up, a trade ends in one
-- of two ways, whatever becomes of its transaction. It returns the whole hedge at the derived price: the client has
-- given a signature for the one quote of it, which stands on Solana if it went through there and nothing else does, and
-- the inventory is as before. Or it throws: the hedge is a new row of the inventory, of the trade's market, token, side
-- and outcome, with the hedge's size, price and order id, neither netted nor liquidated; and nothing stands on Solana,
-- unless the quote went through and the client gave no signature for it.
pub settle_keeps_position :
    (st : Settings) (sv : Services) (req : TradeRequest) (id : ℕ) (market : ResolvedMarket)
    (h : HedgeFilled) (w : World)
    → sv.signer_configured ≡ true
    → sv.db_up create_quote ≡ true
    → sv.db_up create_orphan ≡ true
    → (h.polymarket_order_id == netted_text) ≡ false
    → any (is_of h) w.inventory ≡ false
    → ((r : TradeResult) × ((settle st sv req id market h w).0 ≡ ok r)
        × (r.filled_shares ≡ h.filled_shares)
        × (r.price_paid_cents ≡ derive_user_price st.spread_cents h.avg_price_cents req.side)
        × IsSettled sv
            (final_quote st sv req id market h)
            w
            r.tx_signature
            (settle st sv req id market h w).1)
      ⊎ ((e : Failure) × ((settle st sv req id market h w).0 ≡ err e)
          × Kept sv market h
              (final_quote st sv req id market h)
              w
              (settle st sv req id market h w).1)
settle_keeps_position st sv req id market h w signer quotes up bought fresh =
    elim (settle-Step st sv req market h up bought w fresh id signer quotes) [
      | inl (r, e, (size, price, sent)) ↦ inl (
        r,
        e,
        size,
        price,
        Sent-IsSettled sv (final_quote st sv req id market h) w r.tx_signature
            (settle st sv req id market h w).1 sent,
      )
      | inr kept ↦ inr kept
    ]
