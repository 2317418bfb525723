-- ===== src/Orchestrator/Steps.antt =====
-- The steps of `execute` that write, from the hedge on (apps/server/services/service.trade-orchestrator.ts).
use highgarden.Base.{
  ℕ, ◌≡◌, refl, sym, ap, subst, ◌∙◌, ◌⊎◌, inl, inr, Bool, true, false, none, some, ◌∷◌, arith, any,
  ◌==◌, Bool-cases, Option-cases, if◌then◌else◌,
}
use highgarden.Database.{InventoryRow, netted_text}
use highgarden.Pricing.{HedgeFilled}
use highgarden.Trade.{
  other_error, World, Services, Settings, TradeRequest, ResolvedMarket, SignedQuote, Failure,
  Result, ok, err, Action, pure, throw, catch, ◌>>=◌, ◌>>◌, create_quote, create_orphan,
  catch-throw, bind-value, bind-throw, Reply-cases,
}
use highgarden.Records.{
  persist_quote, mark_quote_consumed, persist_fill_and_hedge, record_orphan_inventory, orphan_row,
  insert_quote, insert_fill,
}
use highgarden.SolanaTrade.{
  place_order, load_custodial_keypair, load_market_pda, assert_quote_market, send_place_order,
  landed_with, record_fill_idempotent,
}
use highgarden.Orchestrator.{sign_quote_internally}

-- The row's order id is the hedge's.
abbrev pub is_of : HedgeFilled → InventoryRow → Bool
is_of h r = r.polymarket_order_id == h.polymarket_order_id

-- A row of the hedge's position that the netter can offer to later trades.
abbrev pub IsPosition : ResolvedMarket → HedgeFilled → InventoryRow → Type 0
IsPosition market h row =
    (row.market_id ≡ market.id)
    × (row.polymarket_token_id ≡ market.token_id)
    × (row.side ≡ market.polymarket_side)
    × (row.outcome ≡ market.outcome)
    × (row.shares ≡ h.filled_shares)
    × (row.avg_price_cents ≡ h.avg_price_cents)
    × (row.polymarket_order_id ≡ h.polymarket_order_id)
    × (row.netted_at ≡ none)
    × (row.liquidated_at ≡ none)

-- The quote has not gone through on Solana, or it has and its confirmation was lost.
abbrev pub IsUnconfirmed : Services → SignedQuote → World → World → Type 0
IsUnconfirmed sv q w v =
    (v.submissions ≡ w.submissions)
    ⊎ (((sv.send_place_order q).landed ≡ true)
        × ((sv.send_place_order q).signature ≡ none)
        × (v.submissions ≡ q ∷ w.submissions))

-- The hedge's position is a new row of the inventory.
abbrev pub Kept : Services → ResolvedMarket → HedgeFilled → SignedQuote → World → World → Type 0
Kept sv market h q w v =
    IsUnconfirmed sv q w v
    × (row : InventoryRow) × (v.inventory ≡ row ∷ w.inventory)
    × IsPosition market h row

abbrev pub Still : World → World → Type 0
Still w v = (v.submissions ≡ w.submissions) × (v.inventory ≡ w.inventory)

module _ (sv : Services) (market : ResolvedMarket) (h : HedgeFilled) (q : SignedQuote)
    (up : sv.db_up create_orphan ≡ true)
    (bought : (h.polymarket_order_id == netted_text) ≡ false) where
  orphan-Kept :
      (w v : World)
      → any (is_of h) w.inventory ≡ false
      → IsUnconfirmed sv q w v
      → v.inventory ≡ w.inventory
      → Kept sv market h q w (record_orphan_inventory sv market h v).1
  unfolding record_orphan_inventory
  orphan-Kept w v fresh s i =
      let fresh' = subst (λ rs. any (is_of h) rs ≡ false) (sym i) fresh in
      rw (bought, up, fresh')
        (
          s,
          orphan_row v sv.now market h,
          ap (λ rs. orphan_row v sv.now market h ∷ rs) i,
          (refl, refl, refl, refl, refl, refl, refl, refl, refl),
        )

  pub reconcile-Kept :
      {A : Type 0} (m : Action A) (g : Failure → Failure) (w v : World) (e : Failure)
      → any (is_of h) w.inventory ≡ false
      → (m v).0 ≡ err e
      → IsUnconfirmed sv q w (m v).1
      → (m v).1.inventory ≡ w.inventory
      → (Kept sv market h q w
          (catch m (λ e. record_orphan_inventory sv market h >> throw (g e)) v).1)
        × ((catch m (λ e. record_orphan_inventory sv market h >> throw (g e)) v).0 ≡ err (g e))
  unfolding record_orphan_inventory ◌>>=◌
  reconcile-Kept {A = A} m g w v e fresh was s i =
      let handler : Failure → Action A = λ e. record_orphan_inventory sv market h >> throw (g e) in
      subst (λ r. Kept sv market h q w r.1 × (r.0 ≡ err (g e))) (sym (catch-throw m handler v was))
        (orphan-Kept w (m v).1 fresh s i, refl)

-- The client has given a signature back, and whatever became of the quote on Solana, it was sent once.
abbrev pub Sent : Services → SignedQuote → World → ℕ → World → Type 0
Sent sv q w sig v =
    ((sv.send_place_order q).signature ≡ some sig)
    × (v.submissions ≡ landed_with (sv.send_place_order q) q w.submissions)
    × (v.inventory ≡ w.inventory)

abbrev pub Ends : Services → SignedQuote → World → Result ℕ × World → Type 0
Ends sv q w (ok sig, v) = Sent sv q w sig v
Ends sv q w (err e, v) = IsUnconfirmed sv q w v × (v.inventory ≡ w.inventory)

-- A check that writes nothing goes in front.
quiet_bind :
    {A : Type 0} (P : Result ℕ × World → Type 0) (m : Action A) (f : A → Action ℕ) (w : World)
    → (m w).1 ≡ w
    → ((e : Failure) → P (err e, w))
    → ((a : A) → P (f a w))
    → P ((m >>= f) w)
quiet_bind P m f w same threw went = elim (Reply-cases (m w).0) [
  | inl (a, e) ↦ subst P (sym (bind-value m f w e ∙ ap (f a) same)) (went a)
  | inr (e, was) ↦ subst P (sym (bind-throw m f w was ∙ ap (λ v. (err e, v)) same)) (threw e)
]

keypair_frame : (sv : Services) (user : ℕ) (w : World) → (load_custodial_keypair sv user w).1 ≡ w
unfolding load_custodial_keypair ◌>>=◌
keypair_frame sv user w = ground arith

pda_frame : (sv : Services) (market : ℕ) (w : World) → (load_market_pda sv market w).1 ≡ w
unfolding load_market_pda ◌>>=◌
pda_frame sv market w = ground arith

record_fill-Still :
    (sv : Services) (user market sig : ℕ) (q : SignedQuote) (w : World)
    → Still w (record_fill_idempotent sv user market q sig w).1
unfolding record_fill_idempotent insert_fill
record_fill-Still sv user market sig q w = ground arith

abbrev after_send : Services → SignedQuote → World → World
after_send sv q w = record w { submissions = landed_with (sv.send_place_order q) q w.submissions }

send_gave :
    (sv : Services) (q : SignedQuote) (sig : ℕ) (w : World)
    → (sv.send_place_order q).signature ≡ some sig
    → send_place_order sv q w ≡ (ok sig, after_send sv q w)
unfolding send_place_order ◌>>=◌
send_gave sv q sig w e = rw e refl

send_threw :
    (sv : Services) (q : SignedQuote) (w : World)
    → (sv.send_place_order q).signature ≡ none
    → send_place_order sv q w ≡ (err other_error, after_send sv q w)
unfolding send_place_order ◌>>=◌
send_threw sv q w e = rw e refl

lost :
    (sv : Services) (q : SignedQuote) (w : World)
    → (sv.send_place_order q).signature ≡ none
    → IsUnconfirmed sv q w (after_send sv q w)
lost sv q w e = elim (Bool-cases (sv.send_place_order q).landed) [
  | inl through ↦ inr (through, e, ap (λ b. if b then q ∷ w.submissions else w.submissions) through)
  | inr failed ↦ inl (ap (λ b. if b then q ∷ w.submissions else w.submissions) failed)
]

record_fill_ok :
    (sv : Services) (user market sig : ℕ) (q : SignedQuote) (w : World)
    → (record_fill_idempotent sv user market q sig w).0 ≡ ok tt
unfolding record_fill_idempotent
record_fill_ok sv user market sig q w = refl

fill_written :
    (sv : Services) (user market sig : ℕ) (q : SignedQuote) (w : World)
    → (sv.send_place_order q).signature ≡ some sig
    → Ends sv q w ((record_fill_idempotent sv user market q sig >> pure sig) (after_send sv q w))
fill_written sv user market sig q w e =
    let v = after_send sv q w in
    let still = record_fill-Still sv user market sig q v in
    subst (Ends sv q w)
      (sym (
        bind-value (record_fill_idempotent sv user market q sig) (λ _. pure sig) v
          (record_fill_ok sv user market sig q v)))
      (e, still.0, still.1)

sent-Ends :
    (sv : Services) (user market : ℕ) (q : SignedQuote) (w : World)
    → Ends sv q w (
        (send_place_order sv q >>= λ sig. (record_fill_idempotent sv user market q sig >> pure sig))
          w)
sent-Ends sv user market q w =
    let write : ℕ → Action ℕ = λ sig. record_fill_idempotent sv user market q sig >> pure sig in
    let reply : Result ℕ × World → Result ℕ = λ r. r.0 in
    elim (Option-cases (sv.send_place_order q).signature) [
      | inl e ↦
          let same = send_threw sv q w e in
          subst (Ends sv q w)
            (sym (
              bind-throw (send_place_order sv q) write w (ap reply same)
              ∙ ap (λ (r : Result ℕ × World). (err other_error, r.1)) same))
            (lost sv q w e, refl)
      | inr (sig, e) ↦
          let same = send_gave sv q sig w e in
          subst (Ends sv q w)
            (sym (
              bind-value (send_place_order sv q) write w (ap reply same)
              ∙ ap (λ (r : Result ℕ × World). write sig r.1) same))
            (fill_written sv user market sig q w e)
    ]

pub place_order-Ends :
    (st : Settings) (sv : Services) (user market : ℕ) (q : SignedQuote) (w : World)
    → Ends sv q w (place_order st sv user market q w)
unfolding place_order assert_quote_market
place_order-Ends st sv user market q w =
    let P = Ends sv q w in
    quiet_bind P _ _ w (keypair_frame sv user w) (λ e. (inl refl, refl))
      λ _.
        quiet_bind P _ _ w (pda_frame sv market w) (λ e. (inl refl, refl))
          λ pda.
            quiet_bind P _ _ w refl (λ e. (inl refl, refl))
              λ _. quiet_bind P _ _ w refl (λ e. (inl refl, refl)) λ _. sent-Ends sv user market q w

pub persist_quote_up :
    (sv : Services) (m : ℕ) (req : TradeRequest) (price size : ℕ) (q : SignedQuote) (x : ℕ)
    (w : World)
    → sv.db_up create_quote ≡ true
    → ((persist_quote sv m req price size q x w).0 ≡ ok tt)
      × Still w (persist_quote sv m req price size q x w).1
unfolding persist_quote insert_quote
persist_quote_up sv m req price size q x w up = ground arith

pub persist_fill-Still :
    (sv : Services) (req : TradeRequest) (market : ResolvedMarket) (q : SignedQuote)
    (h : HedgeFilled) (price sig : ℕ) (w : World)
    → Still w (persist_fill_and_hedge sv req market q h price sig w).1
unfolding persist_fill_and_hedge insert_fill
persist_fill-Still sv req market q h price sig w = ground arith

pub mark-Still : (sv : Services) (n : ℕ) (w : World) → Still w (mark_quote_consumed sv n w).1
unfolding mark_quote_consumed
mark-Still sv n w = ground arith

pub sign_up :
    (sv : Services) (q : SignedQuote) (w : World)
    → sv.signer_configured ≡ true
    → ((sign_quote_internally sv q w).0 ≡ ok q) × ((sign_quote_internally sv q w).1 ≡ w)
unfolding sign_quote_internally ◌>>=◌
sign_up sv q w up = ground arith
