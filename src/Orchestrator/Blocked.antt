-- ===== src/Orchestrator/Blocked.antt =====
-- The fill that the on-chain leg records, and the second one that apps/server/services/service.trade-orchestrator.ts
-- creates in `persist_fill_and_hedge`.
use highgarden.Base.{
  ℕ, ◌≡◌, refl, sym, subst, ◌∙◌, ◌⊎◌, inl, inr, Bool, true, false, none, some, List, [], ◌∷◌, arith,
  any, ◌==◌, Bool-cases,
}
use highgarden.Database.{QuoteRow, FillRow}
use highgarden.Pricing.{HedgeFilled}
use highgarden.Trade.{
  ServerHedgeRow, consume_quote, World, Services, Settings, pure, TradeRequest, ResolvedMarket,
  SignedQuote, trade_error, trade_reconcile_pending, catch_rethrow, Returns, bind-Returns,
  ok-injective, ◌>>◌, record_fill,
}
use highgarden.Records.{
  insert_hedge, DbReply, written, p2002, db_error, fill_clash, insert_fill, consume_where,
  mark_quote_consumed, persist_fill_and_hedge, record_orphan_inventory,
}
use highgarden.Orchestrator.{submit_solana_or_record_inventory}
use highgarden.SolanaTrade.{place_order, record_fill_idempotent}

any_mono :
    {A : Type 0} (p q : A → Bool) (xs : List A)
    → ((x : A) → p x ≡ true → q x ≡ true)
    → any p xs ≡ true
    → any q xs ≡ true
any_mono p q [] f h = h
any_mono p q (x ∷ xs) f h = elim (Bool-cases (p x)) [
  | inl e ↦ let e' = f x e in rw e' refl
  | inr e ↦ let rest = any_mono p q xs f in ground arith
]

-- No fill under this nonce and signature can be created any more.
abbrev pub Blocked : ℕ → ℕ → World → Type 0
Blocked nonce sig w =
    (row : FillRow)
    → row.nonce ≡ some nonce
    → row.solana_tx_sig ≡ sig
    → (any (fill_clash row) w.fills ≡ true) ⊎ (any (λ q. q.nonce == nonce) w.quotes ≡ false)

clash_of :
    (row r f : FillRow)
    → row.nonce ≡ r.nonce
    → row.solana_tx_sig ≡ r.solana_tx_sig
    → r.netted_from_inventory_id ≡ none
    → fill_clash r f ≡ true
    → fill_clash row f ≡ true
clash_of row r f n s none_netted h = ground arith

module _ (nonce sig : ℕ) (row : FillRow) (n : row.nonce ≡ some nonce)
    (s : row.solana_tx_sig ≡ sig) where
  self_clash : (f : FillRow) → f.nonce ≡ some nonce → fill_clash row f ≡ true
  self_clash f e = ground arith

insert_clash :
    (r : FillRow) (w : World) → any (fill_clash r) w.fills ≡ true → (insert_fill true r w).1 ≡ w
unfolding insert_fill
insert_clash r w h = ground arith

module _ (r : FillRow) (nonce : ℕ) (w : World) (e : r.nonce ≡ some nonce) where
  insert_new :
      any (fill_clash r) w.fills ≡ false
      → any (λ q. q.nonce == nonce) w.quotes ≡ true
      → (insert_fill true r w).1.fills ≡ r ∷ w.fills
  unfolding insert_fill
  insert_new free there = ground arith

  insert_dangling : any (λ q. q.nonce == nonce) w.quotes ≡ false → (insert_fill true r w).1 ≡ w
  unfolding insert_fill
  insert_dangling gone = ground arith

  insert_free :
      (row : FillRow)
      → any (fill_clash r) w.fills ≡ false
      → fill_clash row r ≡ true
      → (any (fill_clash row) (insert_fill true r w).1.fills ≡ true)
        ⊎ (any (λ q. q.nonce == nonce) (insert_fill true r w).1.quotes ≡ false)
  insert_free row free clash = elim (Bool-cases (any (λ q. q.nonce == nonce) w.quotes)) [
    | inl there ↦
        inl (
          subst (λ fs. any (fill_clash row) fs ≡ true) (sym (insert_new free there))
            (rw clash refl))
    | inr gone ↦ inr (
        subst (λ (v : World). any (λ q. q.nonce == nonce) v.quotes ≡ false)
          (sym (insert_dangling gone)) gone)
  ]

insert_fill-Blocked :
    (r : FillRow) (nonce : ℕ) (w : World)
    → r.nonce ≡ some nonce
    → r.netted_from_inventory_id ≡ none
    → Blocked nonce r.solana_tx_sig (insert_fill true r w).1
unfolding insert_fill
insert_fill-Blocked r nonce w e none_netted row n s =
    elim (Bool-cases (any (fill_clash r) w.fills)) [
      | inl clash ↦
          let still =
            any_mono (fill_clash r) (fill_clash row) w.fills
              (λ f. clash_of row r f (n ∙ sym e) s none_netted) clash in
          let stays = insert_clash r w clash in
          subst
            (λ (v : World).
              (any (fill_clash row) v.fills ≡ true)
              ⊎ (any (λ q. q.nonce == nonce) v.quotes ≡ false))
            (sym stays) (inl still)
      | inr free ↦ insert_free r nonce w e row free (self_clash nonce r.solana_tx_sig row n s r e)
    ]

record_fill-Blocked :
    (sv : Services) (user market : ℕ) (q : SignedQuote) (sig : ℕ) (w : World)
    → sv.db_up record_fill ≡ true
    → Blocked q.nonce sig (record_fill_idempotent sv user market q sig w).1
unfolding record_fill_idempotent
record_fill-Blocked sv user market q sig w up = rw up (insert_fill-Blocked _ q.nonce w refl refl)

record_and_return :
    (sv : Services) (user market : ℕ) (q : SignedQuote) (sig : ℕ) (w : World)
    → sv.db_up record_fill ≡ true
    → Returns (Blocked q.nonce) ((record_fill_idempotent sv user market q sig >> pure sig) w)
record_and_return sv user market q sig w up =
    let v = (record_fill_idempotent sv user market q sig w).1 in
    bind-Returns (Blocked q.nonce) _ _ w λ _ _ n h.
      subst (λ m. Blocked q.nonce m v) (ok-injective h)
        (record_fill-Blocked sv user market q sig w up)

place_order-Blocked :
    (st : Settings) (sv : Services) (user market : ℕ) (q : SignedQuote) (w : World)
    → sv.db_up record_fill ≡ true
    → Returns (Blocked q.nonce) (place_order st sv user market q w)
unfolding place_order
place_order-Blocked st sv user market q w up = bind-Returns (Blocked q.nonce) _ _ w λ _ _.
    bind-Returns (Blocked q.nonce) _ _ _ λ pda _. bind-Returns (Blocked q.nonce) _ _ _ λ _ _.
      bind-Returns (Blocked q.nonce) _ _ _ λ _ _.
        bind-Returns (Blocked q.nonce) _ _ _ λ sig _. record_and_return sv user market q sig _ up

any-consume :
    (n nonce : ℕ) (qs : List QuoteRow)
    → any (λ q. q.nonce == n) (consume_where nonce qs) ≡ any (λ q. q.nonce == n) qs
any-consume n nonce [] = refl
any-consume n nonce (q ∷ qs) = let rest = any-consume n nonce qs in ground arith

pub mark-Blocked :
    (sv : Services) (n sig : ℕ) (w : World)
    → Blocked n sig w
    → Blocked n sig (mark_quote_consumed sv n w).1
unfolding mark_quote_consumed
mark-Blocked sv n sig w blocked row e e' = elim (Bool-cases (sv.db_up consume_quote)) [
  | inl up ↦ elim (blocked row e e') [
    | inl taken ↦ rw up (inl taken)
    | inr gone ↦ rw up (inr (any-consume n n w.quotes ∙ gone))
  ]
  | inr down ↦ rw down (blocked row e e')
]

module _ (r : ServerHedgeRow) (before : World) where
  refused_hedge :
      (x : DbReply × World) → (x.0 ≡ p2002) ⊎ (x.0 ≡ db_error) → insert_hedge r before x ≡ before
  refused_hedge (written, w) h = ground arith
  refused_hedge (p2002, w) h = refl
  refused_hedge (db_error, w) h = refl

Blocked-insert :
    (up : Bool) (r : FillRow) (n sig : ℕ) (w : World)
    → r.nonce ≡ some n
    → r.solana_tx_sig ≡ sig
    → Blocked n sig w
    → ((insert_fill up r w).0 ≡ p2002) ⊎ ((insert_fill up r w).0 ≡ db_error)
unfolding insert_fill
Blocked-insert up r n sig w e e' blocked = let b = blocked r e e' in ground arith

pub persist_fill_and_hedge-Blocked :
    (sv : Services) (req : TradeRequest) (market : ResolvedMarket) (q : SignedQuote)
    (h : HedgeFilled) (price sig : ℕ) (w : World)
    → Blocked q.nonce sig w
    → (persist_fill_and_hedge sv req market q h price sig w).1 ≡ w
unfolding persist_fill_and_hedge
persist_fill_and_hedge-Blocked sv req market q h price sig w blocked =
    refused_hedge _ w _ (Blocked-insert _ _ q.nonce sig w refl refl blocked)

pub submit-Blocked :
    (st : Settings) (sv : Services) (req : TradeRequest) (market : ResolvedMarket) (q : SignedQuote)
    (h : HedgeFilled) (w : World)
    → sv.db_up record_fill ≡ true
    → Returns (Blocked q.nonce) (submit_solana_or_record_inventory st sv req market q h w)
unfolding submit_solana_or_record_inventory
submit-Blocked st sv req market q h w up sig e =
    catch_rethrow (Blocked q.nonce) (place_order st sv req.user_id req.market_db_id q)
      (λ _. record_orphan_inventory sv market h) (λ _. trade_error trade_reconcile_pending 500) w
      (place_order-Blocked st sv req.user_id req.market_db_id q w up) sig e

unfoldable pub SameHedges : World → World → Type 0
SameHedges w w' = w'.hedges ≡ w.hedges

pub SameHedges-compose : (u v w : World) → SameHedges u v → SameHedges v w → SameHedges u w
unfolding SameHedges
SameHedges-compose u v w p q = q ∙ p
