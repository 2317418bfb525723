-- ===== src/Hedger/WalkTurn.antt =====
-- One turn of `walk_book`, and the price after some turns: apps/hedger/hedger/processor.ts.
use highgarden.Base.{
  ℕ, suc, ◌+◌, ◌-◌, ◌≤◌, ◌<◌, ◌≡◌, inl, inr, true, false, ◌||◌, leb, ◌==◌, ◌∷◌, Bool-cases, arith,
}
use highgarden.Base.Int.{ℤ, pos, ◌+ℤ◌, ◌-ℤ◌, ltb_ℤ, ◌≤ℤ◌, int_laws, pos_part, neg_part}
use highgarden.Database.{Side, buy, sell}
use highgarden.Call.{Reply, ok, err, ◌>>=◌}
use highgarden.Call.Frame.{Reply-cases}
use highgarden.Trade.{OrderResult}
use highgarden.Hedger.{
  Tables, HedgeFailure, HedgeServices, WalkInput, WalkAccumulator, WalkEnd, walked, walk_loop,
  walk_order_of, merge_walk_result, step_price, max_price, price_outside_budget, after_reply, place,
}

abbrev pub exhausted : WalkAccumulator → WalkAccumulator
exhausted acc = record acc { budget_exhausted = true }

module _ (sv : HedgeServices) (input : WalkInput) (max : ℤ) where
  -- The order of this turn, the state with it sent, and the totals with its reply.
  abbrev pub sent_to : WalkAccumulator → ℤ → Tables → Tables
  sent_to acc price w = record w { orders = walk_order_of input acc price ∷ w.orders }

  abbrev pub merged : WalkAccumulator → OrderResult → WalkAccumulator
  merged acc r = merge_walk_result (record acc { attempts = suc acc.attempts }) r

  module _ (P : Reply HedgeFailure WalkEnd × Tables → Type 0) (n : ℕ) (acc : WalkAccumulator)
      (price : ℤ) (w : Tables) where
    abbrev pub reply : Reply HedgeFailure OrderResult
    reply = sv.place_market_order w.orders (walk_order_of input acc price)

    -- What a turn comes to after a reply.
    turn_reply :
        (r : OrderResult)
        → P (ok (walked (merged acc r)), sent_to acc price w)
        → P (ok (walked (exhausted (merged acc r))), sent_to acc price w)
        → P (
            walk_loop sv input max n
              (merged acc r)
              (step_price input.side price)
              (sent_to acc price w))
        → P (
            after_reply input acc r
              (λ m. walk_loop sv input max n m (step_price input.side price))
              (sent_to acc price w))
    turn_reply r over dry on =
        elim (Bool-cases
          (r.fully_filled || r.filled_shares == input.remaining_shares - acc.filled)) [
            | inl e ↦ rw e over
            | inr e ↦ elim (Bool-cases (r.filled_shares == 0)) [
              | inl z ↦ rw (e, z) dry
              | inr z ↦ rw (e, z) on
            ]
          ]

    turn_order :
        ((e : HedgeFailure) → reply ≡ err e → P (err e, sent_to acc price w))
        → ((r : OrderResult)
            → reply ≡ ok r
            → P (
                after_reply input acc r
                  (λ m. walk_loop sv input max n m (step_price input.side price))
                  (sent_to acc price w)))
        → P (
            (place sv (walk_order_of input acc price) >>= λ r.
            after_reply input acc r (λ m. walk_loop sv input max n m (step_price input.side price)))
              w)
    unfolding place ◌>>=◌
    turn_order thrown replied = elim (Reply-cases reply) [
      | inl (r, e) ↦ rw e (replied r e)
      | inr (f, e) ↦ rw e (thrown f e)
    ]

    -- One turn of the loop, by what it comes to.
    pub turn :
        (input.remaining_shares ≤ acc.filled → P (ok (walked acc), w))
        → (price_outside_budget input.side price max ≡ true → P (ok (walked (exhausted acc)), w))
        → ((e : HedgeFailure)
            → acc.filled < input.remaining_shares
            → price_outside_budget input.side price max ≡ false
            → P (err e, sent_to acc price w))
        → ((r : OrderResult)
            → reply ≡ ok r
            → acc.filled < input.remaining_shares
            → price_outside_budget input.side price max ≡ false
            → P (ok (walked (merged acc r)), sent_to acc price w)
              × P (ok (walked (exhausted (merged acc r))), sent_to acc price w)
              × P (
                  walk_loop sv input max n
                    (merged acc r)
                    (step_price input.side price)
                    (sent_to acc price w)))
        → P (walk_loop sv input max (suc n) acc price w)
    unfolding walk_loop
    turn done outside thrown on = elim (Bool-cases (leb input.remaining_shares acc.filled)) [
      | inl e ↦ rw e (done (ground arith))
      | inr e ↦
          let short : acc.filled < input.remaining_shares = ground arith in
          elim (Bool-cases (price_outside_budget input.side price max)) [
            | inl o ↦ rw (e, o) (outside o)
            | inr o ↦
                rw (e, o)
                  (turn_order (λ f _. thrown f short o)
                    λ r said. let (a, b, c) = on r said short o in turn_reply r a b c)
          ]
    ]

-- The price after `k` steps.
abbrev pub At : Side → ℤ → ℕ → ℤ → Type 0
At buy initial k price = pos_part price + neg_part initial ≡ neg_part price + pos_part initial + k
At sell initial k price = pos_part price + neg_part initial + k ≡ neg_part price + pos_part initial

up : (p q : ℤ) (k : ℕ) → At buy q k p → At buy q (suc k) (p +ℤ pos 1)
up p q k h = omega int_laws

down : (p q : ℤ) (k : ℕ) → At sell q k p → At sell q (suc k) (p -ℤ pos 1)
down p q k h = omega int_laws

pub At-step :
    (side : Side) (initial : ℤ) (k : ℕ) (price : ℤ)
    → At side initial k price
    → At side initial (suc k) (step_price side price)
unfolding step_price
At-step buy initial k price h = up price initial k h
At-step sell initial k price h = down price initial k h

-- Between the initial price and the limit.
abbrev pub WithinLimit : Side → ℤ → ℕ → ℤ → Type 0
WithinLimit buy initial limit price = (initial ≤ℤ price) × (price ≤ℤ initial +ℤ pos limit)
WithinLimit sell initial limit price = (initial -ℤ pos limit ≤ℤ price) × (price ≤ℤ initial)

below : (p m : ℤ) → ltb_ℤ m p ≡ false → p ≤ℤ m
below p m h = ground arith

within_up :
    (p q : ℤ) (k limit : ℕ)
    → At buy q k p
    → p ≤ℤ q +ℤ pos limit
    → (k ≤ limit) × WithinLimit buy q limit p
within_up p q k limit h b = (omega int_laws, (omega int_laws, omega int_laws))

within_down :
    (p q : ℤ) (k limit : ℕ)
    → At sell q k p
    → q -ℤ pos limit ≤ℤ p
    → (k ≤ limit) × WithinLimit sell q limit p
within_down p q k limit h b = (omega int_laws, (omega int_laws, omega int_laws))

pub inside :
    (side : Side) (initial : ℤ) (limit k : ℕ) (price : ℤ)
    → At side initial k price
    → price_outside_budget side price (max_price side initial limit) ≡ false
    → (k ≤ limit) × WithinLimit side initial limit price
unfolding price_outside_budget max_price
inside buy initial limit k price e h =
    within_up price initial k limit e (below price (initial +ℤ pos limit) h)
inside sell initial limit k price e h =
    within_down price initial k limit e (below (initial -ℤ pos limit) price h)
