-- ===== src/Hedger/WalkFill.antt =====
-- What `walk_book` fills: apps/hedger/hedger/processor.ts.
use highgarden.Base.{ℕ, zero, suc, ◌+◌, ◌≤◌, ◌≡◌, refl, sym, ap, subst, ◌∙◌, some, List, arith}
use highgarden.Base.Int.{ℤ}
use highgarden.Call.{Reply, ok, pure}
use highgarden.Call.Frame.{ok-injective, bind-ok}
use highgarden.Trade.{OrderResult}
use highgarden.Hedger.{
  Tables, HedgeFailure, HedgeServices, HedgeOrder, WalkInput, WalkAccumulator, WalkEnd, walked,
  out_of_fuel, WalkResult, walk_loop, walk_book, walk_order_of, merge_walk_result, step_price,
  max_price, no_walk, walk_fuel, end_result,
}
use highgarden.Hedger.WalkTurn.{turn, merged, exhausted, sent_to}

-- Polymarket fills no more than an order asks for.
abbrev pub NoOverfill : HedgeServices → Type 0
NoOverfill sv =
    (sent : List HedgeOrder) (o : HedgeOrder) (r : OrderResult)
    → sv.place_market_order sent o ≡ ok r
    → r.filled_shares ≤ o.size_shares

abbrev FillsAtMost : ℕ → Reply HedgeFailure WalkEnd × Tables → Type 0
FillsAtMost n r = (acc : WalkAccumulator) → r.0 ≡ ok (walked acc) → acc.filled ≤ n

walked-injective :
    {a b : WalkAccumulator}
    → ◌≡◌ {A = Reply HedgeFailure WalkEnd} (ok (walked a)) (ok (walked b))
    → a ≡ b
walked-injective h = cc

at_most :
    (n : ℕ) (a : WalkAccumulator) (w : Tables) → a.filled ≤ n → FillsAtMost n (ok (walked a), w)
at_most n a w le acc h = subst (λ (x : WalkAccumulator). x.filled ≤ n) (walked-injective h) le

merged_filled :
    (sv : HedgeServices) (input : WalkInput) (max : ℤ) (acc : WalkAccumulator) (r : OrderResult)
    → (merged sv input max acc r).filled ≡ acc.filled + r.filled_shares
unfolding merge_walk_result
merged_filled sv input max acc r = refl

loop-FillsAtMost :
    (sv : HedgeServices) (input : WalkInput) (max : ℤ) (n : ℕ) (acc : WalkAccumulator) (price : ℤ)
    (w : Tables)
    → NoOverfill sv
    → acc.filled ≤ input.remaining_shares
    → FillsAtMost input.remaining_shares (walk_loop sv input max n acc price w)
unfolding walk_loop
loop-FillsAtMost sv input max zero acc price w honest le = λ acc' h. cc
loop-FillsAtMost sv input max (suc n) acc price w honest le =
    turn sv input max (FillsAtMost input.remaining_shares) n acc price w
      (λ _. at_most input.remaining_shares acc w le)
      (λ _. at_most input.remaining_shares (exhausted acc) w le) (λ e _ _ acc' h. cc)
      (λ r said short _.
        let le' : (merged sv input max acc r).filled ≤ input.remaining_shares =
          let bound = honest w.orders (walk_order_of input acc price) r said in
          let sum = merged_filled sv input max acc r in omega arith in
        (
          at_most input.remaining_shares (merged sv input max acc r)
              (sent_to sv input max acc price w) le',
          at_most input.remaining_shares (exhausted (merged sv input max acc r))
              (sent_to sv input max acc price w) le',
          loop-FillsAtMost sv input max n (merged sv input max acc r) (step_price input.side price)
              (sent_to sv input max acc price w) honest le',
        ))

some-injective : {a b : WalkResult} → some a ≡ some b → a ≡ b
some-injective h = cc

some_walk :
    (e : WalkEnd) (r : WalkResult)
    → end_result e ≡ some r
    → (acc : WalkAccumulator) × (e ≡ walked acc) × (r.total_filled_shares ≡ acc.filled)
some_walk (walked acc) r h =
    (acc, refl, ap (λ (x : WalkResult). x.total_filled_shares) (some-injective (sym h)))
some_walk out_of_fuel r h = cc

-- Where Polymarket fills no order beyond its size, a walk fills no more than the shares wanted.
pub walk_book_filled :
    (sv : HedgeServices) (input : WalkInput) (w : Tables) (r : WalkResult)
    → NoOverfill sv
    → (walk_book sv input w).0 ≡ ok (some r)
    → r.total_filled_shares ≤ input.remaining_shares
unfolding walk_book
walk_book_filled sv input w r honest h =
    let (e, was, rest) =
      bind-ok
        (walk_loop sv input (max_price input.side input.initial_price_cents sv.slippage_limit_cents)
          (walk_fuel sv) no_walk input.initial_price_cents)
        (λ e. pure (end_result e)) w (some r) h in
    let (acc, is, same) = some_walk e r (ok-injective rest) in
    let le =
      loop-FillsAtMost sv input _ (walk_fuel sv) no_walk input.initial_price_cents w honest
        (omega arith) acc (was ∙ ap ok is) in
    omega arith
