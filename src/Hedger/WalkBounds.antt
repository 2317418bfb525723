-- ===== src/Hedger/WalkBounds.antt =====
-- The turns of `walk_book` and what they send: apps/hedger/hedger/processor.ts.
use highgarden.Base.{
  ◌≢◌, ℕ, zero, suc, ◌+◌, ◌-◌, ◌≤◌, ◌≡◌, refl, sym, ap, subst, ◌∙◌, none, List, [], ◌∷◌, ◌++◌,
  length, length-append, append_snoc, All, All-snoc, arith,
}
use highgarden.Base.Int.{ℤ}
use highgarden.Database.{Side, buy, sell}
use highgarden.Call.{Reply, ok, pure}
use highgarden.Call.Frame.{ok-injective, bind-ok, bind-pure_state}
use highgarden.Hedger.{
  Tables, HedgeFailure, HedgeServices, HedgeOrder, WalkInput, WalkAccumulator, WalkEnd, walked,
  out_of_fuel, walk_loop, walk_book, walk_order_of, step_price, max_price, no_walk, walk_fuel,
  end_result,
}
use highgarden.Hedger.WalkTurn.{turn, At, At-step, inside, WithinLimit, merged}

-- What a walk may send: its own side, a size within what is wanted, a price within the limit.
abbrev pub MaySend : ℕ → WalkInput → HedgeOrder → Type 0
MaySend limit input o =
    (o.side ≡ input.side)
    × (o.token_id ≡ input.token_id)
    × (o.size_shares ≤ input.remaining_shares)
    × WithinLimit input.side input.initial_price_cents limit o.price_cents

-- At most `n` orders have been sent, each of them one that the walk may send, and nothing else has
-- been done.
abbrev pub Walked : ℕ → WalkInput → ℕ → Tables → Tables → Type 0
Walked limit input n w w' =
    (sent : List HedgeOrder) × (w' ≡ record w { orders = sent ++ w.orders })
    × (length sent ≤ n)
    × All (MaySend limit input) sent

-- The loop has ended by itself, or a call has thrown.
abbrev Ended : ℕ → WalkInput → ℕ → Tables → Reply HedgeFailure WalkEnd × Tables → Type 0
Ended limit input n w r = ((r.0 ≡ ok out_of_fuel) → ⊥) × Walked limit input n w r.1

one_more :
    (limit n : ℕ) (input : WalkInput) (w w' : Tables) (o : HedgeOrder)
    → MaySend limit input o
    → Walked limit input n (record w { orders = o ∷ w.orders }) w'
    → Walked limit input (suc n) w w'
one_more limit n input w w' o may (sent, same, count, all) = (
  sent ++ (o ∷ []),
  same ∙ ap (λ os. record w { orders = os }) (sym (append_snoc sent o w.orders)),
  (let l = length-append sent (o ∷ []) in omega arith),
  All-snoc (MaySend limit input) sent o all may,
)

Walked-le :
    (limit m n : ℕ) (input : WalkInput) (w w' : Tables)
    → m ≤ n
    → Walked limit input m w w'
    → Walked limit input n w w'
Walked-le limit m n input w w' le (sent, same, count, all) = (sent, same, omega arith, all)

step_le : (limit k : ℕ) → k ≤ limit → suc (limit - k) ≤ suc limit - k
step_le limit k h = omega arith

step_le' : (limit k : ℕ) → k ≤ limit → suc (suc limit - suc k) ≤ suc limit - k
step_le' limit k h = omega arith

may_send :
    (limit : ℕ) (input : WalkInput) (acc : WalkAccumulator) (price : ℤ)
    → WithinLimit input.side input.initial_price_cents limit price
    → MaySend limit input (walk_order_of input acc price)
may_send limit input acc price within = (refl, refl, omega arith, within)

module _ (limit k : ℕ) (input : WalkInput) (w : Tables) (o : HedgeOrder) (le : k ≤ limit)
    (may : MaySend limit input o) where
  then_rest :
      (w' : Tables)
      → Walked limit input (suc limit - suc k) (record w { orders = o ∷ w.orders }) w'
      → Walked limit input (suc limit - k) w w'
  then_rest w' rest =
      Walked-le limit _ (suc limit - k) input w w' (step_le' limit k le)
        (one_more limit (suc limit - suc k) input w w' o may rest)

  just_one : Walked limit input (suc limit - k) w (record w { orders = o ∷ w.orders })
  just_one = then_rest _ ([], refl, omega arith, tt)

loop-Ended :
    (sv : HedgeServices) (limit : ℕ) (input : WalkInput) (n k : ℕ) (acc : WalkAccumulator)
    (price : ℤ) (w : Tables)
    → At input.side input.initial_price_cents k price
    → k + n ≡ suc (suc limit)
    → k ≤ suc limit
    → Ended limit input
        (suc limit - k)
        w
        (walk_loop sv input (max_price input.side input.initial_price_cents limit) n acc price w)
loop-Ended sv limit input zero k acc price w at' sum le = absurd (omega arith)
loop-Ended sv limit input (suc n) k acc price w at' sum le =
    let max' = max_price input.side input.initial_price_cents limit in
    let none_sent : Walked limit input (suc limit - k) w w = ([], refl, omega arith, tt) in
    let o = walk_order_of input acc price in
    turn sv input max' (Ended limit input (suc limit - k) w) n acc price w
      (λ _. ((λ h. cc), none_sent)) (λ _. ((λ h. cc), none_sent))
      (λ e _ out.
        let (le', within) = inside input.side input.initial_price_cents limit k price at' out in
        ((λ h. cc), just_one limit k input w o le' (may_send limit input acc price within)))
      (λ r _ _ out.
        let (le', within) = inside input.side input.initial_price_cents limit k price at' out in
        let may = may_send limit input acc price within in
        let one = just_one limit k input w o le' may in
        let (ends, rest) =
          loop-Ended sv limit input n (suc k) (merged sv input max' acc r)
            (step_price input.side price) (record w { orders = o ∷ w.orders })
            (At-step input.side input.initial_price_cents k price at') (omega arith)
            (omega arith) in
        (((λ h. cc), one), ((λ h. cc), one), (ends, then_rest limit k input w o le' may _ rest)))

start : (side : Side) (p : ℤ) → At side p 0 p
start buy p = omega arith
start sell p = omega arith

walk_loop_lem :
    (sv : HedgeServices) (input : WalkInput) (w : Tables)
    → Ended sv.slippage_limit_cents input (suc sv.slippage_limit_cents) w (
        walk_loop sv input
          (max_price input.side input.initial_price_cents sv.slippage_limit_cents)
          (walk_fuel sv)
          no_walk
          input.initial_price_cents
          w)
walk_loop_lem sv input w =
    let (ends, sent) =
      loop-Ended sv sv.slippage_limit_cents input (walk_fuel sv) 0 no_walk input.initial_price_cents
        w (start input.side input.initial_price_cents) (omega arith) (omega arith) in
    (ends, Walked-le _ _ _ input w _ (omega arith) sent)

never_none : (e : WalkEnd) → end_result e ≡ none → e ≡ out_of_fuel
never_none (walked acc) h = cc
never_none out_of_fuel h = refl

-- Whatever Polymarket replies, the walk comes to an end by itself. It has sent at most one order for
-- each cent of the slippage limit and one more, all on the given side and token, none for more than
-- the shares wanted, none at a price outside the limit; and it has changed nothing else.
pub walk_book-Walked :
    (sv : HedgeServices) (input : WalkInput) (w : Tables)
    → ((walk_book sv input w).0 ≢ ok none)
      × Walked sv.slippage_limit_cents input
          (suc sv.slippage_limit_cents)
          w
          (walk_book sv input w).1
unfolding walk_book
walk_book-Walked sv input w =
    let (ends, sent) = walk_loop_lem sv input w in
    (
      (λ h.
          let (e, was, rest) =
            bind-ok
              (walk_loop sv input
                (max_price input.side input.initial_price_cents sv.slippage_limit_cents)
                (walk_fuel sv) no_walk input.initial_price_cents)
              (λ e. pure (end_result e)) w none h in
          ends (was ∙ ap ok (never_none e (ok-injective rest)))),
      subst (Walked sv.slippage_limit_cents input (suc sv.slippage_limit_cents) w)
          (sym (bind-pure_state _ end_result w)) sent,
    )
