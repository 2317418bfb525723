-- ===== src/Hedger/Walk.antt =====
-- `walk_book` of apps/hedger/hedger/processor.ts: order after order at a price one cent worse each time,
-- until the size is filled or the slippage limit is reached.
use highgarden.Base.{
  ℕ, zero, suc, ◌+◌, ◌-◌, ◌*◌, Bool, true, false, ◌||◌, Option, none, some, ltb, leb, ◌==◌, ◌∷◌,
  if◌then◌else◌,
}
use highgarden.Base.Int.{ℤ, pos, ◌+ℤ◌, ◌-ℤ◌, ltb_ℤ}
use highgarden.Base.Round.{round_div}
use highgarden.Database.{Side, buy, sell, truthy}
use highgarden.Call.{pure, ◌>>=◌}
use highgarden.Trade.{OrderResult}
use highgarden.Hedger.State.{HedgeCall, HedgeServices, HedgeOrder, walk_order, ClientId}

-- The order is out, whatever comes back.
unfoldable pub place : HedgeServices → HedgeOrder → HedgeCall OrderResult
place sv order h = (sv.place_market_order h.orders order, record h { orders = order ∷ h.orders })

pub record WalkInput : Type 0 where
  pub token_id : ℕ
  pub side : Side
  pub remaining_shares : ℕ
  pub initial_price_cents : ℤ
  pub tick_size : ℕ
  pub neg_risk : Bool
  pub client_order_id_base : Option ClientId

pub record WalkAccumulator : Type 0 where
  pub filled : ℕ
  pub usdc_paid : ℕ
  pub attempts : ℕ
  pub last_order_id : Option ℕ
  pub budget_exhausted : Bool

-- The paid cents that a reply adds.
abbrev pub paid : OrderResult → ℕ
paid r = elim r.avg_price_cents [ none ↦ 0 | some p ↦ r.filled_shares * p ]

unfoldable pub merge_walk_result : WalkAccumulator → OrderResult → WalkAccumulator
merge_walk_result acc r = record acc {
  filled = acc.filled + r.filled_shares;
  usdc_paid = acc.usdc_paid + paid r;
  last_order_id = elim (truthy r.polymarket_order_id) [
    | none ↦ acc.last_order_id
    | some i ↦ some i
  ];
}

-- One cent worse for us.
unfoldable pub step_price : Side → ℤ → ℤ
step_price buy p = p +ℤ pos 1
step_price sell p = p -ℤ pos 1

unfoldable pub max_price : Side → ℤ → ℕ → ℤ
max_price buy p limit = p +ℤ pos limit
max_price sell p limit = p -ℤ pos limit

unfoldable pub price_outside_budget : Side → ℤ → ℤ → Bool
price_outside_budget buy current max = ltb_ℤ max current
price_outside_budget sell current max = ltb_ℤ current max

abbrev pub walk_order_of : WalkInput → WalkAccumulator → ℤ → HedgeOrder
walk_order_of input acc price = record {
  token_id = input.token_id;
  side = input.side;
  size_shares = input.remaining_shares - acc.filled;
  price_cents = price;
  tick_size = input.tick_size;
  neg_risk = input.neg_risk;
  client_order_id = walk_order input.client_order_id_base (suc acc.attempts);
}

-- How the loop ends: by itself, or at the end of the fuel.
pub data WalkEnd : Type 0 where
  walked : WalkAccumulator → WalkEnd
  out_of_fuel : WalkEnd

-- What follows a reply: the end of the loop, or the rest of it.
abbrev pub after_reply :
    WalkInput
    → WalkAccumulator
    → OrderResult
    → (WalkAccumulator → HedgeCall WalkEnd)
    → HedgeCall WalkEnd
after_reply input acc r rest =
    let remaining = input.remaining_shares - acc.filled in
    let merged = merge_walk_result (record acc { attempts = suc acc.attempts }) r in
    if r.fully_filled || r.filled_shares == remaining
    then pure (walked merged)
    else if r.filled_shares == 0
    then pure (walked (record merged { budget_exhausted = true }))
    else rest merged

-- The `while` loop, on fuel.
unfoldable pub walk_loop :
    HedgeServices → WalkInput → ℤ → ℕ → WalkAccumulator → ℤ → HedgeCall WalkEnd
unfolding merge_walk_result
walk_loop sv input max zero acc price = pure out_of_fuel
walk_loop sv input max (suc n) acc price =
    let rest =
      λ (merged : WalkAccumulator). walk_loop sv input max n merged (step_price input.side price) in
    if leb input.remaining_shares acc.filled
    then pure (walked acc)
    else if price_outside_budget input.side price max
    then pure (walked (record acc { budget_exhausted = true }))
    else (place sv (walk_order_of input acc price) >>= λ r. after_reply input acc r rest)

pub record WalkResult : Type 0 where
  pub total_filled_shares : ℕ
  pub weighted_avg_price_cents : Option ℕ
  pub last_order_id : Option ℕ
  pub slippage_budget_exhausted : Bool
  pub attempts : ℕ

abbrev pub walk_result : WalkAccumulator → WalkResult
walk_result acc = record {
  total_filled_shares = acc.filled;
  weighted_avg_price_cents =
      if ltb 0 acc.filled then some (round_div acc.usdc_paid acc.filled) else none;
  last_order_id = acc.last_order_id;
  slippage_budget_exhausted = acc.budget_exhausted;
  attempts = acc.attempts;
}

abbrev pub no_walk : WalkAccumulator
no_walk = record {
  filled = 0;
  usdc_paid = 0;
  attempts = 0;
  last_order_id = none;
  budget_exhausted = false;
}

abbrev pub end_result : WalkEnd → Option WalkResult
end_result (walked acc) = some (walk_result acc)
end_result out_of_fuel = none

-- One turn for each price of the budget, and one to see that it is over.
abbrev pub walk_fuel : HedgeServices → ℕ
walk_fuel sv = suc (suc sv.slippage_limit_cents)

-- `none` would be a walk that has run out of fuel.
unfoldable pub walk_book : HedgeServices → WalkInput → HedgeCall (Option WalkResult)
unfolding walk_loop max_price
walk_book sv input = do
  end' ←
      walk_loop sv input (max_price input.side input.initial_price_cents sv.slippage_limit_cents)
        (walk_fuel sv) no_walk input.initial_price_cents
  pure (end_result end')
