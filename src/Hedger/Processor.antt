-- ===== src/Hedger/Processor.antt =====
-- apps/hedger/hedger/processor.ts: one attempt of one hedge job.
use highgarden.Base.{
  ℕ, suc, ◌+◌, ◌-◌, ◌*◌, Bool, true, false, Option, none, some, ltb, leb, ◌==◌, or_else,
  if◌then◌else◌,
}
use highgarden.Base.Int.{ℤ, pos, neg}
use highgarden.Base.Round.{round_div}
use highgarden.Database.{
  Side, buy, sell, Outcome, yes_outcome, no_outcome, HedgeStatus, filled, partial, failed, FillRow,
  unknown_text,
}
use highgarden.Call.{pure, or_throw, ◌>>=◌, ◌>>◌}
use highgarden.Trade.{OrderResult, BookTop}
use highgarden.Hedger.State.{
  retryable, unexpected, HedgeCall, HedgeServices, HedgeRow, HedgeOrder, initial_order,
  MarketMetadata, HedgeJob, HedgeResult, job_filled, job_partial, job_skipped, HedgeDirection,
  ResolvedContext, add_exposure, settle_exposure,
}
use highgarden.Hedger.Rows.{
  find_by_custodial_pubkey, find_by_pda, insert_fill_idempotent, fill_row_of,
  create_hedge_idempotent, hedge_row_of, mark_hedging, mark_filled, mark_partial,
  apply_signed_delta,
}
use highgarden.Hedger.Walk.{place, walk_book, WalkInput, WalkResult, step_price}

abbrev pub side_from : ℕ → Side
side_from raw = if raw == 0 then buy else sell

abbrev pub outcome_from : ℕ → Outcome
outcome_from raw = if raw == 0 then yes_outcome else no_outcome

abbrev pub token_for : MarketMetadata → Outcome → ℕ
token_for m yes_outcome = m.yes_token_id
token_for m no_outcome = m.no_token_id

unfoldable pub pick_direction : ℕ → ℕ → MarketMetadata → HedgeDirection
pick_direction solana_side solana_outcome m = record {
  token_id = token_for m (outcome_from solana_outcome);
  polymarket_side = side_from solana_side;
  outcome = outcome_from solana_outcome;
}

-- In whole dollars.
unfoldable pub notional_usd : ℕ → ℕ → ℕ
notional_usd price_cents shares = round_div (price_cents * shares) 100

unfoldable pub signed_notional_usd : ℕ → ℕ → Side → ℤ
signed_notional_usd price_cents shares buy = pos (notional_usd price_cents shares)
signed_notional_usd price_cents shares sell = neg (pos (notional_usd price_cents shares))

unfoldable pub is_terminal : HedgeStatus → Bool
is_terminal filled = true
is_terminal partial = true
is_terminal failed = true
is_terminal _ = false

unfoldable pub lookup_user : HedgeServices → ℕ → HedgeCall ℕ
lookup_user sv pubkey = do user ← find_by_custodial_pubkey sv pubkey; or_throw user retryable

unfoldable pub lookup_market : HedgeServices → ℕ → HedgeCall MarketMetadata
lookup_market sv pda = do market ← find_by_pda sv pda; or_throw market retryable

unfoldable pub upsert_fill : HedgeServices → HedgeJob → ℕ → ℕ → HedgeCall FillRow
upsert_fill sv job user_id market_id =
    insert_fill_idempotent sv job.nonce
      (λ id. fill_row_of id job user_id market_id (side_from job.side) (outcome_from job.outcome))

unfoldable pub upsert_hedge :
    HedgeServices → HedgeJob → HedgeDirection → FillRow → HedgeCall HedgeRow
upsert_hedge sv job direction fill =
    create_hedge_idempotent sv fill.id (λ id. hedge_row_of id fill.id job.nonce direction fill.size)

unfoldable pub resolve_context : HedgeServices → HedgeJob → HedgeCall ResolvedContext
resolve_context sv job = do
  user ← lookup_user sv job.user
  market ← lookup_market sv job.market
  fill ← upsert_fill sv job user market.id
  hedge ← upsert_hedge sv job (pick_direction job.side job.outcome market) fill
  pure (record {
    user = user;
    market = market;
    fill = fill;
    hedge = hedge;
    direction = pick_direction job.side job.outcome market;
  })

abbrev pub target_of : Side → BookTop → ℕ → ℕ
target_of buy top price = or_else top.best_ask_cents price
target_of sell top price = or_else top.best_bid_cents price

unfoldable pub target_price_cents : HedgeServices → ResolvedContext → HedgeCall ℕ
target_price_cents sv ctx = do
  top ← or_throw (sv.top_of_book ctx.direction.token_id) unexpected
  pure (target_of ctx.direction.polymarket_side top ctx.fill.price)

-- What was filled comes off the exposure that the fill put on it.
unfoldable pub settle_exposure_of : HedgeServices → ResolvedContext → ℕ → HedgeCall (Unit {0})
settle_exposure_of sv ctx shares =
    apply_signed_delta sv settle_exposure ctx.market.id
      (neg (signed_notional_usd ctx.fill.price shares ctx.fill.side))

unfoldable pub finalize_filled :
    HedgeServices → ResolvedContext → OrderResult → HedgeCall HedgeResult
finalize_filled sv ctx result = do
  mark_filled sv ctx.hedge.id (or_else result.polymarket_order_id unknown_text) result.filled_shares
      (or_else result.avg_price_cents ctx.fill.price)
  settle_exposure_of sv ctx result.filled_shares
  pure (job_filled result.filled_shares result.avg_price_cents result.polymarket_order_id)

unfoldable pub combined_avg : ℕ → Option ℕ → ℕ → Option ℕ → Option ℕ
combined_avg a_filled a_avg b_filled b_avg =
    if a_filled + b_filled == 0
    then none
    else some
        (round_div (or_else a_avg 0 * a_filled + or_else b_avg 0 * b_filled) (a_filled + b_filled))

abbrev pub or_initial : Option ℕ → Option ℕ → Option ℕ
or_initial none initial = initial
or_initial (some i) initial = some i

-- `finalize_partial` once the walk is over.
unfoldable pub finalize_walk :
    HedgeServices → ResolvedContext → OrderResult → WalkResult → HedgeCall HedgeResult
finalize_walk sv ctx initial walk =
    let total_filled = initial.filled_shares + walk.total_filled_shares in
    let avg =
      combined_avg initial.filled_shares initial.avg_price_cents walk.total_filled_shares
        walk.weighted_avg_price_cents in
    let order_id = or_initial walk.last_order_id initial.polymarket_order_id in
    if leb ctx.fill.size total_filled
    then (mark_filled sv ctx.hedge.id (or_else order_id unknown_text) total_filled
          (or_else avg ctx.fill.price)
        >> (settle_exposure_of sv ctx total_filled >> pure (job_filled total_filled avg none)))
    else (mark_partial sv ctx.hedge.id order_id total_filled avg
        >> ((if ltb 0 total_filled then settle_exposure_of sv ctx total_filled else pure tt)
            >> pure (job_partial total_filled avg)))

abbrev pub walk_input : ResolvedContext → OrderResult → ℕ → WalkInput
walk_input ctx initial target_price = record {
  token_id = ctx.direction.token_id;
  side = ctx.direction.polymarket_side;
  remaining_shares = ctx.fill.size - initial.filled_shares;
  initial_price_cents = step_price ctx.direction.polymarket_side (pos target_price);
  tick_size = ctx.market.tick_size;
  neg_risk = ctx.market.neg_risk;
  client_order_id_base = ctx.hedge.client_order_id;
}

unfoldable pub finalize_partial :
    HedgeServices → ResolvedContext → OrderResult → ℕ → HedgeCall HedgeResult
finalize_partial sv ctx initial target_price = do
  end' ← walk_book sv (walk_input ctx initial target_price)
  walk ← or_throw end' unexpected
  finalize_walk sv ctx initial walk

abbrev pub initial_order_of : ResolvedContext → ℕ → HedgeOrder
initial_order_of ctx target_price = record {
  token_id = ctx.direction.token_id;
  side = ctx.direction.polymarket_side;
  size_shares = ctx.fill.size;
  price_cents = pos target_price;
  tick_size = ctx.market.tick_size;
  neg_risk = ctx.market.neg_risk;
  client_order_id = initial_order ctx.hedge.client_order_id;
}

abbrev pub finalize :
    HedgeServices → ResolvedContext → OrderResult → ℕ → Bool → HedgeCall HedgeResult
finalize sv ctx initial target_price true = finalize_filled sv ctx initial
finalize sv ctx initial target_price false = finalize_partial sv ctx initial target_price

unfoldable pub execute_hedge : HedgeServices → ResolvedContext → HedgeCall HedgeResult
execute_hedge sv ctx = do
  target_price ← target_price_cents sv ctx
  initial ← place sv (initial_order_of ctx target_price)
  finalize sv ctx initial target_price initial.fully_filled

abbrev pub add_exposure_at_first : HedgeServices → ResolvedContext → Bool → HedgeCall (Unit {0})
add_exposure_at_first sv ctx true =
    apply_signed_delta sv add_exposure ctx.market.id
      (signed_notional_usd ctx.fill.price ctx.fill.size ctx.fill.side)
add_exposure_at_first sv ctx false = pure tt

-- `handle` on a hedge that is not terminal.
unfoldable pub attempt : HedgeServices → HedgeJob → ResolvedContext → HedgeCall HedgeResult
attempt sv job ctx = do
  mark_hedging sv ctx.hedge.id (suc job.attempts_made)
  add_exposure_at_first sv ctx (job.attempts_made == 0)
  execute_hedge sv ctx

abbrev pub unless_terminal :
    HedgeServices → HedgeJob → ResolvedContext → Bool → HedgeCall HedgeResult
unless_terminal sv job ctx true = pure (job_skipped ctx.hedge.status)
unless_terminal sv job ctx false = attempt sv job ctx

unfoldable pub handle : HedgeServices → HedgeJob → HedgeCall HedgeResult
unfolding is_terminal
handle sv job = do
  ctx ← resolve_context sv job
  unless_terminal sv job ctx (is_terminal ctx.hedge.status)
