-- ===== src/Examples/Hedger.antt =====
-- The hedger at the market of the examples: apps/hedger/hedger/processor.ts.
use highgarden.Base.{
  ℕ, suc, ◌≤◌, ◌≡◌, ◌≢◌, refl, ◌⊎◌, true, false, none, some, List, [], ◌∷◌, arith,
}
use highgarden.Base.Int.{pos, ◌+ℤ◌}
use highgarden.Base.Round.{round_div}
use highgarden.Database.{buy, QuoteRow, yes_outcome}
use highgarden.Call.{Reply, ok, ◌>>=◌}
use highgarden.Trade.{OrderResult}
use highgarden.Hedger.{
  Tables, HedgeServices, HedgeOrder, HedgeJob, HedgeResult, job_filled, job_skipped, HedgeFailure,
  WalkInput, WalkResult, walk_book, handle, resolve_context, is_terminal, hedger_id,
  ResolvedContext, walk_loop, max_price, price_outside_budget, merge_walk_result, step_price, place,
  lookup_user, find_by_custodial_pubkey, lookup_market, find_by_pda, upsert_fill,
  insert_fill_idempotent, find_by_nonce, upsert_hedge, create_hedge_idempotent, find_by_fill_id,
  pick_direction, attempt, update_hedge, apply_signed_delta, execute_hedge, target_price_cents,
  finalize_filled, settle_exposure_of,
}
use highgarden.Hedger.WalkBounds.{walk_book-Walked, Walked}
use highgarden.Hedger.WalkFill.{walk_book_filled, NoOverfill}
use highgarden.Hedger.Delta.{Moved}
use highgarden.Hedger.Settling.{added, taken_off}
use highgarden.Hedger.Conservation.{handle_exposure}
use highgarden.Hedger.Once.{handled_once}
use highgarden.Hedger.Tracked.{Settled}
use highgarden.Examples.{market_one, user_one, book}

abbrev quote_one : QuoteRow
quote_one = record {
  nonce = 80;
  market_id = 10;
  side = buy;
  outcome = yes_outcome;
  price = 47;
  size = 10;
  expires_at = 9_000_000;
  consumed = true;
}

abbrev tables : Tables
tables = record {
  users = user_one ∷ [];
  markets = market_one ∷ [];
  quotes = quote_one ∷ [];
  fills = [];
  hedges = [];
  exposures = [];
  orders = [];
  next_id = 100;
}

-- Polymarket fills every order in full at 45 cents.
abbrev whole : List HedgeOrder → HedgeOrder → Reply HedgeFailure OrderResult
whole sent o = ok (record {
  polymarket_order_id = some 90;
  filled_shares = o.size_shares;
  avg_price_cents = some 45;
  fully_filled = true;
})

abbrev services : HedgeServices
services = record {
  slippage_limit_cents = 3;
  query_up = λ q. true;
  rival_fills = λ fs. fs;
  rival_hedges = λ hs. hs;
  top_of_book = λ t. some book;
  place_market_order = whole;
}

abbrev job : ℕ → HedgeJob
job attempts = record {
  attempts_made = attempts;
  user = 21;
  market = 12;
  side = 0;
  outcome = 0;
  size = 10;
  price = 47;
  nonce = 80;
  signature = 81;
}

abbrev input : WalkInput
input = record {
  token_id = 71;
  side = buy;
  remaining_shares = 10;
  initial_price_cents = pos 46;
  tick_size = 1;
  neg_risk = false;
  client_order_id_base = some (hedger_id 80);
}

walk_book-Walked_example :
    ((walk_book services input tables).0 ≢ ok none)
    × Walked 3 input (suc 3) tables (walk_book services input tables).1
walk_book-Walked_example = walk_book-Walked services input tables

whole-NoOverfill : NoOverfill services
whole-NoOverfill sent o r h = ground arith

abbrev all_ten : WalkResult
all_ten = record {
  total_filled_shares = 10;
  weighted_avg_price_cents = some 45;
  last_order_id = some 90;
  slippage_budget_exhausted = false;
  attempts = 1;
}

walk_book_filled_example : all_ten.total_filled_shares ≤ 10
unfolding walk_book walk_loop max_price price_outside_budget merge_walk_result step_price place
    round_div ◌>>=◌ ◌+ℤ◌
walk_book_filled_example = walk_book_filled services input tables all_ten whole-NoOverfill refl

abbrev done : HedgeResult
done = job_filled 10 (some 45) (some 90)

handle_exposure_example :
    (ctx : ResolvedContext) × ((resolve_context services (job 0) tables).0 ≡ ok ctx)
    × (((is_terminal ctx.hedge.status ≡ true)
          × (done ≡ job_skipped ctx.hedge.status)
          × ((handle services (job 0) tables).1.exposures ≡ []))
        ⊎ ((is_terminal ctx.hedge.status ≡ false)
            × Moved ctx.market.id
                (added services ctx true +ℤ taken_off ctx done)
                tables
                (handle services (job 0) tables).1))
unfolding handle resolve_context lookup_user find_by_custodial_pubkey lookup_market find_by_pda
    upsert_fill insert_fill_idempotent find_by_nonce upsert_hedge create_hedge_idempotent
    find_by_fill_id pick_direction is_terminal attempt update_hedge apply_signed_delta execute_hedge
    target_price_cents place finalize_filled settle_exposure_of ◌>>=◌
handle_exposure_example = handle_exposure services (job 0) tables done refl

handled_once_example :
    Settled 80 (handle services (job 0) tables).1
    × ((handle services (job 1) (handle services (job 0) tables).1).1.orders
        ≡ (handle services (job 0) tables).1.orders)
unfolding handle resolve_context lookup_user find_by_custodial_pubkey lookup_market find_by_pda
    upsert_fill insert_fill_idempotent find_by_nonce upsert_hedge create_hedge_idempotent
    find_by_fill_id pick_direction is_terminal attempt update_hedge apply_signed_delta execute_hedge
    target_price_cents place finalize_filled settle_exposure_of ◌>>=◌
handled_once_example = handled_once services (job 0) tables done services (job 1) refl refl
