-- ===== src/Examples/Resolution.antt =====
-- A fast-moving market that Polymarket has closed for YES: apps/hedger/resolver and its neighbours.
use highgarden.Base.{
  ◌-◌, ◌*◌, ◌≡◌, refl, true, false, Option, none, some, [], ◌∷◌, ◌==◌, if◌then◌else◌,
}
use highgarden.Call.{◌>>=◌, catch}
use highgarden.Database.{yes_outcome}
use highgarden.Resolution.{
  ResolverStage, redeemed, ResolverStateRow, MarketInfo, MarketState, fast_moving, open_listing,
  paused_listing, GammaResolution, submitted_redeem, Resolution, ResolutionServices, ask, for_each,
  resolve_market,
}
use highgarden.Resolution.Table.{
  update_state, upsert_state, list_awaiting_redemption, list_awaiting_solana_submission,
}
use highgarden.Resolution.Resolver.{
  list_pending_candidates, record_resolution, check_candidate, detect_polymarket_resolutions,
  submit_one, submit_solana_for_resolved, handle_redeem_outcome, redeem_one,
  redeem_polygon_for_resolved, resolver_tick,
}
use highgarden.Resolution.MarketStatus.{compute_target, target_uma_paused}
use highgarden.Resolution.Settled.{compute_target_settles}
use highgarden.Resolution.Stages.{InStages}
use highgarden.Resolution.Staged.{
  resolver_ticks, reconciler_ticks, status_ticks, resolution_run, resolution_run-InStages,
}
use highgarden.Resolution.Window.{IsAllowed, submit_solana-Adds}
use highgarden.Resolution.Adds.{Adds}

abbrev market : MarketInfo
market = record {
  poly_market_id = 11;
  solana_market_pda = some 12;
  kind = fast_moving;
  approved = true;
}

abbrev sv : ResolutionServices
sv = record {
  up = λ k. true;
  now = λ k. 900_000_000;
  market_ids = 10 ∷ [];
  markets = λ id. if id == 10 then some market else none;
  fetch_resolution = λ k m.
      some
        (record { closed = true; winning_outcome_index = some 0; resolved_at = some 800_000_000 });
  redeem_positions = λ k m. submitted_redeem 55;
  lands = λ k. true;
  confirms = λ k. true;
  signature = λ k. 44;
  oracle_configured = true;
  redeem_configured = true;
  dispute_window_hours = 2;
}

abbrev nothing_known : Resolution
nothing_known = record {
  states = λ id. none;
  market_states = λ id. record {
    status = open_listing;
    winning_outcome = none;
    resolved_at = none;
    paused_reason = none;
  };
  sent = [];
  submitted = [];
  redemptions = [];
  published = [];
  calls = 0;
}

abbrev stage_of : Option ResolverStateRow → Option ResolverStage
stage_of none = none
stage_of (some r) = some r.stage

abbrev after_tick : Resolution
after_tick = (resolver_tick sv nothing_known).1

one_tick_redeems : stage_of (after_tick.states 10) ≡ some redeemed
unfolding resolver_tick detect_polymarket_resolutions list_pending_candidates check_candidate
    record_resolution submit_solana_for_resolved list_awaiting_solana_submission submit_one
    redeem_polygon_for_resolved list_awaiting_redemption redeem_one handle_redeem_outcome for_each
    ask update_state upsert_state resolve_market ◌>>=◌ catch
one_tick_redeems = refl

one_tick_submits : after_tick.submitted ≡ record { market_pda = 12; outcome = yes_outcome } ∷ []
unfolding resolver_tick detect_polymarket_resolutions list_pending_candidates check_candidate
    record_resolution submit_solana_for_resolved list_awaiting_solana_submission submit_one
    redeem_polygon_for_resolved list_awaiting_redemption redeem_one handle_redeem_outcome for_each
    ask update_state upsert_state resolve_market ◌>>=◌ catch
one_tick_submits = refl

-- Solana refuses the transaction, and the client gives its signature all the same.
abbrev refused : Resolution
refused = (resolver_tick (record sv { lands = λ k. false }) nothing_known).1

refused_goes_on : stage_of (refused.states 10) ≡ some redeemed
unfolding resolver_tick detect_polymarket_resolutions list_pending_candidates check_candidate
    record_resolution submit_solana_for_resolved list_awaiting_solana_submission submit_one
    redeem_polygon_for_resolved list_awaiting_redemption redeem_one handle_redeem_outcome for_each
    ask update_state upsert_state resolve_market ◌>>=◌ catch
refused_goes_on = refl

refused_lands_nothing : refused.submitted ≡ []
unfolding resolver_tick detect_polymarket_resolutions list_pending_candidates check_candidate
    record_resolution submit_solana_for_resolved list_awaiting_solana_submission submit_one
    redeem_polygon_for_resolved list_awaiting_redemption redeem_one handle_redeem_outcome for_each
    ask update_state upsert_state resolve_market ◌>>=◌ catch
refused_lands_nothing = refl

resolution_run-InStages_example :
    InStages sv
      (resolution_run sv (status_ticks ∷ reconciler_ticks ∷ resolver_ticks ∷ []) nothing_known)
resolution_run-InStages_example =
    resolution_run-InStages sv (tt, tt) (status_ticks ∷ reconciler_ticks ∷ resolver_ticks ∷ [])
      nothing_known (λ id. tt)

abbrev detected_only : Resolution
detected_only = (detect_polymarket_resolutions sv nothing_known).1

submit_solana-Adds_example :
    Adds
      (IsAllowed sv detected_only.states
        (sv.now detected_only.calls - sv.dispute_window_hours * 3_600_000))
      detected_only
      (submit_solana_for_resolved sv detected_only).1
submit_solana-Adds_example = submit_solana-Adds sv detected_only

abbrev disputed : GammaResolution
disputed = record { closed = true; winning_outcome_index = none; resolved_at = none }

abbrev uma_paused : MarketState
uma_paused = record {
  status = paused_listing;
  winning_outcome = none;
  resolved_at = none;
  paused_reason = some 1;
}

was_written : compute_target (nothing_known.market_states 10) 900_000_000 disputed ≡ some uma_paused
unfolding compute_target target_uma_paused
was_written = refl

compute_target_settles_example : compute_target uma_paused 950_000_000 disputed ≡ none
compute_target_settles_example =
    compute_target_settles (nothing_known.market_states 10) uma_paused 900_000_000 950_000_000
      disputed was_written
