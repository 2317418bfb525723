-- ===== src/Resolution/Resolver.antt =====
-- `Resolver` of apps/hedger/resolver/index.ts: detect on Polymarket, submit on Solana, redeem on Polygon.
use highgarden.Base.{
  ℕ, Bool, true, false, Option, none, some, is_some, or_else, List, [], ◌∷◌, ◌-◌, ◌*◌,
  if◌then◌else◌,
}
use highgarden.Call.{pure, gets, catch, ◌>>=◌, ◌>>◌}
use highgarden.Database.{Outcome}
use highgarden.Resolution.{
  ResolverStage, pending, redeem_skipped_neg_risk, redeem_skipped_no_condition_id, ResolverStateRow,
  MarketInfo, GammaResolution, RedeemOutcome, submitted_redeem, skipped_neg_risk,
  skipped_no_condition_id, skipped_not_resolved, Resolution, ResolutionCall, ResolutionServices,
  ask, untouched, for_each, outcome_of_index, pda_of, resolve_market,
}
use highgarden.Resolution.Table.{
  find_row, record_polymarket_resolved, record_solana_resolved, record_redeemed, append_note,
  Listed, list_awaiting_redemption, list_awaiting_solana_submission,
}

abbrev pub is_terminal_stage : Option ResolverStateRow → Bool
is_terminal_stage none = false
is_terminal_stage (some r) = not_pending r.stage
  where
    not_pending : ResolverStage → Bool
    not_pending pending = false
    not_pending _ = true

abbrev pub Candidate : Type 0
Candidate = ℕ × MarketInfo

-- `Market.list_with_pda`: those with a PDA.
abbrev pub with_pda : ResolutionServices → List ℕ → List Candidate
with_pda sv [] = []
with_pda sv (id ∷ ids) =
    let rest = with_pda sv ids in
    elim (sv.markets id) [
      | none ↦ rest
      | some m ↦ if is_some m.solana_market_pda then (id, m) ∷ rest else rest
    ]

abbrev pub not_terminal : ResolutionServices → List Candidate → ResolutionCall (List Candidate)
not_terminal sv [] = pure []
not_terminal sv (c ∷ cs) = find_row sv c.0 >>= λ state.
    (not_terminal sv cs >>= λ rest. pure (if is_terminal_stage state then rest else c ∷ rest))

unfoldable pub list_pending_candidates : ResolutionServices → ResolutionCall (List Candidate)
list_pending_candidates sv = ask sv (λ w. with_pda sv sv.market_ids) untouched >>= not_terminal sv

abbrev pub has_resolved_at : Option ResolverStateRow → Bool
has_resolved_at none = false
has_resolved_at (some r) = is_some r.polymarket_resolved_at

unfoldable pub record_resolution : ResolutionServices → ℕ → ℕ → Option ℕ → ResolutionCall (Unit {0})
record_resolution sv id index resolved_at = do
  now ← gets (λ w. sv.now w.calls)
  existing ← find_row sv id
  if has_resolved_at existing
      then pure tt
      else record_polymarket_resolved sv id (outcome_of_index index) (or_else resolved_at now)

abbrev pub on_winner : ResolutionServices → ℕ → Option ℕ → Option ℕ → ResolutionCall (Unit {0})
on_winner sv id none resolved_at = pure tt
on_winner sv id (some index) resolved_at = record_resolution sv id index resolved_at

abbrev pub on_resolution :
    ResolutionServices → ℕ → Option GammaResolution → ResolutionCall (Unit {0})
on_resolution sv id none = pure tt
on_resolution sv id (some g) =
    if g.closed then on_winner sv id g.winning_outcome_index g.resolved_at else pure tt

unfoldable pub check_candidate : ResolutionServices → Candidate → ResolutionCall (Unit {0})
check_candidate sv (id, m) =
    ask sv (λ w. sv.fetch_resolution w.calls m.poly_market_id) untouched >>= on_resolution sv id

unfoldable pub detect_polymarket_resolutions : ResolutionServices → ResolutionCall (Unit {0})
detect_polymarket_resolutions sv = list_pending_candidates sv >>= for_each (check_candidate sv)

abbrev pub submit_to :
    ResolutionServices → ℕ → Option ℕ → Option Outcome → ResolutionCall (Unit {0})
submit_to sv id none winner = pure tt
submit_to sv id (some pda) none = pure tt
submit_to sv id (some pda) (some outcome) = resolve_market sv pda outcome >>= λ sig.
    (gets (λ w. sv.now w.calls) >>= λ now. record_solana_resolved sv id sig now)

-- `Market.get_summary_by_id`
abbrev pub get_summary_by_id : ResolutionServices → ℕ → ResolutionCall (Option MarketInfo)
get_summary_by_id sv id = ask sv (λ w. sv.markets id) untouched

unfoldable pub submit_one : ResolutionServices → Listed → ResolutionCall (Unit {0})
submit_one sv (id, row) =
    get_summary_by_id sv id >>= λ market. submit_to sv id (pda_of market) row.winning_outcome

unfoldable pub submit_solana_for_resolved : ResolutionServices → ResolutionCall (Unit {0})
submit_solana_for_resolved sv =
    if sv.oracle_configured
    then (gets (λ w. sv.now w.calls - sv.dispute_window_hours * 3_600_000) >>= λ cutoff.
        (list_awaiting_solana_submission sv cutoff >>= for_each (submit_one sv)))
    else pure tt

unfoldable pub handle_redeem_outcome :
    ResolutionServices → ℕ → RedeemOutcome → ResolutionCall (Unit {0})
handle_redeem_outcome sv id (submitted_redeem tx) =
    gets (λ w. sv.now w.calls) >>= λ now. record_redeemed sv id tx now
handle_redeem_outcome sv id skipped_neg_risk = append_note sv id redeem_skipped_neg_risk
handle_redeem_outcome sv id skipped_no_condition_id =
    append_note sv id redeem_skipped_no_condition_id
handle_redeem_outcome sv id skipped_not_resolved = pure tt

abbrev pub redemption : ℕ → RedeemOutcome → Resolution → Resolution
redemption m (submitted_redeem tx) w = record w { redemptions = m ∷ w.redemptions }
redemption m _ w = w

abbrev pub redeem_market : ResolutionServices → ℕ → Option MarketInfo → ResolutionCall (Unit {0})
redeem_market sv id none = pure tt
redeem_market sv id (some m) =
    ask sv (λ w. sv.redeem_positions w.calls m.poly_market_id)
      (λ w. redemption m.poly_market_id (sv.redeem_positions w.calls m.poly_market_id) w)
    >>= handle_redeem_outcome sv id

unfoldable pub redeem_one : ResolutionServices → Listed → ResolutionCall (Unit {0})
redeem_one sv (id, row) = get_summary_by_id sv id >>= redeem_market sv id

unfoldable pub redeem_polygon_for_resolved : ResolutionServices → ResolutionCall (Unit {0})
redeem_polygon_for_resolved sv =
    if sv.redeem_configured
    then (list_awaiting_redemption sv >>= for_each (redeem_one sv))
    else pure tt

unfoldable pub resolver_tick : ResolutionServices → ResolutionCall (Unit {0})
resolver_tick sv =
    catch
      (detect_polymarket_resolutions sv
        >> submit_solana_for_resolved sv
        >> redeem_polygon_for_resolved sv)
      (λ e. pure tt)
