-- ===== src/Resolution/Reconciler.antt =====
-- `Reconciler` of apps/hedger/reconcile/index.ts: Polymarket is asked again until Solana has the outcome. Its other part
-- only logs.
use highgarden.Base.{ℕ, Bool, false, not, Option, none, some, if◌then◌else◌}
use highgarden.Call.{pure, catch, ◌>>=◌}
use highgarden.Database.{Outcome, outcome_eq}
use highgarden.Resolution.{
  MarketInfo, GammaResolution, ResolutionCall, ResolutionServices, ask, untouched, for_each,
  outcome_of_index,
}
use highgarden.Resolution.Table.{
  revert_to_pending, update_winning_outcome, Listed, list_polymarket_resolved_pending_solana,
}

-- prior_outcome && live_outcome !== prior_outcome
abbrev pub is_flip : Option Outcome → Outcome → Bool
is_flip none live = false
is_flip (some prior) live = not (outcome_eq live prior)

abbrev pub recheck_winner : ResolutionServices → Listed → Option ℕ → ResolutionCall (Unit {0})
recheck_winner sv (id, row) none = revert_to_pending sv id
recheck_winner sv (id, row) (some index) =
    if is_flip row.winning_outcome (outcome_of_index index)
    then update_winning_outcome sv id (outcome_of_index index)
    else pure tt

abbrev pub recheck_resolution :
    ResolutionServices → Listed → Option GammaResolution → ResolutionCall (Unit {0})
recheck_resolution sv x none = pure tt
recheck_resolution sv x (some g) =
    recheck_winner sv x (if g.closed then g.winning_outcome_index else none)

abbrev pub recheck_market :
    ResolutionServices → Listed → Option MarketInfo → ResolutionCall (Unit {0})
recheck_market sv x none = pure tt
recheck_market sv x (some m) =
    ask sv (λ w. sv.fetch_resolution w.calls m.poly_market_id) untouched >>= recheck_resolution sv x

unfoldable pub recheck_one : ResolutionServices → Listed → ResolutionCall (Unit {0})
recheck_one sv (id, row) = ask sv (λ w. sv.markets id) untouched >>= recheck_market sv (id, row)

unfoldable pub detect_uma_dispute_reversal : ResolutionServices → ResolutionCall (Unit {0})
detect_uma_dispute_reversal sv =
    list_polymarket_resolved_pending_solana sv >>= for_each (recheck_one sv)

unfoldable pub reconciler_tick : ResolutionServices → ResolutionCall (Unit {0})
reconciler_tick sv = catch (detect_uma_dispute_reversal sv) (λ e. pure tt)
