-- ===== src/Resolution/MarketStatus.antt =====
-- `MarketStatusPoller` of apps/hedger/market-status/poller.ts: the market's status follows Polymarket, and a fast-moving
-- market is resolved on Solana at once.
use highgarden.Base.{
  ℕ, Bool, true, false, not, ◌&&◌, Option, none, some, is_some, or_else, List, [], ◌∷◌, ◌==◌,
  if◌then◌else◌,
}
use highgarden.Call.{pure, gets, catch, ◌>>=◌, ◌>>◌}
use highgarden.Database.{Outcome, outcome_eq}
use highgarden.Resolution.{
  MarketInfo, ListingStatus, open_listing, paused_listing, resolved_listing, MarketState,
  GammaResolution, Resolution, ResolutionCall, ResolutionServices, ask, untouched, for_each,
  outcome_of_index, resolve_market,
}
use highgarden.Resolution.Table.{record_polymarket_resolved, record_solana_resolved, is_fast}

-- "UMA_DISPUTE"
abbrev pub reason_uma_dispute : ℕ
reason_uma_dispute = 1

abbrev pub is_resolved : ListingStatus → Bool
is_resolved resolved_listing = true
is_resolved _ = false

abbrev pub is_paused : ListingStatus → Bool
is_paused paused_listing = true
is_paused _ = false

abbrev pub is_reason : Option ℕ → ℕ → Bool
is_reason none t = false
is_reason (some s) t = s == t

abbrev pub is_winner : Option Outcome → Outcome → Bool
is_winner none o = false
is_winner (some p) o = outcome_eq p o

-- The market, as listed at the start of a tick.
pub record CandidateMarket : Type 0 where
  pub id : ℕ
  pub info : MarketInfo
  pub state : MarketState

abbrev pub is_terminal_market : MarketState → Bool
is_terminal_market m = is_resolved m.status && is_some m.winning_outcome

abbrev pub is_candidate_market : MarketInfo → MarketState → Bool
is_candidate_market m s = is_some m.solana_market_pda && m.approved && not (is_terminal_market s)

abbrev pub candidates : ResolutionServices → (ℕ → MarketState) → List ℕ → List CandidateMarket
candidates sv states [] = []
candidates sv states (id ∷ ids) =
    let rest = candidates sv states ids in
    elim (sv.markets id) [
      | none ↦ rest
      | some m ↦
          if is_candidate_market m (states id)
          then record { id = id; info = m; state = states id } ∷ rest
          else rest
    ]

unfoldable pub list_candidates : ResolutionServices → ResolutionCall (List CandidateMarket)
list_candidates sv = ask sv (λ w. candidates sv w.market_states sv.market_ids) untouched

unfoldable pub target_resolved : MarketState → ℕ → ℕ → Option ℕ → Option MarketState
target_resolved current now index resolved_at =
    let outcome = outcome_of_index index in
    if is_resolved current.status
      && is_winner current.winning_outcome outcome
      && not (is_some current.paused_reason)
    then none
    else some (record {
      status = resolved_listing;
      winning_outcome = some outcome;
      resolved_at = some (or_else resolved_at now);
      paused_reason = none;
    })

abbrev pub is_uma_paused : MarketState → Bool
is_uma_paused current =
    is_paused current.status && is_reason current.paused_reason reason_uma_dispute

unfoldable pub target_uma_paused : MarketState → Option MarketState
target_uma_paused current =
    if is_uma_paused current
    then none
    else some (record {
      status = paused_listing;
      winning_outcome = none;
      resolved_at = none;
      paused_reason = some reason_uma_dispute;
    })

unfoldable pub target_reopen : MarketState → Option MarketState
target_reopen current =
    if is_uma_paused current
    then some (record {
      status = open_listing;
      winning_outcome = none;
      resolved_at = none;
      paused_reason = none;
    })
    else none

abbrev pub target_closed : MarketState → ℕ → Option ℕ → Option ℕ → Option MarketState
target_closed current now (some index) resolved_at = target_resolved current now index resolved_at
target_closed current now none resolved_at = target_uma_paused current

unfoldable pub compute_target : MarketState → ℕ → GammaResolution → Option MarketState
compute_target current now g =
    if g.closed
    then target_closed current now g.winning_outcome_index g.resolved_at
    else target_reopen current

abbrev pub put_market : ℕ → MarketState → Resolution → Resolution
put_market id s w = record w { market_states = λ y. if y == id then s else w.market_states y }

-- Best effort: it never throws.
unfoldable pub publish_resolved :
    ResolutionServices → ℕ → Outcome → ℕ → Bool → ResolutionCall (Unit {0})
publish_resolved sv id outcome at claimable =
    catch
      (ask sv (λ w. tt)
        (λ w. record w {
          published =
              record {
                market_id = id;
                winning_outcome = outcome;
                resolved_at = at;
                claimable = claimable;
              }
              ∷ w.published;
        }))
      (λ e. pure tt)

-- What it throws is only logged.
unfoldable pub submit_fast : ResolutionServices → ℕ → ℕ → Outcome → ℕ → ResolutionCall (Unit {0})
submit_fast sv id pda outcome at =
    catch
      (resolve_market sv pda outcome >>= λ sig.
        (gets (λ w. sv.now w.calls) >>= λ now.
        (record_polymarket_resolved sv id outcome at
          >> record_solana_resolved sv id sig now
          >> publish_resolved sv id outcome at true)))
      (λ e. pure tt)

abbrev pub fast_path :
    ResolutionServices → ℕ → MarketInfo → Option ℕ → Outcome → ℕ → ResolutionCall (Unit {0})
fast_path sv id m none winner at = pure tt
fast_path sv id m (some pda) winner at =
    if is_fast (some m) && sv.oracle_configured then submit_fast sv id pda winner at else pure tt

abbrev pub after_resolved :
    ResolutionServices → ℕ → MarketInfo → Option Outcome → Option ℕ → ResolutionCall (Unit {0})
after_resolved sv id m (some winner) (some at) =
    publish_resolved sv id winner at false >> fast_path sv id m m.solana_market_pda winner at
after_resolved sv id m _ _ = pure tt

-- `update`, of a market that is there; where it is resolved, what follows.
unfoldable pub apply_target :
    ResolutionServices → CandidateMarket → MarketState → ResolutionCall (Unit {0})
apply_target sv c t =
    ask sv (λ w. tt) (put_market c.id t)
    >> (if is_resolved t.status
        then after_resolved sv c.id c.info t.winning_outcome t.resolved_at
        else pure tt)

abbrev pub apply_if :
    ResolutionServices → CandidateMarket → Option MarketState → ResolutionCall (Unit {0})
apply_if sv c none = pure tt
apply_if sv c (some t) = apply_target sv c t

abbrev pub mirror :
    ResolutionServices → CandidateMarket → Option GammaResolution → ResolutionCall (Unit {0})
mirror sv c none = pure tt
mirror sv c (some g) =
    gets (λ w. sv.now w.calls) >>= λ now. apply_if sv c (compute_target c.state now g)

unfoldable pub check_market : ResolutionServices → CandidateMarket → ResolutionCall (Unit {0})
check_market sv c =
    ask sv (λ w. sv.fetch_resolution w.calls c.info.poly_market_id) untouched >>= mirror sv c

unfoldable pub status_tick : ResolutionServices → ResolutionCall (Unit {0})
status_tick sv = catch (list_candidates sv >>= for_each (check_market sv)) (λ e. pure tt)
