-- ===== src/Resolution/Settled.antt =====
-- A market's status is written once for each answer of gamma: `compute_target` of apps/hedger/market-status/poller.ts.
use highgarden.Base.{
  ℕ, ◌≡◌, refl, subst, Bool, true, false, Option, none, some, is_some, ◌&&◌, not, if◌then◌else◌,
}
use highgarden.Database.{Outcome, yes_outcome, no_outcome, outcome_eq}
use highgarden.Resolution.{MarketState, GammaResolution, outcome_of_index}
use highgarden.Resolution.MarketStatus.{
  is_resolved, is_winner, is_uma_paused, target_resolved, target_uma_paused, target_reopen,
  target_closed, compute_target,
}

same_outcome : (o : Outcome) → outcome_eq o o ≡ true
same_outcome yes_outcome = refl
same_outcome no_outcome = refl

-- What is written where the target is set up as `made` unless a test holds.
written :
    (b : Bool) (made t : MarketState)
    → ◌≡◌ {A = Option MarketState} (if b then none else some made) (some t)
    → made ≡ t
written true made t h = cc
written false made t h = cc

written_if :
    (b : Bool) (made t : MarketState)
    → ◌≡◌ {A = Option MarketState} (if b then some made else none) (some t)
    → made ≡ t
written_if true made t h = cc
written_if false made t h = cc

closed_settles :
    (s t : MarketState) (now later : ℕ) (winner resolved_at : Option ℕ)
    → target_closed s now winner resolved_at ≡ some t
    → target_closed t later winner resolved_at ≡ none
unfolding target_resolved target_uma_paused
closed_settles s t now later none resolved_at h =
    subst (λ t. target_closed t later none resolved_at ≡ none) (written (is_uma_paused s) _ t h)
      refl
closed_settles s t now later (some index) resolved_at h =
    subst (λ t. target_closed t later (some index) resolved_at ≡ none)
      (written
        (is_resolved s.status
          && is_winner s.winning_outcome (outcome_of_index index)
          && not (is_some s.paused_reason))
        _ t h)
      (rw (same_outcome (outcome_of_index index)) refl)

-- Once the status of a market has been written for an answer of gamma, the same answer asks for no other write,
-- whenever it comes: a closed market with a winner, a closed one without, and one that is open again.
pub compute_target_settles :
    (s t : MarketState) (now later : ℕ) (g : GammaResolution)
    → compute_target s now g ≡ some t
    → compute_target t later g ≡ none
unfolding compute_target target_reopen
compute_target_settles s t now later g h = go g.closed h
  where
    go :
        (closed : Bool)
        → (if closed
            then target_closed s now g.winning_outcome_index g.resolved_at
            else target_reopen s)
          ≡ some t
        → (if closed
            then target_closed t later g.winning_outcome_index g.resolved_at
            else target_reopen t)
          ≡ none
    go true h = closed_settles s t now later g.winning_outcome_index g.resolved_at h
    go false h = subst (λ t. target_reopen t ≡ none) (written_if (is_uma_paused s) _ t h) refl
