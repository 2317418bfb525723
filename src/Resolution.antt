-- ===== src/Resolution.antt =====
-- How a market's resolution goes from Polymarket to Solana and back to Polygon: the table of apps/hedger/db/resolver.ts,
-- which apps/hedger/resolver, apps/hedger/reconcile and apps/hedger/market-status share.
--
-- The tables are functions of the market's id. What Polymarket, Solana and the clock answer, and which calls fail, are
-- arguments, by the number of the call. One tick runs at a time.
pub mod Table
pub mod Resolver
pub mod Reconciler
pub mod MarketStatus
pub mod Stages
pub mod Loops
mod Listings
mod Detects
mod Landing
mod Submits
mod Redeems
mod Rechecks
mod Mirrors
pub mod Staged
pub mod Adds
pub mod Window
pub mod Settled
use highgarden.Base.{
  ℕ, suc, Bool, true, false, not, ◌&&◌, ◌||◌, Option, none, some, is_some, or_else, List, [], ◌∷◌,
  ◌==◌, leb, if◌then◌else◌,
}
use highgarden.Call.{ok, err, Call, pure, gets, throw_if, catch, ◌>>=◌, ◌>>◌}
use highgarden.Database.{Outcome, yes_outcome, no_outcome}

pub data ResolverStage : Type 0 where
  pending polymarket_resolved solana_resolved redeemed : ResolverStage

pub data ResolverNote : Type 0 where
  redeem_skipped_neg_risk redeem_skipped_no_condition_id : ResolverNote

pub record ResolverStateRow : Type 0 where
  pub stage : ResolverStage
  pub polymarket_resolved_at : Option ℕ
  pub winning_outcome : Option Outcome
  pub solana_resolve_tx_sig : Option ℕ
  pub solana_resolved_at : Option ℕ
  pub polymarket_redeemed_at : Option ℕ
  pub polymarket_redeem_tx_hash : Option ℕ
  pub notes : Option ResolverNote

-- The schema's defaults.
abbrev pub new_row : ResolverStateRow
new_row = record {
  stage = pending;
  polymarket_resolved_at = none;
  winning_outcome = none;
  solana_resolve_tx_sig = none;
  solana_resolved_at = none;
  polymarket_redeemed_at = none;
  polymarket_redeem_tx_hash = none;
  notes = none;
}

pub data MarketKind : Type 0 where
  standard fast_moving : MarketKind

-- What of a market does not change.
pub record MarketInfo : Type 0 where
  pub poly_market_id : ℕ
  pub solana_market_pda : Option ℕ
  pub kind : MarketKind
  pub approved : Bool

pub data ListingStatus : Type 0 where
  open_listing paused_listing resolved_listing cancelled_listing : ListingStatus

-- What the market-status poller writes.
pub record MarketState : Type 0 where
  pub status : ListingStatus
  pub winning_outcome : Option Outcome
  pub resolved_at : Option ℕ
  pub paused_reason : Option ℕ

pub record GammaResolution : Type 0 where
  pub closed : Bool
  pub winning_outcome_index : Option ℕ
  pub resolved_at : Option ℕ

pub data RedeemOutcome : Type 0 where
  submitted_redeem : ℕ → RedeemOutcome
  skipped_neg_risk skipped_no_condition_id skipped_not_resolved : RedeemOutcome

-- A `resolve_market` that was sent to Solana, with the signature it got.
pub record SentResolve : Type 0 where
  pub market_pda : ℕ
  pub outcome : Outcome
  pub signature : ℕ

-- One that went through there.
pub record Submission : Type 0 where
  pub market_pda : ℕ
  pub outcome : Outcome

pub record Lifecycle : Type 0 where
  pub market_id : ℕ
  pub winning_outcome : Outcome
  pub resolved_at : ℕ
  pub claimable : Bool

pub record Resolution : Type 0 where
  pub states : ℕ → Option ResolverStateRow
  pub market_states : ℕ → MarketState
  pub sent : List SentResolve
  pub submitted : List Submission
  pub redemptions : List ℕ
  pub published : List Lifecycle
  pub calls : ℕ

pub data ResolutionFailure : Type 0 where
  call_failed no_row not_sent unconfirmed : ResolutionFailure

abbrev pub ResolutionCall : Type 0 → Type 0
ResolutionCall A = Call Resolution ResolutionFailure A

pub record ResolutionServices : Type 0 where
  pub up : ℕ → Bool
  pub now : ℕ → ℕ
  pub market_ids : List ℕ
  pub markets : ℕ → Option MarketInfo
  pub fetch_resolution : ℕ → ℕ → Option GammaResolution
  pub redeem_positions : ℕ → ℕ → RedeemOutcome
  pub lands : ℕ → Bool
  pub confirms : ℕ → Bool
  pub signature : ℕ → ℕ
  pub oracle_configured : Bool
  pub redeem_configured : Bool
  pub dispute_window_hours : ℕ

-- A call that reads and writes, or fails.
unfoldable pub ask :
    {A : Type 0}
    → ResolutionServices
    → (Resolution → A)
    → (Resolution → Resolution)
    → ResolutionCall A
ask sv read write w =
    let w' = record w { calls = suc w.calls } in
    if sv.up w.calls then (ok (read w'), write w') else (err call_failed, w')

abbrev pub untouched : Resolution → Resolution
untouched w = w

-- What a loop over rows does: what one of them throws is only logged.
unfoldable pub for_each :
    {A : Type 0} → (A → ResolutionCall (Unit {0})) → List A → ResolutionCall (Unit {0})
for_each f [] = pure tt
for_each f (x ∷ xs) = catch (f x) (λ e. pure tt) >> for_each f xs

abbrev pub outcome_of_index : ℕ → Outcome
outcome_of_index i = if i == 0 then yes_outcome else no_outcome

abbrev pub pda_of : Option MarketInfo → Option ℕ
pda_of none = none
pda_of (some m) = m.solana_market_pda

abbrev pub was_resolved : ℕ → List Submission → Bool
was_resolved pda [] = false
was_resolved pda (s ∷ ss) = (s.market_pda == pda) || was_resolved pda ss

-- What Solana has after a transaction: the program takes one only for a market that is open.
abbrev pub arrived : ResolutionServices → ℕ → Outcome → Resolution → List Submission
arrived sv pda outcome w =
    if sv.lands w.calls && not (was_resolved pda w.submitted)
    then record { market_pda = pda; outcome = outcome } ∷ w.submitted
    else w.submitted

-- The client's `resolveMarket`. What was sent may be lost or refused on Solana, and the client may or may not give its
-- signature, whichever became of it: it does not look at the error that the confirmation carries.
unfoldable pub resolve_market : ResolutionServices → ℕ → Outcome → ResolutionCall ℕ
resolve_market sv pda outcome w =
    let sig = sv.signature w.calls in
    let w' = record w { calls = suc w.calls } in
    if sv.up w.calls
    then (
      if sv.confirms w.calls then ok sig else err unconfirmed,
      record w' {
        sent = record { market_pda = pda; outcome = outcome; signature = sig } ∷ w.sent;
        submitted = arrived sv pda outcome w;
      },
    )
    else (err not_sent, w')
