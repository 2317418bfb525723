-- ===== src/Resolution/Rechecks.antt =====
-- A tick of apps/hedger/reconcile/index.ts keeps the rows as their stages say.
use highgarden.Base.{
  ℕ, ◌≡◌, refl, sym, subst, inl, inr, Bool, true, false, Bool-cases, Option, none, some,
  if◌then◌else◌,
}
use highgarden.Call.{Reply, pure}
use highgarden.Resolution.{
  ResolverStateRow, MarketInfo, GammaResolution, Resolution, ResolutionFailure, ResolutionCall,
  ResolutionServices, ask, untouched, outcome_of_index, pda_of,
}
use highgarden.Resolution.Table.{changed, reverted, Listed, list_polymarket_resolved_pending_solana}
use highgarden.Resolution.Reconciler.{
  is_flip, recheck_winner, recheck_resolution, recheck_market, recheck_one,
  detect_uma_dispute_reversal, reconciler_tick,
}
use highgarden.Resolution.Stages.{
  IsTraced, HasStage, RowOk, InStages, counted, ask_then, Keeps, catch-Keeps, update_state-InStages,
}
use highgarden.Resolution.Listings.{IsUnsigned, listed_loop-InStages, list_pending_solana-IsListing}
use highgarden.Resolution.Loops.{
  AreDistinctIds, StaysLocal, bind-StaysLocal, read-StaysLocal, update_state-StaysLocal,
}

none_or_some : (o : Option ℕ) (s : ℕ) → o ≡ none → o ≡ some s → ⊥
none_or_some o s h k = cc

-- Without a signature, there is no redemption.
unredeemed :
    (r : ResolverStateRow)
    → r.solana_resolve_tx_sig ≡ none
    → IsTraced r
    → r.polymarket_redeem_tx_hash ≡ none
unredeemed r h (inl (_, tx)) = tx
unredeemed r h (inr (sig, e)) = absurd (none_or_some r.solana_resolve_tx_sig sig h e)

module _ (sv : ResolutionServices) where
  abbrev AtRow : Listed → Resolution → ResolutionCall (Unit {0}) → Type 0
  AtRow x w m = w.states x.0 ≡ some x.1 → IsUnsigned x.1 → InStages sv w → InStages sv (m w).1

  recheck_winner-AtRow :
      (x : Listed) (w : Resolution) (index : Option ℕ) → AtRow x w (recheck_winner sv x index)
  recheck_winner-AtRow (id, r) w none at is rows =
      let pda = pda_of (sv.markets id) in
      let (_, _, traced) =
        subst (λ st. HasStage w.sent pda st r) is.0 (subst (RowOk w.sent pda) at (rows id)) in
      update_state-InStages sv id reverted w
        (subst (λ s. RowOk w.sent pda (changed reverted s)) (sym at)
          (refl, refl, is.1, unredeemed r is.1 traced))
        rows
  recheck_winner-AtRow (id, r) w (some index) at is rows =
      let pda = pda_of (sv.markets id) in
      let o = outcome_of_index index in
      let set : ResolverStateRow → ResolverStateRow = λ r. record r { winning_outcome = some o } in
      let (time, _, traced) =
        subst (λ st. HasStage w.sent pda st r) is.0 (subst (RowOk w.sent pda) at (rows id)) in
      elim (Bool-cases (is_flip r.winning_outcome o)) [
        | inr same ↦ rw same rows
        | inl flip ↦ rw flip (
            update_state-InStages sv id set w
              (subst (λ s. RowOk w.sent pda (changed set s)) (sym at)
                (subst (λ st. HasStage w.sent pda st (set r)) (sym is.0) (time, (o, refl), traced)))
              rows)
      ]

  recheck_market-AtRow :
      (x : Listed) (w : Resolution) (m : Option MarketInfo) → AtRow x w (recheck_market sv x m)
  recheck_market-AtRow x w none at is rows = rows
  recheck_market-AtRow x w (some m) at is rows =
      let read : Resolution → Option GammaResolution =
        λ w. sv.fetch_resolution w.calls m.poly_market_id in
      ask_then (λ (d : Reply ResolutionFailure (Unit {0}) × Resolution). InStages sv d.1) sv read
        untouched (recheck_resolution sv x) w (on_reply (read (counted w))) rows
    where
      on_reply :
          (g : Option GammaResolution) → InStages sv (recheck_resolution sv x g (counted w)).1
      on_reply none = rows
      on_reply (some g) =
          recheck_winner-AtRow x (counted w) (if g.closed then g.winning_outcome_index else none) at
            is rows

  recheck_one-AtRow : (x : Listed) (w : Resolution) → AtRow x w (recheck_one sv x)
  unfolding recheck_one
  recheck_one-AtRow (id, r) w at is rows =
      ask_then (λ (d : Reply ResolutionFailure (Unit {0}) × Resolution). InStages sv d.1) sv
        (λ w. sv.markets id) untouched (recheck_market sv (id, r)) w
        (recheck_market-AtRow (id, r) (counted w) (sv.markets id) at is rows) rows

  recheck_winner-StaysLocal :
      (x : Listed) (index : Option ℕ) → StaysLocal x.0 (recheck_winner sv x index)
  recheck_winner-StaysLocal (id, r) none = update_state-StaysLocal id sv reverted
  recheck_winner-StaysLocal (id, r) (some index) =
      let o = outcome_of_index index in
      either (is_flip r.winning_outcome o) _
        (update_state-StaysLocal id sv (λ r. record r { winning_outcome = some o }))
    where
      either :
          (b : Bool) (m : ResolutionCall (Unit {0}))
          → StaysLocal id m
          → StaysLocal id (if b then m else pure tt)
      either true m h = h
      either false m h = λ w y d. refl

  recheck_market-StaysLocal :
      (x : Listed) (m : Option MarketInfo) → StaysLocal x.0 (recheck_market sv x m)
  recheck_market-StaysLocal x none = λ w y d. refl
  recheck_market-StaysLocal x (some m) =
      bind-StaysLocal x.0 (ask sv (λ w. sv.fetch_resolution w.calls m.poly_market_id) untouched)
        (recheck_resolution sv x)
        (read-StaysLocal x.0 sv (λ w. sv.fetch_resolution w.calls m.poly_market_id)) on_reply
    where
      on_reply : (g : Option GammaResolution) → StaysLocal x.0 (recheck_resolution sv x g)
      on_reply none = λ w y d. refl
      on_reply (some g) =
          recheck_winner-StaysLocal x (if g.closed then g.winning_outcome_index else none)

  recheck_one-StaysLocal : (x : Listed) → StaysLocal x.0 (recheck_one sv x)
  unfolding recheck_one
  recheck_one-StaysLocal (id, r) =
      bind-StaysLocal id (ask sv (λ w. sv.markets id) untouched) (recheck_market sv (id, r))
        (read-StaysLocal id sv (λ w. sv.markets id)) (recheck_market-StaysLocal (id, r))

  pub reconciler_tick-Keeps : AreDistinctIds sv.market_ids → Keeps sv (reconciler_tick sv)
  unfolding reconciler_tick detect_uma_dispute_reversal
  reconciler_tick-Keeps distinct =
      catch-Keeps sv (detect_uma_dispute_reversal sv) (λ e. pure tt)
        (λ w rows.
          listed_loop-InStages sv IsUnsigned (list_polymarket_resolved_pending_solana sv)
            (recheck_one sv) recheck_one-AtRow recheck_one-StaysLocal w
            (list_pending_solana-IsListing sv distinct w rows))
        (λ e w rows. rows)
