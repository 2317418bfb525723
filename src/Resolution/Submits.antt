-- ===== src/Resolution/Submits.antt =====
-- The second stage of apps/hedger/resolver/index.ts keeps the rows as their stages say: `resolve_market`, and what is
-- written once the client gives its signature.
use highgarden.Resolution.Landing.{
  forwarded-RowOk, gets_then, in_flight, in_flight-InStages, resolve_then,
}
use highgarden.Base.{ℕ, ◌-◌, ◌*◌, ◌≡◌, refl, sym, subst, inl, inr, Bool-cases, Option, none, some}
use highgarden.Call.{Reply, pure, gets, ◌>>=◌}
use highgarden.Database.{Outcome}
use highgarden.Resolution.{
  polymarket_resolved, ResolverStateRow, Resolution, ResolutionFailure, ResolutionCall,
  ResolutionServices, ask, untouched, for_each, pda_of, resolve_market,
}
use highgarden.Resolution.Table.{
  changed, forwarded, record_solana_resolved, Listed, list_awaiting_solana_submission,
}
use highgarden.Resolution.Resolver.{submit_to, submit_one, submit_solana_for_resolved}
use highgarden.Resolution.Stages.{
  HasStage, RowOk, InStages, counted, ask_then, Keeps, branch-Keeps, update_state-InStages,
}
use highgarden.Resolution.Listings.{
  IsUnsigned, listed_loop-InStages, list_awaiting_solana-IsListing,
}
use highgarden.Resolution.Loops.{
  AreDistinctIds, StaysLocal, bind-StaysLocal, read-StaysLocal, update_state-StaysLocal,
}

abbrev Done : Type 0
Done = Reply ResolutionFailure (Unit {0}) × Resolution

module _ (sv : ResolutionServices) where
  submit_to-InStages :
      (id : ℕ) (r : ResolverStateRow) (w : Resolution) (pda : Option ℕ) (winner : Option Outcome)
      → w.states id ≡ some r
      → IsUnsigned r
      → InStages sv w
      → pda_of (sv.markets id) ≡ pda
      → r.winning_outcome ≡ winner
      → InStages sv (submit_to sv id pda winner w).1
  submit_to-InStages id r w none winner at is rows e f = rows
  submit_to-InStages id r w (some p) none at is rows e f = rows
  submit_to-InStages id r w (some p) (some o) at is rows e f =
      let P : Done → Type 0 = λ d. InStages sv d.1 in
      let row : HasStage w.sent (pda_of (sv.markets id)) polymarket_resolved r =
        subst (λ st. HasStage w.sent (pda_of (sv.markets id)) st r) is.0
          (subst (RowOk w.sent (pda_of (sv.markets id))) at (rows id)) in
      let sig = sv.signature w.calls in
      resolve_then P sv p o
        (λ sig. gets (λ w. sv.now w.calls) >>= λ now. record_solana_resolved sv id sig now) w
        (λ sub.
          let v = in_flight sv p o w sub in
          gets_then P (λ w. sv.now w.calls) (λ now. record_solana_resolved sv id sig now) v
            (update_state-InStages sv id (forwarded sig (sv.now v.calls)) v
              (subst
                (λ s.
                  RowOk v.sent (pda_of (sv.markets id))
                    (changed (forwarded sig (sv.now v.calls)) s))
                (sym at)
                (forwarded-RowOk w.sent p o (pda_of (sv.markets id)) sig (sv.now v.calls) r e f
                  row))
              (in_flight-InStages sv p o w sub rows)))
        (λ sub. in_flight-InStages sv p o w sub rows) rows

  submit_one-InStages :
      (x : Listed) (w : Resolution)
      → w.states x.0 ≡ some x.1
      → IsUnsigned x.1
      → InStages sv w
      → InStages sv (submit_one sv x w).1
  unfolding submit_one
  submit_one-InStages (id, r) w at is rows =
      ask_then (λ (d : Done). InStages sv d.1) sv (λ w. sv.markets id) untouched
        (λ m. submit_to sv id (pda_of m) r.winning_outcome) w
        (submit_to-InStages id r (counted w) (pda_of (sv.markets id)) r.winning_outcome at is rows
          refl refl)
        rows

  resolve_market-StaysLocal : (id p : ℕ) (o : Outcome) → StaysLocal id (resolve_market sv p o)
  unfolding resolve_market
  resolve_market-StaysLocal id p o w y d = elim (Bool-cases (sv.up w.calls)) [
    | inl e ↦ rw e refl
    | inr e ↦ rw e refl
  ]

  submit_to-StaysLocal :
      (id : ℕ) (pda : Option ℕ) (winner : Option Outcome)
      → StaysLocal id (submit_to sv id pda winner)
  submit_to-StaysLocal id none winner w y d = refl
  submit_to-StaysLocal id (some p) none w y d = refl
  submit_to-StaysLocal id (some p) (some o) w y d =
      bind-StaysLocal id (resolve_market sv p o)
        (λ sig. gets (λ w. sv.now w.calls) >>= λ now. record_solana_resolved sv id sig now)
        (resolve_market-StaysLocal id p o)
        (λ sig.
          bind-StaysLocal id (gets (λ w. sv.now w.calls))
            (λ now. record_solana_resolved sv id sig now) (λ w y d. refl)
            (λ now. update_state-StaysLocal id sv (forwarded sig now)))
        w y d

  submit_one-StaysLocal : (x : Listed) → StaysLocal x.0 (submit_one sv x)
  unfolding submit_one
  submit_one-StaysLocal (id, r) =
      bind-StaysLocal id (ask sv (λ w. sv.markets id) untouched)
        (λ m. submit_to sv id (pda_of m) r.winning_outcome)
        (read-StaysLocal id sv (λ w. sv.markets id))
        (λ m. submit_to-StaysLocal id (pda_of m) r.winning_outcome)

  pub submit-Keeps : AreDistinctIds sv.market_ids → Keeps sv (submit_solana_for_resolved sv)
  unfolding submit_solana_for_resolved
  submit-Keeps distinct =
      let P : Done → Type 0 = λ d. InStages sv d.1 in
      let cutoff : Resolution → ℕ = λ w. sv.now w.calls - sv.dispute_window_hours * 3_600_000 in
      let send : ℕ → ResolutionCall (Unit {0}) =
        λ c. list_awaiting_solana_submission sv c >>= for_each (submit_one sv) in
      branch-Keeps sv sv.oracle_configured (gets cutoff >>= send) (pure tt)
        (λ w rows. gets_then P cutoff send w (
          listed_loop-InStages sv IsUnsigned (list_awaiting_solana_submission sv (cutoff w))
            (submit_one sv) submit_one-InStages submit_one-StaysLocal w
            (list_awaiting_solana-IsListing sv distinct (cutoff w) w rows)))
        (λ w rows. rows)
