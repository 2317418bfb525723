-- ===== src/Resolution/Listings.antt =====
-- A tick reads its rows and then goes over them: what holds of the rows that apps/hedger/db/resolver.ts lists.
use highgarden.Base.{
  both_hold, ℕ, ◌≡◌, refl, sym, subst, inl, inr, Bool, true, ◌&&◌, not, Option, none, some, is_some,
  List, [], ◌∷◌,
}
use highgarden.Call.{Reply, ok, err, ◌>>=◌}
use highgarden.Call.Frame.{Reply-cases, bind-value, bind-throw}
use highgarden.Resolution.{
  ResolverStage, pending, polymarket_resolved, solana_resolved, redeemed, ResolverStateRow,
  Resolution, ResolutionFailure, ResolutionCall, ResolutionServices, untouched, for_each,
}
use highgarden.Resolution.Table.{
  Listed, is_at_polymarket_resolved, is_at_solana_resolved, select_rows, is_awaiting_solana,
  is_awaiting_redemption, due_rows, keep_due, list_awaiting_redemption,
  list_polymarket_resolved_pending_solana, list_awaiting_solana_submission,
}
use highgarden.Resolution.Stages.{InStages, ask_then, ask_alone}
use highgarden.Resolution.Loops.{
  AreDistinctIds, AreCurrent, StaysLocal, for_each-InStages, select_rows-AreCurrent,
  due_rows-AreCurrent,
}

-- What the two listings pick.
abbrev pub IsUnsigned : ResolverStateRow → Type 0
IsUnsigned r = (r.stage ≡ polymarket_resolved) × (r.solana_resolve_tx_sig ≡ none)

abbrev pub IsAtSolana : ResolverStateRow → Type 0
IsAtSolana r = r.stage ≡ solana_resolved

unset : (o : Option ℕ) → not (is_some o) ≡ true → o ≡ none
unset none h = refl
unset (some t) h = cc

-- The rows that were read are of this kind and in the table.
abbrev pub IsListing :
    ResolutionServices
    → (ResolverStateRow → Type 0)
    → Reply ResolutionFailure (List Listed) × Resolution
    → Type 0
IsListing sv Q (ok xs, w) = InStages sv w × AreCurrent Q w.states xs
IsListing sv Q (err e, w) = InStages sv w

at_polymarket :
    (stage : ResolverStage) → is_at_polymarket_resolved stage ≡ true → stage ≡ polymarket_resolved
at_polymarket polymarket_resolved h = refl
at_polymarket pending h = cc
at_polymarket solana_resolved h = cc
at_polymarket redeemed h = cc

at_solana : (stage : ResolverStage) → is_at_solana_resolved stage ≡ true → stage ≡ solana_resolved
at_solana solana_resolved h = refl
at_solana pending h = cc
at_solana polymarket_resolved h = cc
at_solana redeemed h = cc

awaiting_solana_stage : (r : ResolverStateRow) → is_awaiting_solana r ≡ true → IsUnsigned r
awaiting_solana_stage r h =
    let (at, fresh) =
      both_hold (is_at_polymarket_resolved r.stage) (not (is_some r.solana_resolve_tx_sig)) h in
    (at_polymarket r.stage at, unset r.solana_resolve_tx_sig fresh)

awaiting_redemption_stage :
    (r : ResolverStateRow) → is_awaiting_redemption r ≡ true → r.stage ≡ solana_resolved
awaiting_redemption_stage r h =
    at_solana r.stage
      ((both_hold (is_at_solana_resolved r.stage) (not (is_some r.polymarket_redeem_tx_hash)) h).0)

module _ (sv : ResolutionServices) (distinct : AreDistinctIds sv.market_ids) where
  keep_due-IsListing :
      (cutoff : ℕ) (xs : List Listed) (w : Resolution)
      → InStages sv w
      → AreCurrent IsUnsigned w.states xs
      → IsListing sv IsUnsigned (keep_due sv cutoff xs w)
  keep_due-IsListing cutoff [] w rows current = (rows, tt)
  keep_due-IsListing cutoff (x ∷ xs) w rows current =
      ask_alone (IsListing sv IsUnsigned) sv (λ w. due_rows sv cutoff (x ∷ xs)) untouched w
        (rows, due_rows-AreCurrent sv cutoff IsUnsigned w.states (x ∷ xs) current) rows

  pub list_awaiting_solana-IsListing :
      (cutoff : ℕ) (w : Resolution)
      → InStages sv w
      → IsListing sv IsUnsigned (list_awaiting_solana_submission sv cutoff w)
  unfolding list_awaiting_solana_submission
  list_awaiting_solana-IsListing cutoff w rows =
      let p : ResolverStateRow → Bool = λ r. is_awaiting_solana r && is_some r.winning_outcome in
      ask_then (IsListing sv IsUnsigned) sv (λ w. select_rows p w.states sv.market_ids) untouched
        (keep_due sv cutoff) w
        (keep_due-IsListing cutoff (select_rows p w.states sv.market_ids) _ rows (
          select_rows-AreCurrent p w.states IsUnsigned
            (λ r h.
              awaiting_solana_stage r
                ((both_hold (is_awaiting_solana r) (is_some r.winning_outcome) h).0))
            sv.market_ids distinct))
        rows

  pub list_pending_solana-IsListing :
      (w : Resolution)
      → InStages sv w
      → IsListing sv IsUnsigned (list_polymarket_resolved_pending_solana sv w)
  unfolding list_polymarket_resolved_pending_solana
  list_pending_solana-IsListing w rows =
      ask_alone (IsListing sv IsUnsigned) sv
        (λ w. select_rows is_awaiting_solana w.states sv.market_ids) untouched w
        (
          rows,
          select_rows-AreCurrent is_awaiting_solana w.states IsUnsigned awaiting_solana_stage
              sv.market_ids distinct,
        )
        rows

  pub list_awaiting_redemption-IsListing :
      (w : Resolution) → InStages sv w → IsListing sv IsAtSolana (list_awaiting_redemption sv w)
  unfolding list_awaiting_redemption
  list_awaiting_redemption-IsListing w rows =
      ask_alone (IsListing sv IsAtSolana) sv
        (λ w. select_rows is_awaiting_redemption w.states sv.market_ids) untouched w
        (
          rows,
          select_rows-AreCurrent is_awaiting_redemption w.states IsAtSolana
              awaiting_redemption_stage sv.market_ids distinct,
        )
        rows

pub listed_loop-InStages :
    (sv : ResolutionServices) (Q : ResolverStateRow → Type 0) (read : ResolutionCall (List Listed))
    (f : Listed → ResolutionCall (Unit {0}))
    → ((x : Listed) (w : Resolution)
        → w.states x.0 ≡ some x.1
        → Q x.1
        → InStages sv w
        → InStages sv (f x w).1)
    → ((x : Listed) → StaysLocal x.0 (f x))
    → (w : Resolution) → IsListing sv Q (read w)
    → InStages sv ((read >>= for_each f) w).1
listed_loop-InStages sv Q read f keeps local w h =
    let P : Reply ResolutionFailure (Unit {0}) × Resolution → Type 0 = λ r. InStages sv r.1 in
    let at : Reply ResolutionFailure (List Listed) → Type 0 = λ r. IsListing sv Q (r, (read w).1) in
    elim (Reply-cases (read w).0) [
      | inl (xs, e) ↦
          let (rows, current) = subst at e h in
          subst P (sym (bind-value read (for_each f) w e))
            (for_each-InStages sv Q f keeps local xs (read w).1 current rows)
      | inr (x, e) ↦ subst P (sym (bind-throw read (for_each f) w e)) (subst at e h)
    ]
