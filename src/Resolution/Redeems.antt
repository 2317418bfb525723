-- ===== src/Resolution/Redeems.antt =====
-- The third stage of apps/hedger/resolver/index.ts, and the whole tick.
use highgarden.Base.{ℕ, ◌≡◌, refl, sym, ap, subst, ◌∙◌, Option, none, some, or_else, List}
use highgarden.Call.{Reply, pure, gets, ◌>>=◌, ◌>>◌}
use highgarden.Resolution.{
  ResolverStage, pending, polymarket_resolved, solana_resolved, redeemed, ResolverNote,
  redeem_skipped_neg_risk, redeem_skipped_no_condition_id, ResolverStateRow, new_row, MarketInfo,
  RedeemOutcome, submitted_redeem, skipped_neg_risk, skipped_no_condition_id, skipped_not_resolved,
  SentResolve, Resolution, ResolutionFailure, ResolutionServices, ask, untouched, for_each, pda_of,
}
use highgarden.Resolution.Table.{
  put_state, changed, upsert_state, redeemed_by, record_redeemed, append_note, Listed,
  list_awaiting_redemption,
}
use highgarden.Resolution.Resolver.{
  handle_redeem_outcome, redemption, redeem_market, redeem_one, redeem_polygon_for_resolved,
  detect_polymarket_resolutions, submit_solana_for_resolved, resolver_tick,
}
use highgarden.Resolution.Stages.{
  HasStage, RowOk, InStages, counted, ask_then, ask_alone, Keeps, bind-Keeps, branch-Keeps,
  catch-Keeps, update_state-InStages, upsert_state-InStages,
}
use highgarden.Resolution.Listings.{
  IsAtSolana, listed_loop-InStages, list_awaiting_redemption-IsListing,
}
use highgarden.Resolution.Loops.{
  AreDistinctIds, IsLocal, StaysLocal, bind-StaysLocal, read-StaysLocal, put_state-IsLocal,
  update_state-StaysLocal,
}
use highgarden.Resolution.Detects.{detect-Keeps}
use highgarden.Resolution.Submits.{submit-Keeps}
use highgarden.Resolution.Landing.{gets_then}

abbrev Done : Type 0
Done = Reply ResolutionFailure (Unit {0}) × Resolution

noted-HasStage :
    (sub : List SentResolve) (pda : Option ℕ) (stage : ResolverStage) (n : ResolverNote)
    (r : ResolverStateRow)
    → HasStage sub pda stage r
    → HasStage sub pda stage (record r { notes = some n })
noted-HasStage sub pda pending n r h = h
noted-HasStage sub pda polymarket_resolved n r h = h
noted-HasStage sub pda solana_resolved n r h = h
noted-HasStage sub pda redeemed n r h = h

-- A note changes no stage.
noted-RowOk :
    (sub : List SentResolve) (pda : Option ℕ) (n : ResolverNote) (o : Option ResolverStateRow)
    → RowOk sub pda o
    → RowOk sub pda (some (record (or_else o new_row) { notes = some n }))
noted-RowOk sub pda n none h = (refl, refl, refl, refl)
noted-RowOk sub pda n (some r) h = noted-HasStage sub pda r.stage n r h

module _ (sv : ResolutionServices) where
  append_note-Keeps : (id : ℕ) (n : ResolverNote) → Keeps sv (append_note sv id n)
  append_note-Keeps id n w rows =
      upsert_state-InStages sv id (λ r. record r { notes = some n }) w
        (noted-RowOk w.sent (pda_of (sv.markets id)) n (w.states id) (rows id)) rows

  append_note-StaysLocal : (id : ℕ) (n : ResolverNote) → StaysLocal id (append_note sv id n)
  unfolding upsert_state
  append_note-StaysLocal id n w =
      ask_alone (λ (d : Done). IsLocal id w d.1) sv (λ w. tt)
        (λ w. put_state id (some (record (or_else (w.states id) new_row) { notes = some n })) w) w
        (put_state-IsLocal id (some (record (or_else (w.states id) new_row) { notes = some n })) w)
        (λ y d. refl)

  handle_redeem_outcome-InStages :
      (id : ℕ) (r : ResolverStateRow) (w : Resolution) (out : RedeemOutcome)
      → w.states id ≡ some r
      → r.stage ≡ solana_resolved
      → InStages sv w
      → InStages sv (handle_redeem_outcome sv id out w).1
  unfolding handle_redeem_outcome
  handle_redeem_outcome-InStages id r w (submitted_redeem tx) at is rows =
      let pda = pda_of (sv.markets id) in
      let now = sv.now w.calls in
      let row : HasStage w.sent pda solana_resolved r =
        subst (λ st. HasStage w.sent pda st r) is (subst (RowOk w.sent pda) at (rows id)) in
      gets_then (λ (d : Done). InStages sv d.1) (λ w. sv.now w.calls)
        (λ now. record_redeemed sv id tx now) w
        (update_state-InStages sv id (redeemed_by tx now) w
          (subst (λ s. RowOk w.sent pda (changed (redeemed_by tx now) s)) (sym at)
            (row, (tx, refl)))
          rows)
  handle_redeem_outcome-InStages id r w skipped_neg_risk at is rows =
      append_note-Keeps id redeem_skipped_neg_risk w rows
  handle_redeem_outcome-InStages id r w skipped_no_condition_id at is rows =
      append_note-Keeps id redeem_skipped_no_condition_id w rows
  handle_redeem_outcome-InStages id r w skipped_not_resolved at is rows = rows

  handle_redeem_outcome-StaysLocal :
      (id : ℕ) (out : RedeemOutcome) → StaysLocal id (handle_redeem_outcome sv id out)
  unfolding handle_redeem_outcome
  handle_redeem_outcome-StaysLocal id (submitted_redeem tx) w =
      bind-StaysLocal id (gets (λ w. sv.now w.calls)) (λ now. record_redeemed sv id tx now)
        (λ w y d. refl) (λ now. update_state-StaysLocal id sv (redeemed_by tx now)) w
  handle_redeem_outcome-StaysLocal id skipped_neg_risk w =
      append_note-StaysLocal id redeem_skipped_neg_risk w
  handle_redeem_outcome-StaysLocal id skipped_no_condition_id w =
      append_note-StaysLocal id redeem_skipped_no_condition_id w
  handle_redeem_outcome-StaysLocal id skipped_not_resolved w = λ y d. refl

  -- A redemption is noted beside the tables.
  redemption_states :
      (m : ℕ) (out : RedeemOutcome) (w : Resolution)
      → ((redemption m out w).states ≡ w.states) × ((redemption m out w).sent ≡ w.sent)
  redemption_states m (submitted_redeem tx) w = (refl, refl)
  redemption_states m skipped_neg_risk w = (refl, refl)
  redemption_states m skipped_no_condition_id w = (refl, refl)
  redemption_states m skipped_not_resolved w = (refl, refl)

  redeem_market-InStages :
      (id : ℕ) (r : ResolverStateRow) (w : Resolution) (m : Option MarketInfo)
      → w.states id ≡ some r
      → r.stage ≡ solana_resolved
      → InStages sv w
      → InStages sv (redeem_market sv id m w).1
  redeem_market-InStages id r w none at is rows = rows
  redeem_market-InStages id r w (some m) at is rows =
      let read : Resolution → RedeemOutcome = λ w. sv.redeem_positions w.calls m.poly_market_id in
      let out = read (counted w) in
      let v = redemption m.poly_market_id out (counted w) in
      let (same, same') = redemption_states m.poly_market_id out (counted w) in
      let rows' : InStages sv v = λ y.
        subst (λ sub. RowOk sub (pda_of (sv.markets y)) (v.states y)) (sym same')
          (subst (λ (st : ℕ → Option ResolverStateRow). RowOk w.sent (pda_of (sv.markets y)) (st y))
            (sym same) (rows y)) in
      ask_then (λ (d : Done). InStages sv d.1) sv read (λ w. redemption m.poly_market_id (read w) w)
        (handle_redeem_outcome sv id) w
        (handle_redeem_outcome-InStages id r v out
          (ap (λ (st : ℕ → Option ResolverStateRow). st id) same ∙ at) is rows')
        rows

  redeem_market-StaysLocal :
      (id : ℕ) (m : Option MarketInfo) → StaysLocal id (redeem_market sv id m)
  redeem_market-StaysLocal id none w = λ y d. refl
  redeem_market-StaysLocal id (some m) w =
      let read : Resolution → RedeemOutcome = λ w. sv.redeem_positions w.calls m.poly_market_id in
      let write : Resolution → Resolution = λ w. redemption m.poly_market_id (read w) w in
      bind-StaysLocal id (ask sv read write) (handle_redeem_outcome sv id)
        (λ w.
          ask_alone (λ r. IsLocal id w r.1) sv read write w
            (λ y d.
              ap (λ (st : ℕ → Option ResolverStateRow). st y)
                (redemption_states m.poly_market_id (read (counted w)) (counted w)).0)
            (λ y d. refl))
        (handle_redeem_outcome-StaysLocal id) w

  redeem_one-InStages :
      (x : Listed) (w : Resolution)
      → w.states x.0 ≡ some x.1
      → x.1.stage ≡ solana_resolved
      → InStages sv w
      → InStages sv (redeem_one sv x w).1
  unfolding redeem_one
  redeem_one-InStages (id, r) w at is rows =
      ask_then (λ (d : Done). InStages sv d.1) sv (λ w. sv.markets id) untouched
        (redeem_market sv id) w (redeem_market-InStages id r (counted w) (sv.markets id) at is rows)
        rows

  redeem_one-StaysLocal : (x : Listed) → StaysLocal x.0 (redeem_one sv x)
  unfolding redeem_one
  redeem_one-StaysLocal (id, r) =
      bind-StaysLocal id (ask sv (λ w. sv.markets id) untouched) (redeem_market sv id)
        (read-StaysLocal id sv (λ w. sv.markets id)) (redeem_market-StaysLocal id)

  redeem-Keeps : AreDistinctIds sv.market_ids → Keeps sv (redeem_polygon_for_resolved sv)
  unfolding redeem_polygon_for_resolved
  redeem-Keeps distinct =
      branch-Keeps sv sv.redeem_configured
        (list_awaiting_redemption sv >>= for_each (redeem_one sv)) (pure tt)
        (λ w rows.
          listed_loop-InStages sv IsAtSolana (list_awaiting_redemption sv) (redeem_one sv)
            redeem_one-InStages redeem_one-StaysLocal w
            (list_awaiting_redemption-IsListing sv distinct w rows))
        (λ w rows. rows)

  pub resolver_tick-Keeps : AreDistinctIds sv.market_ids → Keeps sv (resolver_tick sv)
  unfolding resolver_tick
  resolver_tick-Keeps distinct =
      let first = detect_polymarket_resolutions sv >> submit_solana_for_resolved sv in
      catch-Keeps sv (first >> redeem_polygon_for_resolved sv) (λ e. pure tt)
        (bind-Keeps sv first (λ _. redeem_polygon_for_resolved sv)
          (bind-Keeps sv (detect_polymarket_resolutions sv) (λ _. submit_solana_for_resolved sv)
            (detect-Keeps sv) (λ _. submit-Keeps sv distinct))
          (λ _. redeem-Keeps distinct))
        (λ e w rows. rows)
