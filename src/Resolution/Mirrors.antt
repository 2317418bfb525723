-- ===== src/Resolution/Mirrors.antt =====
-- A tick of apps/hedger/market-status/poller.ts keeps the rows of the resolver as their stages say.
use highgarden.Base.{
  ℕ, ◌≡◌, refl, sym, ap, subst, Bool, true, false, ◌&&◌, Option, none, some, or_else, List, ◌∷◌,
  ==_iff, if◌then◌else◌,
}
use highgarden.Call.{Reply, pure, gets, ◌>>=◌, ◌>>◌}
use highgarden.Call.Frame.{bind-frame}
use highgarden.Database.{Outcome}
use highgarden.Resolution.{
  ResolverStateRow, new_row, MarketInfo, MarketState, GammaResolution, Submission, Resolution,
  ResolutionFailure, ResolutionCall, ResolutionServices, ask, untouched, pda_of, resolve_market,
}
use highgarden.Resolution.Table.{
  put_state, changed, upsert_state, detected, forwarded, record_polymarket_resolved,
  record_solana_resolved, is_fast,
}
use highgarden.Resolution.MarketStatus.{
  CandidateMarket, is_resolved, compute_target, put_market, publish_resolved, submit_fast,
  fast_path, after_resolved, apply_target, apply_if, mirror, check_market,
}
use highgarden.Resolution.Stages.{
  RowOk, InStages, counted, ask_then, ask_alone, Keeps, bind-Keeps, branch-Keeps, catch-Keeps,
  read-Keeps, put_state-InStages, update_state-InStages,
}
use highgarden.Resolution.Detects.{detected-HasStage}
use highgarden.Resolution.Landing.{
  in_flight, resolve_then, in_flight-InStages, forwarded-RowOk, gets_then,
}

put_state_at :
    (id : ℕ) (r : Option ResolverStateRow) (w : Resolution) → (put_state id r w).states id ≡ r
put_state_at id r w = rw ((==_iff id id).1 refl) refl

abbrev Done : Type 0
Done = Reply ResolutionFailure (Unit {0}) × Resolution

module _ (sv : ResolutionServices) where
  publish_resolved-Keeps :
      (id : ℕ) (o : Outcome) (at : ℕ) (claimable : Bool)
      → Keeps sv (publish_resolved sv id o at claimable)
  unfolding publish_resolved
  publish_resolved-Keeps id o at claimable =
      let write : Resolution → Resolution = λ w. record w {
        published =
            record { market_id = id; winning_outcome = o; resolved_at = at; claimable = claimable }
            ∷ w.published;
      } in
      catch-Keeps sv (ask sv (λ w. tt) write) (λ e. pure tt)
        (λ w rows. ask_alone (λ (d : Done). InStages sv d.1) sv (λ w. tt) write w rows rows)
        (λ e w rows. rows)

  -- Both writes of the resolver's table, with the signature at hand.
  recorded-InStages :
      (id p : ℕ) (o : Outcome) (at now : ℕ) (w : Resolution) (sub : List Submission)
      → pda_of (sv.markets id) ≡ some p
      → InStages sv w
      → InStages sv
          ((record_polymarket_resolved sv id o at
              >> record_solana_resolved sv id (sv.signature w.calls) now)
            (in_flight sv p o w sub)).1
  unfolding upsert_state
  recorded-InStages id p o at now w sub e rows =
      let pda = pda_of (sv.markets id) in
      let sig = sv.signature w.calls in
      let r = detected o at (or_else (w.states id) new_row) in
      let v = in_flight sv p o w sub in
      let v' = put_state id (some r) (counted v) in
      let sent_rows = in_flight-InStages sv p o w sub rows in
      let found =
        put_state-InStages sv id (some r) (counted v)
          (detected-HasStage v.sent pda (w.states id) (sent_rows id) o at) sent_rows in
      ask_then (λ (d : Done). InStages sv d.1) sv (λ w. tt)
        (λ w. put_state id (some (detected o at (or_else (w.states id) new_row))) w)
        (λ _. record_solana_resolved sv id sig now) v
        (update_state-InStages sv id (forwarded sig now) v'
          (subst (λ s. RowOk v.sent pda (changed (forwarded sig now) s))
            (sym (put_state_at id (some r) (counted v)))
            (forwarded-RowOk w.sent p o pda sig now r e refl
              (detected-HasStage w.sent pda (w.states id) (rows id) o at)))
          found)
        sent_rows

  submit_fast-InStages :
      (id p : ℕ) (o : Outcome) (at : ℕ)
      → pda_of (sv.markets id) ≡ some p
      → Keeps sv (submit_fast sv id p o at)
  unfolding submit_fast
  submit_fast-InStages id p o at e =
      let P : Done → Type 0 = λ d. InStages sv d.1 in
      let both : ℕ → ℕ → ResolutionCall (Unit {0}) =
        λ sig now. record_polymarket_resolved sv id o at >> record_solana_resolved sv id sig now in
      let rest : ℕ → ResolutionCall (Unit {0}) = λ sig.
        gets (λ w. sv.now w.calls) >>= λ now. (both sig now >> publish_resolved sv id o at true) in
      catch-Keeps sv (resolve_market sv p o >>= rest) (λ e. pure tt)
        (λ w rows.
          let sig = sv.signature w.calls in
          resolve_then P sv p o rest w
            (λ sub.
              let v = in_flight sv p o w sub in
              gets_then P (λ w. sv.now w.calls)
                (λ now. both sig now >> publish_resolved sv id o at true) v
                (bind-frame (λ u v. InStages sv u → InStages sv v) (λ u v y f g i. g (f i))
                  (both sig (sv.now v.calls)) (λ _. publish_resolved sv id o at true) v
                  (λ _. recorded-InStages id p o at (sv.now v.calls) w sub e rows)
                  (λ _ v i. publish_resolved-Keeps id o at true v i)
                  (in_flight-InStages sv p o w sub rows)))
            (λ sub. in_flight-InStages sv p o w sub rows) rows)
        (λ e w rows. rows)

  fast_path-Keeps :
      (id : ℕ) (m : MarketInfo) (pda : Option ℕ) (o : Outcome) (at : ℕ)
      → pda_of (sv.markets id) ≡ pda
      → Keeps sv (fast_path sv id m pda o at)
  fast_path-Keeps id m none o at e w rows = rows
  fast_path-Keeps id m (some p) o at e w rows =
      branch-Keeps sv (is_fast (some m) && sv.oracle_configured) (submit_fast sv id p o at)
        (pure tt) (submit_fast-InStages id p o at e) (λ w rows. rows) w rows

  after_resolved-Keeps :
      (id : ℕ) (m : MarketInfo) (o : Option Outcome) (at : Option ℕ)
      → sv.markets id ≡ some m
      → Keeps sv (after_resolved sv id m o at)
  after_resolved-Keeps id m none at e w rows = rows
  after_resolved-Keeps id m (some o) none e w rows = rows
  after_resolved-Keeps id m (some o) (some at) e w rows =
      bind-Keeps sv (publish_resolved sv id o at false)
        (λ _. fast_path sv id m m.solana_market_pda o at) (publish_resolved-Keeps id o at false)
        (λ _. fast_path-Keeps id m m.solana_market_pda o at (ap pda_of e)) w rows

  apply_if-Keeps :
      (c : CandidateMarket) (t : Option MarketState)
      → sv.markets c.id ≡ some c.info
      → Keeps sv (apply_if sv c t)
  unfolding apply_target
  apply_if-Keeps c none e w rows = rows
  apply_if-Keeps c (some t) e w rows =
      let after = after_resolved sv c.id c.info t.winning_outcome t.resolved_at in
      bind-Keeps sv (ask sv (λ w. tt) (put_market c.id t))
        (λ _. if is_resolved t.status then after else pure tt)
        (λ w rows.
          ask_alone (λ (d : Done). InStages sv d.1) sv (λ w. tt) (put_market c.id t) w rows rows)
        (λ _.
          branch-Keeps sv (is_resolved t.status) after (pure tt)
            (after_resolved-Keeps c.id c.info t.winning_outcome t.resolved_at e) (λ w rows. rows))
        w rows

  mirror-Keeps :
      (c : CandidateMarket) (g : Option GammaResolution)
      → sv.markets c.id ≡ some c.info
      → Keeps sv (mirror sv c g)
  mirror-Keeps c none e w rows = rows
  mirror-Keeps c (some g) e w rows =
      gets_then (λ (d : Done). InStages sv d.1) (λ w. sv.now w.calls)
        (λ now. apply_if sv c (compute_target c.state now g)) w
        (apply_if-Keeps c (compute_target c.state (sv.now w.calls) g) e w rows)

  pub check_market-Keeps :
      (c : CandidateMarket) → sv.markets c.id ≡ some c.info → Keeps sv (check_market sv c)
  unfolding check_market
  check_market-Keeps c e =
      bind-Keeps sv (ask sv (λ w. sv.fetch_resolution w.calls c.info.poly_market_id) untouched)
        (mirror sv c) (read-Keeps sv (λ w. sv.fetch_resolution w.calls c.info.poly_market_id))
        (λ g. mirror-Keeps c g e)
