-- ===== src/Resolution/Detects.antt =====
-- The first stage of apps/hedger/resolver/index.ts keeps the rows as their stages say.
use highgarden.Base.{
  ℕ, refl, inl, inr, Bool-cases, Option, none, some, or_else, List, [], ◌∷◌, if◌then◌else◌,
}
use highgarden.Call.{Reply, pure, gets, ◌>>=◌}
use highgarden.Database.{Outcome}
use highgarden.Resolution.{
  ResolverStage, pending, polymarket_resolved, solana_resolved, redeemed, ResolverStateRow, new_row,
  GammaResolution, SentResolve, Resolution, ResolutionFailure, ResolutionCall, ResolutionServices,
  ask, untouched, for_each, outcome_of_index, pda_of,
}
use highgarden.Resolution.Table.{find_row, detected, record_polymarket_resolved}
use highgarden.Resolution.Resolver.{
  Candidate, with_pda, not_terminal, is_terminal_stage, list_pending_candidates, has_resolved_at,
  record_resolution, on_winner, on_resolution, check_candidate, detect_polymarket_resolutions,
}
use highgarden.Resolution.Stages.{
  IsTraced, HasStage, RowOk, InStages, counted, ask_then, Keeps, bind-Keeps, read-Keeps,
  upsert_state-InStages,
}
use highgarden.Resolution.Loops.{for_each-Keeps}

-- Every stage leaves its trace.
HasStage-IsTraced :
    (sent : List SentResolve) (pda : Option ℕ) (stage : ResolverStage) (r : ResolverStateRow)
    → HasStage sent pda stage r
    → IsTraced r
HasStage-IsTraced sent pda pending r (_, _, sig, tx) = inl (sig, tx)
HasStage-IsTraced sent pda polymarket_resolved r (_, _, traced) = traced
HasStage-IsTraced sent pda solana_resolved r (_, _, sig, _, _, _, e, _, _) = inr (sig, e)
HasStage-IsTraced sent pda redeemed r ((_, _, sig, _, _, _, e, _, _), _) = inr (sig, e)

-- Any row, or none, becomes one that Polymarket has resolved.
pub detected-HasStage :
    (sent : List SentResolve) (pda : Option ℕ) (o : Option ResolverStateRow)
    → RowOk sent pda o
    → (outcome : Outcome) (at : ℕ)
    → HasStage sent pda polymarket_resolved (detected outcome at (or_else o new_row))
detected-HasStage sent pda none h outcome at = ((at, refl), (outcome, refl), inl (refl, refl))
detected-HasStage sent pda (some r) h outcome at =
    ((at, refl), (outcome, refl), HasStage-IsTraced sent pda r.stage r h)

module _ (sv : ResolutionServices) where
  unless_detected : ℕ → ℕ → Option ℕ → ℕ → Option ResolverStateRow → ResolutionCall (Unit {0})
  unless_detected id index resolved_at now existing =
      if has_resolved_at existing
      then pure tt
      else record_polymarket_resolved sv id (outcome_of_index index) (or_else resolved_at now)

  record_resolution-Keeps :
      (id index : ℕ) (resolved_at : Option ℕ) → Keeps sv (record_resolution sv id index resolved_at)
  unfolding record_resolution unless_detected
  record_resolution-Keeps id index resolved_at =
      bind-Keeps sv (gets (λ w. sv.now w.calls))
        (λ now. find_row sv id >>= unless_detected id index resolved_at now) (λ w rows. rows)
        (λ now w rows.
          ask_then (λ (r : Reply ResolutionFailure (Unit {0}) × Resolution). InStages sv r.1) sv
            (λ w. w.states id) untouched (unless_detected id index resolved_at now) w
            (elim (Bool-cases (has_resolved_at (w.states id))) [
              | inl there ↦ rw there rows
              | inr gone ↦ rw gone (
                  upsert_state-InStages sv id
                    (detected (outcome_of_index index) (or_else resolved_at now)) (counted w)
                    (detected-HasStage w.sent (pda_of (sv.markets id)) (w.states id) (rows id)
                      (outcome_of_index index) (or_else resolved_at now))
                    rows)
            ])
            rows)

  on_winner-Keeps :
      (id : ℕ) (index resolved_at : Option ℕ) → Keeps sv (on_winner sv id index resolved_at)
  on_winner-Keeps id none resolved_at w rows = rows
  on_winner-Keeps id (some index) resolved_at w rows =
      record_resolution-Keeps id index resolved_at w rows

  on_resolution-Keeps : (id : ℕ) (g : Option GammaResolution) → Keeps sv (on_resolution sv id g)
  on_resolution-Keeps id none w rows = rows
  on_resolution-Keeps id (some g) w rows = elim (Bool-cases g.closed) [
    | inl closed ↦ rw closed (on_winner-Keeps id g.winning_outcome_index g.resolved_at w rows)
    | inr running ↦ rw running rows
  ]

  check_candidate-Keeps : (c : Candidate) → Keeps sv (check_candidate sv c)
  unfolding check_candidate
  check_candidate-Keeps (id, m) =
      bind-Keeps sv (ask sv (λ w. sv.fetch_resolution w.calls m.poly_market_id) untouched)
        (on_resolution sv id) (read-Keeps sv (λ w. sv.fetch_resolution w.calls m.poly_market_id))
        (on_resolution-Keeps id)

  not_terminal-Keeps : (cs : List Candidate) → Keeps sv (not_terminal sv cs)
  not_terminal-Keeps [] w rows = rows
  not_terminal-Keeps (c ∷ cs) w rows =
      bind-Keeps sv (find_row sv c.0)
        (λ state.
          not_terminal sv cs >>= λ rest. pure (if is_terminal_stage state then rest else c ∷ rest))
        (read-Keeps sv (λ w. w.states c.0))
        (λ state.
          bind-Keeps sv (not_terminal sv cs)
            (λ rest. pure (if is_terminal_stage state then rest else c ∷ rest))
            (not_terminal-Keeps cs) (λ rest w rows. rows))
        w rows

  pub detect-Keeps : Keeps sv (detect_polymarket_resolutions sv)
  unfolding detect_polymarket_resolutions list_pending_candidates
  detect-Keeps =
      bind-Keeps sv (list_pending_candidates sv) (for_each (check_candidate sv))
        (bind-Keeps sv (ask sv (λ w. with_pda sv sv.market_ids) untouched) (not_terminal sv)
          (read-Keeps sv (λ w. with_pda sv sv.market_ids)) not_terminal-Keeps)
        (for_each-Keeps sv (check_candidate sv) check_candidate-Keeps)
