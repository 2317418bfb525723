-- ===== src/Hedger/Conservation.antt =====
-- The unhedged exposure over a whole job: `handle` of apps/hedger/hedger/processor.ts.
use highgarden.Base.{refl, ◌⊎◌, inl, inr, ◌≡◌, sym, subst, Bool, true, false, ◌==◌}
use highgarden.Base.Int.{◌+ℤ◌}
use highgarden.Call.{ok}
use highgarden.Call.Frame.{bind-ok, bind-value, ok-injective}
use highgarden.Hedger.{
  Tables, HedgeServices, HedgeJob, HedgeResult, job_skipped, ResolvedContext, handle,
  resolve_context, is_terminal, unless_terminal,
}
use highgarden.Hedger.Context.{resolve_context-Quiet}
use highgarden.Hedger.Delta.{Moved, Moved-from}
use highgarden.Hedger.Settling.{added, taken_off, attempt-Moved}

module _ (sv : HedgeServices) (job : HedgeJob) (w : Tables) (r : HedgeResult)
    (ctx : ResolvedContext) where
  -- What the job comes to with its rows found.
  abbrev Done : Bool → Tables → Type 0
  Done t u =
      ((t ≡ true) × (r ≡ job_skipped ctx.hedge.status) × (u.exposures ≡ w.exposures))
      ⊎ ((t ≡ false)
          × Moved ctx.market.id (added sv ctx (job.attempts_made == 0) +ℤ taken_off ctx r) w u)

  branch-Done :
      (t : Bool) (v : Tables)
      → v.exposures ≡ w.exposures
      → (unless_terminal sv job ctx t v).0 ≡ ok r
      → Done t (unless_terminal sv job ctx t v).1
  branch-Done true v e h = inl (refl, sym (ok-injective h), e)
  branch-Done false v e h =
      inr (refl, Moved-from ctx.market.id _ w v _ e (attempt-Moved sv ctx job v r h))

-- What a job that returns has done. It has found its rows, and if the hedge was done with it has been
-- skipped, with no exposure changed. Otherwise the exposure of the fill's market has moved by what the
-- first attempt adds, the fill's notional (nothing, on a later attempt), less the notional of the
-- shares that were filled; and no other market's exposure has moved.
pub handle_exposure :
    (sv : HedgeServices) (job : HedgeJob) (w : Tables) (r : HedgeResult)
    → (handle sv job w).0 ≡ ok r
    → (ctx : ResolvedContext) × ((resolve_context sv job w).0 ≡ ok ctx)
      × (((is_terminal ctx.hedge.status ≡ true)
            × (r ≡ job_skipped ctx.hedge.status)
            × ((handle sv job w).1.exposures ≡ w.exposures))
          ⊎ ((is_terminal ctx.hedge.status ≡ false)
              × Moved ctx.market.id
                  (added sv ctx (job.attempts_made == 0) +ℤ taken_off ctx r)
                  w
                  (handle sv job w).1))
unfolding handle
handle_exposure sv job w r h =
    let (ctx, found, rest) =
      bind-ok (resolve_context sv job)
        (λ ctx. unless_terminal sv job ctx (is_terminal ctx.hedge.status)) w r h in
    let state =
      bind-value (resolve_context sv job)
        (λ ctx. unless_terminal sv job ctx (is_terminal ctx.hedge.status)) w found in
    let quiet = resolve_context-Quiet sv job w in
    (
      ctx,
      found,
      subst (λ x. Done sv job w r ctx (is_terminal ctx.hedge.status) x.1) (sym state)
          (branch-Done sv job w r ctx (is_terminal ctx.hedge.status) (resolve_context sv job w).1
            quiet.0 rest),
    )
