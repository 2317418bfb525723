-- ===== src/Hedger/Context.antt =====
-- The lookups of a job: `resolve_context` of apps/hedger/hedger/processor.ts.
use highgarden.Base.{ℕ, ◌≡◌, refl, ap, ◌∙◌, arith}
use highgarden.Database.{FillRow}
use highgarden.Call.{◌>>=◌}
use highgarden.Call.Frame.{bind-frame}
use highgarden.Hedger.{
  HedgeDirection, Tables, HedgeServices, HedgeJob, resolve_context, lookup_user, lookup_market,
  upsert_fill, upsert_hedge, find_by_custodial_pubkey, find_by_pda, insert_fill_idempotent,
  create_hedge_idempotent, pick_direction,
}

-- No order has been sent, and no exposure has changed.
abbrev pub Quiet : Tables → Tables → Type 0
Quiet w w' = (w'.exposures ≡ w.exposures) × (w'.orders ≡ w.orders)

pub Quiet-compose : (u v w : Tables) → Quiet u v → Quiet v w → Quiet u w
Quiet-compose u v w (a, b) (c, d) = (c ∙ a, d ∙ b)

pub lookup_user-same : (sv : HedgeServices) (key : ℕ) (w : Tables) → (lookup_user sv key w).1 ≡ w
unfolding lookup_user find_by_custodial_pubkey ◌>>=◌
lookup_user-same sv key w = ground arith

pub lookup_market-same :
    (sv : HedgeServices) (pda : ℕ) (w : Tables) → (lookup_market sv pda w).1 ≡ w
unfolding lookup_market find_by_pda ◌>>=◌
lookup_market-same sv pda w = ground arith

fill-Quiet :
    (sv : HedgeServices) (job : HedgeJob) (user market : ℕ) (w : Tables)
    → Quiet w (upsert_fill sv job user market w).1
unfolding upsert_fill insert_fill_idempotent ◌>>=◌
fill-Quiet sv job user market w = ground arith

hedge-Quiet :
    (sv : HedgeServices) (job : HedgeJob) (d : HedgeDirection) (fill : FillRow) (w : Tables)
    → Quiet w (upsert_hedge sv job d fill w).1
unfolding upsert_hedge create_hedge_idempotent ◌>>=◌
hedge-Quiet sv job d fill w = ground arith

same-Quiet : (w w' : Tables) → w' ≡ w → Quiet w w'
same-Quiet w w' e = (ap (λ (t : Tables). t.exposures) e, ap (λ (t : Tables). t.orders) e)

pub resolve_context-Quiet :
    (sv : HedgeServices) (job : HedgeJob) (w : Tables) → Quiet w (resolve_context sv job w).1
unfolding resolve_context
resolve_context-Quiet sv job w =
    bind-frame Quiet Quiet-compose _ _ w (same-Quiet w _ (lookup_user-same sv job.user w))
      λ user w₁.
        bind-frame Quiet Quiet-compose _ _ w₁
          (same-Quiet w₁ _ (lookup_market-same sv job.market w₁))
          λ market w₂.
            bind-frame Quiet Quiet-compose _ _ w₂ (fill-Quiet sv job user market.id w₂) λ fill w₃.
              bind-frame Quiet Quiet-compose _ _ w₃
                (hedge-Quiet sv job (pick_direction job.side job.outcome market) fill w₃)
                λ hedge w₄. (refl, refl)
