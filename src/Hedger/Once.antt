-- ===== src/Hedger/Once.antt =====
-- Later deliveries of a job: `handle` of apps/hedger/hedger/processor.ts.
use highgarden.Base.{ℕ, ◌≡◌, refl, sym, ap, subst, ◌∙◌, Bool, true, false, some, arith}
use highgarden.Database.{FillRow}
use highgarden.Call.{ok, ◌>>=◌}
use highgarden.Call.Frame.{Returns, bind-Returns, bind-frame_at, ok-injective}
use highgarden.Hedger.{
  Tables, HedgeServices, HedgeRow, HedgeJob, HedgeResult, ResolvedContext, HedgeDirection,
  find_by_nonce, find_by_fill_id, insert_fill_idempotent, create_hedge_idempotent, upsert_fill,
  upsert_hedge, resolve_context, is_terminal, unless_terminal, handle, lookup_user, lookup_market,
  pick_direction,
}
use highgarden.Hedger.Tracked.{attempt-Terminal, Has, Settled, resolve_kept}
use highgarden.Hedger.Context.{resolve_context-Quiet, lookup_user-same, lookup_market-same}

fill_found :
    (sv : HedgeServices) (job : HedgeJob) (user market : ℕ) (f : FillRow) (w : Tables)
    → find_by_nonce job.nonce w.fills ≡ some f
    → Returns (λ g v. (g ≡ f) × (v ≡ w)) (upsert_fill sv job user market w)
unfolding upsert_fill insert_fill_idempotent ◌>>=◌
fill_found sv job user market f w e g h = ground arith

hedge_found :
    (sv : HedgeServices) (job : HedgeJob) (d : HedgeDirection) (f : FillRow) (row : HedgeRow)
    (w : Tables)
    → find_by_fill_id f.id w.hedges ≡ some row
    → Returns (λ r v. (r ≡ row) × (v ≡ w)) (upsert_hedge sv job d f w)
unfolding upsert_hedge create_hedge_idempotent ◌>>=◌
hedge_found sv job d f row w e r h = ground arith

resolve_found :
    (sv : HedgeServices) (job : HedgeJob) (f : FillRow) (row : HedgeRow) (w : Tables)
    → Has job.nonce f row w
    → Returns (λ ctx v. ctx.hedge ≡ row) (resolve_context sv job w)
unfolding resolve_context
resolve_found sv job f row w has =
    let Q : ResolvedContext → Tables → Type 0 = λ ctx v. ctx.hedge ≡ row in
    bind-Returns Q (lookup_user sv job.user) _ w λ user _.
      let w₁ = (lookup_user sv job.user w).1 in
      let has₁ = subst (Has job.nonce f row) (sym (lookup_user-same sv job.user w)) has in
      bind-Returns Q (lookup_market sv job.market) _ w₁ λ market _.
        let w₂ = (lookup_market sv job.market w₁).1 in
        let has₂ = subst (Has job.nonce f row) (sym (lookup_market-same sv job.market w₁)) has₁ in
        bind-Returns Q (upsert_fill sv job user market.id) _ w₂ λ g e.
          let (same, stays) = fill_found sv job user market.id f w₂ has₂.0 g e in
          let w₃ = (upsert_fill sv job user market.id w₂).1 in
          let there =
            subst (λ (v : Tables). find_by_fill_id f.id v.hedges ≡ some row) (sym stays) has₂.1 in
          let there' =
            subst (λ (x : FillRow). find_by_fill_id x.id w₃.hedges ≡ some row) (sym same) there in
          bind-Returns Q (upsert_hedge sv job (pick_direction job.side job.outcome market) g) _ w₃
            λ r e'.
              let (is_row, _) =
                hedge_found sv job (pick_direction job.side job.outcome market) g row w₃ there' r
                  e' in
              λ ctx h. ap (λ (c : ResolvedContext). c.hedge) (ok-injective (sym h)) ∙ is_row

-- A job whose hedge is done with sends no order.
pub Settled-sends_nothing :
    (sv : HedgeServices) (job : HedgeJob) (w : Tables)
    → Settled job.nonce w
    → (handle sv job w).1.orders ≡ w.orders
unfolding handle
Settled-sends_nothing sv job w (f, row, has, terminal) =
    bind-frame_at (λ u v. v.orders ≡ u.orders) (λ u v x p q. q ∙ p) (resolve_context sv job) _ w
      (resolve_context-Quiet sv job w).1
      λ ctx found.
        let is_row = resolve_found sv job f row w has ctx found in
        let t = subst (λ (r : HedgeRow). is_terminal r.status ≡ true) (sym is_row) terminal in
        rw t refl

branch-Settled :
    (sv : HedgeServices) (job : HedgeJob) (ctx : ResolvedContext) (t : Bool) (w : Tables)
    → is_terminal ctx.hedge.status ≡ t
    → Has job.nonce ctx.fill ctx.hedge w
    → Returns (λ _ v. Settled job.nonce v) (unless_terminal sv job ctx t w)
branch-Settled sv job ctx true w terminal has r h = (ctx.fill, ctx.hedge, has, terminal)
branch-Settled sv job ctx false w terminal (found, there) r h =
    let (found', (row, there', _, done)) =
      attempt-Terminal sv job ctx w (found, (ctx.hedge, there, refl, tt)) r h in
    (ctx.fill, row, (found', there'), done)

handle-Settled :
    (sv : HedgeServices) (job : HedgeJob) (w : Tables)
    → Returns (λ _ v. Settled job.nonce v) (handle sv job w)
unfolding handle
handle-Settled sv job w =
    bind-Returns (λ _ v. Settled job.nonce v) (resolve_context sv job) _ w
      λ ctx found.
        branch-Settled sv job ctx (is_terminal ctx.hedge.status) _ refl
          (resolve_kept sv job w ctx found)

-- Once a job has returned, its hedge is there and done with; and a later delivery of the same nonce,
-- whatever the outside answers then, sends no order to Polymarket.
pub handled_once :
    (sv : HedgeServices) (job : HedgeJob) (w : Tables) (r : HedgeResult) (sv' : HedgeServices)
    (again : HedgeJob)
    → (handle sv job w).0 ≡ ok r
    → again.nonce ≡ job.nonce
    → Settled job.nonce (handle sv job w).1
      × ((handle sv' again (handle sv job w).1).1.orders ≡ (handle sv job w).1.orders)
handled_once sv job w r sv' again h same =
    let settled = handle-Settled sv job w r h in
    let w' = (handle sv job w).1 in
    (settled, Settled-sends_nothing sv' again w' (subst (λ n. Settled n w') (sym same) settled))
