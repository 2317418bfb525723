-- ===== src/Hedger/Settling.antt =====
-- The exposure that the ends of an attempt take off: the `finalize_*` methods of
-- apps/hedger/hedger/processor.ts.
use native.Mathlib.Nat.{mul-zero}
use highgarden.Base.{
  ℕ, ◌+◌, ◌≡◌, refl, sym, ap, subst, ◌∙◌, inl, inr, Bool, true, false, Option, none, some, ◌==◌,
  ltb, leb, Bool-cases, arith, if◌then◌else◌,
}
use highgarden.Base.Int.{ℤ, pos, neg, ◌+ℤ◌, int_laws}
use highgarden.Base.Round.{round_div}
use highgarden.Database.{Side, buy, sell}
use highgarden.Call.{Reply, pure, or_throw, ◌>>◌}
use highgarden.Call.Frame.{Returns, bind-pure_state}
use highgarden.Trade.{OrderResult}
use highgarden.Hedger.{
  Tables, HedgeFailure, HedgeServices, HedgeJob, HedgeResult, job_filled, job_partial, job_skipped,
  ResolvedContext, WalkResult, signed_notional_usd, notional_usd, settle_exposure_of,
  finalize_filled, finalize_walk, finalize_partial, execute_hedge, attempt, add_exposure_at_first,
  target_price_cents, place, walk_book, walk_input, add_exposure, settle_exposure, finalize,
  unexpected, target_of,
}
use highgarden.Hedger.WalkBounds.{walk_book-Walked}
use highgarden.Hedger.Delta.{
  Moved, Still-Moved, bind-Moved, bind-Still, update-Still, apply-Moved, then_pure,
}

abbrev pub filled_of : HedgeResult → ℕ
filled_of (job_filled n _ _) = n
filled_of (job_partial n _) = n
filled_of (job_skipped _) = 0

-- What comes off the exposure for a result.
abbrev pub taken_off : ResolvedContext → HedgeResult → ℤ
taken_off ctx r = neg (signed_notional_usd ctx.fill.price (filled_of r) ctx.fill.side)

zero_notional : (price : ℕ) → notional_usd price 0 ≡ 0
unfolding notional_usd round_div
zero_notional price = rw (mul-zero price) refl

zero_signed : (price : ℕ) (side : Side) → pos 0 ≡ neg (signed_notional_usd price 0 side)
unfolding signed_notional_usd
zero_signed price buy = rw (zero_notional price) (omega int_laws)
zero_signed price sell = rw (zero_notional price) (omega int_laws)

module _ (sv : HedgeServices) (ctx : ResolvedContext) where
  abbrev Settles : Tables → Reply HedgeFailure HedgeResult × Tables → Type 0
  Settles w = Returns (λ r v. Moved ctx.market.id (taken_off ctx r) w v)

  settle-Moved :
      (n : ℕ) (r : HedgeResult) (w : Tables)
      → filled_of r ≡ n
      → Settles w ((settle_exposure_of sv ctx n >> pure r) w)
  unfolding settle_exposure_of
  settle-Moved n r w e =
      then_pure ctx.market.id (neg (signed_notional_usd ctx.fill.price n ctx.fill.side))
        (taken_off ctx) _ r w (apply-Moved sv settle_exposure ctx.market.id _ w)
        (ap (λ n. neg (signed_notional_usd ctx.fill.price n ctx.fill.side)) (sym e))

  filled-Settles : (result : OrderResult) (w : Tables) → Settles w (finalize_filled sv ctx result w)
  unfolding finalize_filled
  filled-Settles result w =
      bind-Still ctx.market.id (taken_off ctx) _ _ w (update-Still sv _ ctx.hedge.id _ w)
        λ _ _. settle-Moved result.filled_shares _ _ refl

  nothing_filled : (r : HedgeResult) → filled_of r ≡ 0 → pos 0 ≡ taken_off ctx r
  nothing_filled r e =
      subst (λ n. pos 0 ≡ neg (signed_notional_usd ctx.fill.price n ctx.fill.side)) (sym e)
        (zero_signed ctx.fill.price ctx.fill.side)

  rest-Settles :
      (n : ℕ) (r : HedgeResult) (w : Tables)
      → filled_of r ≡ n
      → Settles w (((if ltb 0 n then settle_exposure_of sv ctx n else pure tt) >> pure r) w)
  rest-Settles n r w e = elim (Bool-cases (ltb 0 n)) [
    | inl some_filled ↦ rw some_filled (settle-Moved n r w e)
    | inr none_filled ↦ rw none_filled (
        then_pure ctx.market.id (pos 0) (taken_off ctx) (pure tt) r w
          (λ _ _. Still-Moved ctx.market.id w w refl) (nothing_filled r (e ∙ ground arith)))
  ]

  walk-Settles :
      (initial : OrderResult) (walk : WalkResult) (w : Tables)
      → Settles w (finalize_walk sv ctx initial walk w)
  unfolding finalize_walk
  walk-Settles initial walk w =
      elim (Bool-cases (leb ctx.fill.size (initial.filled_shares + walk.total_filled_shares))) [
        | inl e ↦ rw e (
            bind-Still ctx.market.id (taken_off ctx) _ _ w (update-Still sv _ ctx.hedge.id _ w)
              λ _ _. settle-Moved _ _ _ refl)
        | inr e ↦ rw e (
            bind-Still ctx.market.id (taken_off ctx) _ _ w (update-Still sv _ ctx.hedge.id _ w)
              λ _ _. rest-Settles (initial.filled_shares + walk.total_filled_shares) _ _ refl)
      ]

  or_throw-Still :
      {A : Type 0} (o : Option A) (e : HedgeFailure) (w : Tables)
      → (or_throw o e w).1.exposures ≡ w.exposures
  or_throw-Still none e w = refl
  or_throw-Still (some a) e w = refl

  walk_book-Still : (input : _) (w : Tables) → (walk_book sv input w).1.exposures ≡ w.exposures
  walk_book-Still input w =
      let (_, (_, same, _, _)) = walk_book-Walked sv input w in
      ap (λ (t : Tables). t.exposures) same

  finalize-Settles :
      (initial : OrderResult) (target : ℕ) (whole : Bool) (w : Tables)
      → Settles w (finalize sv ctx initial target whole w)
  unfolding finalize_partial
  finalize-Settles initial target true w = filled-Settles initial w
  finalize-Settles initial target false w =
      bind-Still ctx.market.id (taken_off ctx) _ _ w
        (walk_book-Still (walk_input ctx initial target) w)
        λ end' _.
          bind-Still ctx.market.id (taken_off ctx) _ _ _ (or_throw-Still end' unexpected _)
            λ walk _. walk-Settles initial walk _

  target-Still : (w : Tables) → (target_price_cents sv ctx w).1.exposures ≡ w.exposures
  unfolding target_price_cents
  target-Still w =
      ap (λ (t : Tables). t.exposures)
        (bind-pure_state (or_throw (sv.top_of_book ctx.direction.token_id) unexpected)
          (λ top. target_of ctx.direction.polymarket_side top ctx.fill.price) w)
      ∙ or_throw-Still (sv.top_of_book ctx.direction.token_id) unexpected w

  execute-Settles : (w : Tables) → Settles w (execute_hedge sv ctx w)
  unfolding execute_hedge place
  execute-Settles w =
      bind-Still ctx.market.id (taken_off ctx) (target_price_cents sv ctx) _ w (target-Still w)
        λ target _.
          bind-Still ctx.market.id (taken_off ctx) _ _ _ refl
            λ initial _. finalize-Settles initial target initial.fully_filled _

  -- What the first attempt puts on the exposure.
  abbrev pub added : Bool → ℤ
  added true = signed_notional_usd ctx.fill.price ctx.fill.size ctx.fill.side
  added false = pos 0

  added-Moved :
      (first : Bool) (w : Tables)
      → Returns
          (λ _ v. Moved ctx.market.id (added first) w v)
          (add_exposure_at_first sv ctx first w)
  added-Moved true w = apply-Moved sv add_exposure ctx.market.id _ w
  added-Moved false w = λ _ _. Still-Moved ctx.market.id w w refl

  pub attempt-Moved :
      (job : HedgeJob) (w : Tables)
      → Returns
          (λ r v. Moved ctx.market.id (added (job.attempts_made == 0) +ℤ taken_off ctx r) w v)
          (attempt sv job ctx w)
  unfolding attempt
  attempt-Moved job w =
      bind-Still ctx.market.id (λ r. added (job.attempts_made == 0) +ℤ taken_off ctx r) _ _ w
        (update-Still sv _ ctx.hedge.id _ w)
        λ _ _.
          bind-Moved ctx.market.id (added (job.attempts_made == 0)) (taken_off ctx) _ _ _
            (added-Moved (job.attempts_made == 0) _) λ _ _. execute-Settles _
