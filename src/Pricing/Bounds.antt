-- ===== src/Pricing/Bounds.antt =====
-- Where the prices of a trade lie (apps/server/services/service.trade-orchestrator.ts).
use highgarden.Base.{
  map, ap, ℕ, ◌+◌, ◌-◌, ◌*◌, ◌≤◌, ◌<◌, ◌≡◌, refl, ◌⊎◌, inl, inr, Option, some, List, [], ◌∷◌, All,
  arith, min, max, or_else, sum_by, ltb, Bool-cases,
}
use highgarden.Base.Round.{round_div, round_div_bounds}
use highgarden.Database.{buy, sell}
use highgarden.Netting.{NettedConsumption, NettingResult}
use highgarden.Trade.{OrderResult, ok}
use highgarden.Pricing.{
  weighted_totals, weighted_avg, merge_avg, leg_shares, leg_avg, combine_hedge_legs, HedgeFilled,
  hedge_order_id, with_avg, derive_user_price,
}

-- The user's price is the hedge's price moved by the spread against the user and kept within the
-- 1 to 99 cents that the contract accepts: a buyer pays the hedge's price plus the spread, or 99 if
-- that is more; a seller gets the hedge's price less the spread, or 1 if that is less (and 99 if it
-- is still more).
pub derive_user_price_bounds :
    (spread avg : ℕ)
    → (1 ≤ derive_user_price spread avg buy)
      × (derive_user_price spread avg buy ≡ max 1 (min 99 (avg + spread)))
      × (1 ≤ derive_user_price spread avg sell)
      × (derive_user_price spread avg sell ≡ max 1 (min 99 (avg - spread)))
unfolding derive_user_price
derive_user_price_bounds spread avg = (ground arith, ground arith, ground arith, ground arith)

module _ (lo hi : ℕ) where
  abbrev pub PricedWithin : NettedConsumption → Type 0
  PricedWithin c = (lo ≤ c.avg_price_cents) × (c.avg_price_cents ≤ hi)

  totals_bounds :
      (cs : List NettedConsumption) (shares cents : ℕ)
      → All PricedWithin cs
      → lo * shares ≤ cents
      → cents ≤ hi * shares
      → let (s, c) = weighted_totals cs shares cents in
        (lo * s ≤ c) × (c ≤ hi * s) × (s ≡ shares + sum_by (λ c. c.shares_consumed) cs)
  unfolding weighted_totals
  totals_bounds [] shares cents a l h = (l, h, omega arith)
  totals_bounds (c ∷ cs) shares cents a l h =
      let (x, y, z) =
        totals_bounds cs (shares + c.shares_consumed)
          (cents + c.shares_consumed * c.avg_price_cents) a.1 (grind arith) (grind arith) in
      (x, y, omega arith)

  -- A leg that weighs nothing, or whose average is known and within the range.
  abbrev pub LegWithin : ℕ → Option ℕ → Type 0
  LegWithin shares avg = (shares ≡ 0) ⊎ ((a : ℕ) × (avg ≡ some a) × (lo ≤ a) × (a ≤ hi))

  leg_bounds :
      (shares : ℕ) (avg : Option ℕ)
      → LegWithin shares avg
      → (lo * shares ≤ or_else avg 0 * shares) × (or_else avg 0 * shares ≤ hi * shares)
  leg_bounds shares avg (inl e) = rw e (omega arith, omega arith)
  leg_bounds shares avg (inr (a, e, l, h)) = rw e (grind arith, grind arith)

  merge_avg-within :
      (a_shares : ℕ) (a_avg : Option ℕ) (b_shares : ℕ) (b_avg : Option ℕ)
      → LegWithin a_shares a_avg
      → LegWithin b_shares b_avg
      → 0 < a_shares + b_shares
      → (m : ℕ) × (merge_avg a_shares a_avg b_shares b_avg ≡ ok m) × (lo ≤ m) × (m ≤ hi)
  unfolding merge_avg
  merge_avg-within a_shares a_avg b_shares b_avg a b pos =
      let (la, ha) = leg_bounds a_shares a_avg a in
      let (lb, hb) = leg_bounds b_shares b_avg b in
      let (l, h) =
        round_div_bounds (or_else a_avg 0 * a_shares + or_else b_avg 0 * b_shares)
          (a_shares + b_shares) lo hi pos (omega arith) (omega arith) in
      (
        round_div (or_else a_avg 0 * a_shares + or_else b_avg 0 * b_shares) (a_shares + b_shares),
        ground arith,
        l,
        h,
      )

  weighted_avg-within :
      (cs : List NettedConsumption)
      → All PricedWithin cs
      → LegWithin (sum_by (λ c. c.shares_consumed) cs) (weighted_avg cs)
  unfolding weighted_avg
  weighted_avg-within [] a = inl refl
  weighted_avg-within (c ∷ cs) a =
      let (l, h, s) = totals_bounds (c ∷ cs) 0 0 a (omega arith) (omega arith) in
      let (shares, cents) = weighted_totals (c ∷ cs) 0 0 in
      elim (Bool-cases (ltb 0 shares)) [
        | inl e ↦
            let pos : 0 < shares = ground arith in
            let (l', h') = round_div_bounds cents shares lo hi pos l h in
            inr (round_div cents shares, rw e, l', h')
        | inr e ↦ inl (ground arith)
      ]

-- When every netted row and Polymarket's fill (where it has shares) were priced between `lo` and `hi`
-- and there are shares at all, the legs combine, and the hedge's price lies between `lo` and `hi`
-- too; the shares are those of both legs.
pub combine_hedge_legs-within :
    (lo hi : ℕ) (netting : NettingResult) (polymarket : Option OrderResult)
    → netting.total_shares_netted ≡ sum_by (λ c. c.shares_consumed) netting.consumed
    → All (PricedWithin lo hi) netting.consumed
    → LegWithin lo hi (leg_shares polymarket) (leg_avg polymarket)
    → 0 < netting.total_shares_netted + leg_shares polymarket
    → (h : HedgeFilled) × (combine_hedge_legs netting polymarket ≡ ok h)
      × (lo ≤ h.avg_price_cents)
      × (h.avg_price_cents ≤ hi)
      × (h.filled_shares ≡ netting.total_shares_netted + leg_shares polymarket)
unfolding combine_hedge_legs
combine_hedge_legs-within lo hi netting polymarket total within leg pos =
    let (m, e, l, h) =
      merge_avg-within lo hi netting.total_shares_netted (weighted_avg netting.consumed)
        (leg_shares polymarket) (leg_avg polymarket)
        (rw total (weighted_avg-within lo hi netting.consumed within)) leg pos in
    (
      record {
        polymarket_order_id = hedge_order_id polymarket netting.consumed;
        filled_shares = netting.total_shares_netted + leg_shares polymarket;
        avg_price_cents = m;
        netted_from_inventory = ltb 0 netting.total_shares_netted;
        netted_inventory_ids = map (λ c. c.inventory_id) netting.consumed;
      },
      ap (with_avg netting polymarket) e,
      l,
      h,
      refl,
    )
