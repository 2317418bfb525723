-- ===== src/Liquidator/Fills.antt =====
-- The shares filled by the orders of apps/hedger/inventory/liquidator.ts, those of lost replies apart.
use highgarden.Base.{ℕ, ◌+◌, ◌≤◌, ◌≡◌, refl, true, Option, none, some, List, [], ◌∷◌, arith}
use highgarden.Trade.{OrderResult}
use highgarden.Liquidator.{LiquidationOrder, record_query, LiquidatorServices}

-- The shares filled by the orders sent, newest first.
abbrev pub total_filled : LiquidatorServices → List LiquidationOrder → ℕ
total_filled sv [] = 0
total_filled sv (o ∷ os) = sv.fills os o + total_filled sv os

abbrev pub if_lost : Option OrderResult → ℕ → ℕ
if_lost none n = n
if_lost (some r) n = 0

-- Those filled by the orders whose call threw.
abbrev pub lost : LiquidatorServices → List LiquidationOrder → ℕ
lost sv [] = 0
lost sv (o ∷ os) = if_lost (sv.place_market_order os o) (sv.fills os o) + lost sv os

abbrev pub shares_of : Option OrderResult → ℕ
shares_of none = 0
shares_of (some r) = r.filled_shares

-- Those that Polymarket has reported.
abbrev pub reported : LiquidatorServices → List LiquidationOrder → ℕ
reported sv [] = 0
reported sv (o ∷ os) = shares_of (sv.place_market_order os o) + reported sv os

-- Polymarket fills no more than was ordered.
abbrev pub NoOverfill : LiquidatorServices → Type 0
NoOverfill sv = (os : List LiquidationOrder) (o : LiquidationOrder) → sv.fills os o ≤ o.size_shares

abbrev pub TellsFill : Option OrderResult → ℕ → Type 0
TellsFill none n = Unit
TellsFill (some r) n = r.filled_shares ≡ n

-- An answer tells the shares that were filled.
abbrev pub Reports : LiquidatorServices → Type 0
Reports sv =
    (os : List LiquidationOrder) (o : LiquidationOrder)
    → TellsFill (sv.place_market_order os o) (sv.fills os o)

reported_or_lost : (r : Option OrderResult) (n : ℕ) → TellsFill r n → n ≡ shares_of r + if_lost r n
reported_or_lost none n h = omega arith
reported_or_lost (some r) n h = omega arith

pub total_lem :
    (sv : LiquidatorServices)
    → Reports sv
    → (os : List LiquidationOrder) → total_filled sv os ≡ reported sv os + lost sv os
total_lem sv reports [] = refl
total_lem sv reports (o ∷ os) =
    let first = reported_or_lost (sv.place_market_order os o) (sv.fills os o) (reports os o) in
    let rest = total_lem sv reports os in omega arith

-- The write of the order id goes through.
abbrev pub Records : LiquidatorServices → Type 0
Records sv = (k : ℕ) → sv.query_up record_query k ≡ true
