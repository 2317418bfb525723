-- ===== src/Database.antt =====
-- The rows of the Postgres tables as the services read and write them
-- (packages/database/prisma/schema, packages/types/src/prisma).
--
-- A text that the code only stores and compares (row ids, token ids, hex nonces, base58 keys,
-- signatures) is a number, its code in some fixed numbering of texts; the few literals that the code
-- compares such a text with have the codes below. Times are milliseconds.
use highgarden.Base.{
  ◌≡◌, refl, ◌⊎◌, inl, inr, ℕ, Bool, true, false, Option, none, some, ◌==◌, if◌then◌else◌,
}

-- ""
abbrev pub empty_text : ℕ
empty_text = 0

-- "netted"
abbrev pub netted_text : ℕ
netted_text = 1

-- "unknown"
abbrev pub unknown_text : ℕ
unknown_text = 2

-- "no-hedge"
abbrev pub no_hedge_text : ℕ
no_hedge_text = 3

-- "skipped-polymarket"
abbrev pub skipped_text : ℕ
skipped_text = 4

-- A nullable text where the code tests it for truth: null and "" are both false.
abbrev pub truthy : Option ℕ → Option ℕ
truthy none = none
truthy (some t) = if t == empty_text then none else some t

pub data Side : Type 0 where
  buy sell : Side

pub data Outcome : Type 0 where
  yes_outcome no_outcome : Outcome

abbrev pub side_eq : Side → Side → Bool
side_eq buy buy = true
side_eq sell sell = true
side_eq _ _ = false

abbrev pub outcome_eq : Outcome → Outcome → Bool
outcome_eq yes_outcome yes_outcome = true
outcome_eq no_outcome no_outcome = true
outcome_eq _ _ = false

pub data MarketStatus : Type 0 where
  open_market paused_market resolved_market cancelled_market : MarketStatus

pub data HedgeStatus : Type 0 where
  pending hedging filled partial failed : HedgeStatus

-- A position on Polymarket with no user's fill behind it.
pub record InventoryRow : Type 0 where
  pub id : ℕ
  pub market_id : ℕ
  pub polymarket_order_id : ℕ
  pub polymarket_token_id : ℕ
  pub side : Side
  pub outcome : Outcome
  pub shares : ℕ
  pub avg_price_cents : ℕ
  pub created_at : ℕ
  pub netted_at : Option ℕ
  pub liquidated_at : Option ℕ

pub record QuoteRow : Type 0 where
  pub nonce : ℕ
  pub market_id : ℕ
  pub side : Side
  pub outcome : Outcome
  pub price : ℕ
  pub size : ℕ
  pub expires_at : ℕ
  pub consumed : Bool

pub record FillRow : Type 0 where
  pub id : ℕ
  pub user_id : ℕ
  pub market_id : ℕ
  pub side : Side
  pub outcome : Outcome
  pub price : ℕ
  pub size : ℕ
  pub solana_tx_sig : ℕ
  pub nonce : Option ℕ
  pub netted_from_inventory_id : Option ℕ

-- What holds of a side by cases.
pub by_side :
    (s : Side) (P Q : Type 0) → (s ≡ buy → P) → (s ≡ sell → Q) → ((s ≡ buy) × P) ⊎ ((s ≡ sell) × Q)
by_side buy P Q p q = inl (refl, p refl)
by_side sell P Q p q = inr (refl, q refl)
