-- ===== src/Netting.antt =====
-- apps/server/services/service.inventory-netter.ts: a trade is first covered from positions that
-- the platform already holds.
--
-- Between two database calls of one `net` other requests may run. What they do is an argument:
-- `others k` is their effect on the table before the k-th claim of this run, and `down k` says that
-- the k-th call finds no database; call 0 is the query for the candidates.
mod Rule
pub mod Accounting
pub mod Claims
pub mod Refines
pub mod Race
pub mod Order
use highgarden.Base.{
  ℕ, suc, ◌+◌, ◌-◌, Bool, true, false, ◌&&◌, Option, none, some, List, [], ◌∷◌, ◌==◌, leb, ltb, any,
  select, update_where, is_some, not, if◌then◌else◌,
}
use highgarden.Database.{Side, Outcome, InventoryRow, side_eq, outcome_eq}

pub record NettingTarget : Type 0 where
  pub market_id : ℕ
  pub polymarket_side : Side
  pub outcome : Outcome
  pub shares_needed : ℕ

pub record NettedConsumption : Type 0 where
  pub inventory_id : ℕ
  pub shares_consumed : ℕ
  pub avg_price_cents : ℕ
  pub polymarket_order_id : ℕ

pub record NettingResult : Type 0 where
  pub consumed : List NettedConsumption
  pub total_shares_netted : ℕ
  pub remaining_shares : ℕ

abbrev pub Table : Type 0
Table = List InventoryRow

pub record Interleaving : Type 0 where
  pub others : ℕ → Table → Table
  pub down : ℕ → Bool

-- This run alone, with the database up.
abbrev pub alone : Interleaving
alone = record { others = λ k t. t; down = λ k. false }

-- nettedAt: null, liquidatedAt: null
abbrev pub is_free : InventoryRow → Bool
is_free r = not (is_some r.netted_at) && not (is_some r.liquidated_at)

-- The `where` of `find_candidates`.
abbrev pub is_candidate : NettingTarget → InventoryRow → Bool
is_candidate target r =
    r.market_id == target.market_id
    && side_eq r.side target.polymarket_side
    && outcome_eq r.outcome target.outcome
    && is_free r

-- orderBy: createdAt asc
unfoldable pub insert_by_created : InventoryRow → Table → Table
insert_by_created r [] = r ∷ []
insert_by_created r (x ∷ xs) =
    if leb r.created_at x.created_at then r ∷ x ∷ xs else x ∷ insert_by_created r xs

unfoldable pub sort_by_created : Table → Table
unfolding insert_by_created
sort_by_created [] = []
sort_by_created (x ∷ xs) = insert_by_created x (sort_by_created xs)

unfoldable pub find_candidates : NettingTarget → Table → Table
find_candidates target t = sort_by_created (select (is_candidate target) t)

-- The `where` of the conditional update in `try_claim_row`.
abbrev pub is_claimable : ℕ → InventoryRow → Bool
is_claimable id r = r.id == id && is_free r

-- updateMany({ where: { id, nettedAt: null, liquidatedAt: null }, data: { nettedAt: now } })
unfoldable pub mark_netted : ℕ → ℕ → Table → Table
mark_netted id now = update_where (is_claimable id) (λ r. record r { netted_at = some now })

-- What a claim comes to, with the table after it: shares taken, the row passed over, or a throw.
pub data ClaimReply : Type 0 where
  claimed : ℕ → Table → ClaimReply
  passed : Table → ClaimReply
  thrown : Table → ClaimReply

unfoldable pub try_claim_row : Interleaving → ℕ → ℕ → InventoryRow → ℕ → Table → ClaimReply
try_claim_row env now k row needed t =
    if ltb needed row.shares
    then passed t
    else if env.down k
    then thrown (env.others k t)
    else if any (is_claimable row.id) (env.others k t)
    then claimed row.shares (mark_netted row.id now (env.others k t))
    else passed (env.others k t)

abbrev pub consumption : InventoryRow → ℕ → NettedConsumption
consumption row n = record {
  inventory_id = row.id;
  shares_consumed = n;
  avg_price_cents = row.avg_price_cents;
  polymarket_order_id = row.polymarket_order_id;
}

-- What the loop has come to: the rows consumed and the shares still needed, or a throw.
pub data Loop : Type 0 where
  done : List NettedConsumption → ℕ → Table → Loop
  broken : Table → Loop

abbrev pub consume : NettedConsumption → Loop → Loop
consume c (done cs remaining t) = done (c ∷ cs) remaining t
consume c (broken t) = broken t

-- The `for` over the candidates; `k` counts the database calls.
unfoldable pub net_rows : Interleaving → ℕ → ℕ → List InventoryRow → ℕ → Table → Loop
net_rows env now k [] remaining t = done [] remaining t
net_rows env now k (row ∷ rows) remaining t =
    let next : Loop = elim (try_claim_row env now k row remaining t) [
      | claimed n t' ↦
          consume (consumption row n) (net_rows env now (suc k) rows (remaining - n) t')
      | passed t' ↦ net_rows env now (suc k) rows remaining t'
      | thrown t' ↦ broken t'
    ] in
    if leb remaining 0 then done [] remaining t else next

abbrev pub netting_result : ℕ → Loop → Option NettingResult × Table
netting_result needed (done cs remaining t) = (
  some (record {
    consumed = cs;
    total_shares_netted = needed - remaining;
    remaining_shares = remaining;
  }),
  t,
)
netting_result needed (broken t) = (none, t)

-- `none` is a throw.
unfoldable pub net : Interleaving → ℕ → NettingTarget → Table → Option NettingResult × Table
net env now target t =
    if env.down 0
    then (none, t)
    else netting_result target.shares_needed
        (net_rows env now 1 (find_candidates target t) target.shares_needed t)
