-- ===== src/Netting/Claims.antt =====
-- What a run of apps/server/services/service.inventory-netter.ts does to the table by itself.
use highgarden.Base.{
  ℕ, suc, ◌-◌, ◌≡◌, refl, sym, subst, ◌∙◌, Bool, true, ◌&&◌, some, List, [], ◌∷◌, ◌==◌, any, All,
  All-mono, arith,
}
use highgarden.Database.{InventoryRow}
use highgarden.Netting.{
  NettingTarget, NettingResult, NettedConsumption, Table, Loop, done, broken, claimed, passed,
  alone, try_claim_row, net_rows, net, netting_result, consume, consumption, is_candidate,
  mark_netted, find_candidates,
}
use highgarden.Netting.Rule.{net_rows_cases}
use highgarden.Netting.Order.{find_candidates-any}

-- The consumption takes the whole row.
abbrev pub takes_whole : NettedConsumption → InventoryRow → Bool
takes_whole c r =
    r.id == c.inventory_id
    && r.shares == c.shares_consumed
    && r.avg_price_cents == c.avg_price_cents
    && r.polymarket_order_id == c.polymarket_order_id

-- The rows consumed are stamped, one after the other.
pub mark_all : ℕ → List NettedConsumption → Table → Table
mark_all now [] t = t
mark_all now (c ∷ cs) t = mark_all now cs (mark_netted c.inventory_id now t)

abbrev Exact : ℕ → List InventoryRow → Table → Loop → Type 0
Exact now rows t (done cs remaining t') =
    (t' ≡ mark_all now cs t) × All (λ c. any (takes_whole c) rows ≡ true) cs
Exact now rows t (broken t') = t' ≡ t'

claimed_exact :
    (now k : ℕ) (row : InventoryRow) (needed n : ℕ) (t t' : Table)
    → try_claim_row alone now k row needed t ≡ claimed n t'
    → (n ≡ row.shares) × (t' ≡ mark_netted row.id now t)
unfolding try_claim_row
claimed_exact now k row needed n t t' e = ground arith

passed_exact :
    (now k : ℕ) (row : InventoryRow) (needed : ℕ) (t t' : Table)
    → try_claim_row alone now k row needed t ≡ passed t'
    → t' ≡ t
unfolding try_claim_row
passed_exact now k row needed t t' e = ground arith

any-cons :
    (p : InventoryRow → Bool) (row : InventoryRow) (rows : List InventoryRow)
    → any p rows ≡ true
    → any p (row ∷ rows) ≡ true
any-cons p row rows h = ground arith

Exact-pass :
    (now : ℕ) (row : InventoryRow) (rows : List InventoryRow) (t t' : Table) (l : Loop)
    → t' ≡ t
    → Exact now rows t' l
    → Exact now (row ∷ rows) t l
Exact-pass now row rows t t' (done cs remaining u) e (same, from) =
    (rw e at same, All-mono (λ c. any-cons (takes_whole c) row rows) cs from)
Exact-pass now row rows t t' (broken u) e x = refl

Exact-consume :
    (now n : ℕ) (row : InventoryRow) (rows : List InventoryRow) (t t' : Table) (l : Loop)
    → n ≡ row.shares
    → t' ≡ mark_netted row.id now t
    → Exact now rows t' l
    → Exact now (row ∷ rows) t (consume (consumption row n) l)
unfolding mark_all
Exact-consume now n row rows t t' (done cs remaining u) en e (same, from) =
    (rw e at same, (ground arith, All-mono (λ c. any-cons (takes_whole c) row rows) cs from))
Exact-consume now n row rows t t' (broken u) en e x = refl

net_rows-Exact :
    (now k : ℕ) (rows : List InventoryRow) (remaining : ℕ) (t : Table)
    → Exact now rows t (net_rows alone now k rows remaining t)
unfolding net_rows mark_all
net_rows-Exact now k [] remaining t = (refl, tt)
net_rows-Exact now k (row ∷ rows) remaining t =
    net_rows_cases (Exact now (row ∷ rows) t) alone now k row rows remaining t (λ e. (refl, tt))
      (λ n t' e.
        let (whole, marked) = claimed_exact now k row remaining n t t' e in
        Exact-consume now n row rows t t' _ whole marked
          (net_rows-Exact now (suc k) rows (remaining - n) t'))
      (λ t' e.
        Exact-pass now row rows t t' _ (passed_exact now k row remaining t t' e)
          (net_rows-Exact now (suc k) rows remaining t'))
      (λ t' e. refl)

result-Exact :
    (now needed : ℕ) (target : NettingTarget) (t t' : Table) (l : Loop) (r : NettingResult)
    → Exact now (find_candidates target t) t l
    → netting_result needed l ≡ (some r, t')
    → (t' ≡ mark_all now r.consumed t)
      × All (λ c. any (λ row. is_candidate target row && takes_whole c row) t ≡ true) r.consumed
result-Exact now needed target t t' (done cs remaining u) r (same, from) h = (
  ground arith,
  subst (All (λ c. any (λ row. is_candidate target row && takes_whole c row) t ≡ true))
      (ground arith)
      (All-mono (λ c f. sym (find_candidates-any target (takes_whole c) t) ∙ f) cs from),
)
result-Exact now needed target t t' (broken u) r x h = ground arith

-- With no other request at work and the database up, the table after a run is the table before it
-- with exactly the consumed rows stamped as netted, and each of those was a whole row that matched
-- the target and was neither netted nor liquidated.
pub net-exact :
    (now : ℕ) (target : NettingTarget) (t t' : Table) (r : NettingResult)
    → net alone now target t ≡ (some r, t')
    → (t' ≡ mark_all now r.consumed t)
      × All (λ c. any (λ row. is_candidate target row && takes_whole c row) t ≡ true) r.consumed
unfolding net
net-exact now target t t' r h =
    result-Exact now target.shares_needed target t t' _ r
      (net_rows-Exact now 1 (find_candidates target t) target.shares_needed t) h
