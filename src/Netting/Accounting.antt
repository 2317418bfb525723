-- ===== src/Netting/Accounting.antt =====
-- The shares that a run of apps/server/services/service.inventory-netter.ts reports.
use highgarden.Base.{ℕ, suc, ◌+◌, ◌-◌, ◌≤◌, ◌≡◌, some, List, [], ◌∷◌, arith, sum_by}
use highgarden.Database.{InventoryRow}
use highgarden.Netting.{
  NettingTarget, NettingResult, Interleaving, Table, Loop, done, broken, claimed, try_claim_row,
  net_rows, net, netting_result, consume, consumption, find_candidates, NettedConsumption,
}
use highgarden.Netting.Rule.{net_rows_cases}

abbrev pub Accounts : ℕ → Loop → Type 0
Accounts needed (done cs remaining t) = sum_by (λ c. c.shares_consumed) cs + remaining ≡ needed
Accounts needed (broken t) = Unit

-- A claim takes no more than is needed.
claimed-le :
    (env : Interleaving) (now k : ℕ) (row : InventoryRow) (needed : ℕ) (t t' : Table) (n : ℕ)
    → try_claim_row env now k row needed t ≡ claimed n t'
    → n ≤ needed
unfolding try_claim_row
claimed-le env now k row needed t t' n h = ground arith

consume-Accounts :
    (c : NettedConsumption) (needed : ℕ) (l : Loop)
    → c.shares_consumed ≤ needed
    → Accounts (needed - c.shares_consumed) l
    → Accounts needed (consume c l)
consume-Accounts c needed (done cs remaining t) h a = omega arith
consume-Accounts c needed (broken t) h a = tt

net_rows-Accounts :
    (env : Interleaving) (now k : ℕ) (rows : List InventoryRow) (remaining : ℕ) (t : Table)
    → Accounts remaining (net_rows env now k rows remaining t)
unfolding net_rows
net_rows-Accounts env now k [] remaining t = omega arith
net_rows-Accounts env now k (row ∷ rows) remaining t =
    net_rows_cases (Accounts remaining) env now k row rows remaining t (λ e. omega arith)
      (λ n t' e.
        consume-Accounts (consumption row n) remaining _
          (claimed-le env now k row remaining t t' n e)
          (net_rows-Accounts env now (suc k) rows (remaining - n) t'))
      (λ t' e. net_rows-Accounts env now (suc k) rows remaining t') (λ t' e. tt)

result-Accounts :
    (needed : ℕ) (l : Loop) (r : NettingResult)
    → Accounts needed l
    → (netting_result needed l).0 ≡ some r
    → (sum_by (λ c. c.shares_consumed) r.consumed ≡ r.total_shares_netted)
      × (r.total_shares_netted + r.remaining_shares ≡ needed)
result-Accounts needed (done cs remaining t) r a h = ground arith
result-Accounts needed (broken t) r a h = cc

-- Whatever other requests do meanwhile, and however the claims go: a run that returns reports as
-- netted exactly the shares of the rows that it consumed, and as remaining exactly the rest of what
-- was needed; so it never takes more than was needed.
pub net-accounts :
    (env : Interleaving) (now : ℕ) (target : NettingTarget) (t : Table) (r : NettingResult)
    → (net env now target t).0 ≡ some r
    → (sum_by (λ c. c.shares_consumed) r.consumed ≡ r.total_shares_netted)
      × (r.total_shares_netted + r.remaining_shares ≡ target.shares_needed)
unfolding net
net-accounts env now target t r h =
    let needed = target.shares_needed in
    let loop = net_rows env now 1 (find_candidates target t) needed t in
    ground (
      arith,
      result-Accounts needed loop r
          (net_rows-Accounts env now 1 (find_candidates target t) needed t),
    )
