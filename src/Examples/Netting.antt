-- ===== src/Examples/Netting.antt =====
-- The netter at a stock of one row: apps/server/services/service.inventory-netter.ts.
use highgarden.Base.{All, ◌++◌, ◌≡◌, refl, true, ◌&&◌, some, [], ◌∷◌, ◌+◌, sum_by, All, any}
use mathlib.Core.List.{Perm}
use highgarden.Netting.{
  net, alone, NettingResult, Table, is_candidate, find_candidates, mark_netted, net_rows,
  sort_by_created, insert_by_created, try_claim_row,
}
use highgarden.Netting.Accounting.{net-accounts}
use highgarden.Netting.Claims.{net-exact, mark_all, takes_whole}
use highgarden.Netting.Order.{IsByAge, IsOffered, find_candidates-IsByAge}
use highgarden.Netting.Race.{Shared, Reach, here, next, claim, Once, claimed-Once}
use highgarden.Netting.Refines.{AreSteps, Holds, net-Reach}
use highgarden.Examples.{stock, target, orphan_one}

abbrev consumed_all : NettingResult
consumed_all = record {
  consumed =
      (record {
        inventory_id = 30;
        shares_consumed = 6;
        avg_price_cents = 40;
        polymarket_order_id = 31;
      })
      ∷ [];
  total_shares_netted = 6;
  remaining_shares = 4;
}

-- The stock after it.
abbrev stamped : Table
stamped = record orphan_one { netted_at = some 700 } ∷ []

net-accounts_example :
    (sum_by (λ c. c.shares_consumed) consumed_all.consumed ≡ consumed_all.total_shares_netted)
    × (consumed_all.total_shares_netted + consumed_all.remaining_shares ≡ target.shares_needed)
unfolding net net_rows find_candidates sort_by_created insert_by_created try_claim_row mark_netted
net-accounts_example = net-accounts alone 700 target stock consumed_all refl

net-exact_example :
    (stamped ≡ mark_all 700 consumed_all.consumed stock)
    × All
        (λ c. any (λ row. is_candidate target row && takes_whole c row) stock ≡ true)
        consumed_all.consumed
unfolding net net_rows find_candidates sort_by_created insert_by_created try_claim_row mark_netted
net-exact_example = net-exact 700 target stock stamped consumed_all refl

find_candidates-IsByAge_example :
    (rest : _) × Perm stock (find_candidates target stock ++ rest)
    × IsByAge (find_candidates target stock)
    × All (IsOffered target) (find_candidates target stock)
    × All (λ r. ¬ IsOffered target r) rest
find_candidates-IsByAge_example = find_candidates-IsByAge target stock

-- Request 1 claims the row.
abbrev one_claim :
    Reach
      (record { table = stock; claims = [] })
      (record { table = mark_netted 30 700 stock; claims = (30, 1) ∷ [] })
one_claim = next here (claim 1 30 700 (record { table = stock; claims = [] }) refl)

claimed-Once_example : Once ((30, 1) ∷ [])
claimed-Once_example =
    claimed-Once stock (record { table = mark_netted 30 700 stock; claims = (30, 1) ∷ [] })
      one_claim

nobody_else : AreSteps alone.others
nobody_else k s = (s, here, refl)

abbrev unclaimed : Shared
unclaimed = record { table = stock; claims = [] }

net-Reach_example :
    (u : Shared) × Reach unclaimed u
    × (u.table ≡ (net alone 700 target stock).1)
    × All (Holds 1 u.claims) consumed_all.consumed
unfolding net net_rows find_candidates sort_by_created insert_by_created try_claim_row mark_netted
net-Reach_example = net-Reach 1 700 alone target unclaimed consumed_all nobody_else refl
