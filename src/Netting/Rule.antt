-- ===== src/Netting/Rule.antt =====
-- The rule for inductions over the netter's loop: one case for each way a round can go.
use highgarden.Base.{ℕ, suc, ◌-◌, ◌≡◌, refl, ◌⊎◌, inl, inr, true, List, [], ◌∷◌, leb, Bool-cases}
use highgarden.Database.{InventoryRow}
use highgarden.Netting.{
  Interleaving, Table, Loop, done, broken, ClaimReply, claimed, passed, thrown, try_claim_row,
  net_rows, consume, consumption,
}

pub ClaimReply-cases :
    (r : ClaimReply)
    → ((n : ℕ) × (t : Table) × (r ≡ claimed n t))
      ⊎ (((t : Table) × (r ≡ passed t)) ⊎ ((t : Table) × (r ≡ thrown t)))
ClaimReply-cases (claimed n t) = inl (n, t, refl)
ClaimReply-cases (passed t) = inr (inl (t, refl))
ClaimReply-cases (thrown t) = inr (inr (t, refl))

pub net_rows_cases :
    (P : Loop → Type 0) (env : Interleaving) (now k : ℕ) (row : InventoryRow)
    (rows : List InventoryRow) (remaining : ℕ) (t : Table)
    → (leb remaining 0 ≡ true → P (done [] remaining t))
    → ((n : ℕ) (t' : Table)
        → try_claim_row env now k row remaining t ≡ claimed n t'
        → P (consume (consumption row n) (net_rows env now (suc k) rows (remaining - n) t')))
    → ((t' : Table)
        → try_claim_row env now k row remaining t ≡ passed t'
        → P (net_rows env now (suc k) rows remaining t'))
    → ((t' : Table) → try_claim_row env now k row remaining t ≡ thrown t' → P (broken t'))
    → P (net_rows env now k (row ∷ rows) remaining t)
unfolding net_rows
net_rows_cases P env now k row rows remaining t stop took pass throw =
    elim (Bool-cases (leb remaining 0)) [
      | inl e ↦ rw e (stop e)
      | inr e ↦ elim (ClaimReply-cases (try_claim_row env now k row remaining t)) [
        | inl (n, t', r) ↦ rw (e, r) (took n t' r)
        | inr (inl (t', r)) ↦ rw (e, r) (pass t' r)
        | inr (inr (t', r)) ↦ rw (e, r) (throw t' r)
      ]
    ]
