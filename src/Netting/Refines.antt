-- ===== src/Netting/Refines.antt =====
-- A run of apps/server/services/service.inventory-netter.ts among the steps of Netting/Race.
use highgarden.Base.{
  ℕ, suc, ◌-◌, ◌≡◌, ◌⊎◌, inl, inr, refl, sym, subst, ap, ◌∙◌, true, ◌&&◌, Option, none, some, List,
  [], ◌∷◌, ◌==◌, any, All, Bool-cases, arith,
}
use highgarden.Database.{InventoryRow}
use highgarden.Netting.{
  NettingTarget, NettingResult, NettedConsumption, Interleaving, Table, Loop, done, broken, claimed,
  passed, thrown, try_claim_row, net_rows, net, netting_result, consume, consumption, is_claimable,
  mark_netted, find_candidates,
}
use highgarden.Netting.Rule.{net_rows_cases}
use highgarden.Netting.Race.{Shared, Step, claim, miss, touch, create, Reach, here, next}

Reach-trans : {s t u : Shared} → Reach s t → Reach t u → Reach s u
Reach-trans r here = r
Reach-trans r (next q st) = next (Reach-trans r q) st

-- The request holds the claim on the row.
abbrev pub Holds : ℕ → List (ℕ × ℕ) → NettedConsumption → Type 0
Holds request claims c = any (λ e. e.0 == c.inventory_id && e.1 == request) claims ≡ true

Step-Holds :
    {s u : Shared}
    → Step s u
    → (request : ℕ) (c : NettedConsumption) → Holds request s.claims c
    → Holds request u.claims c
Step-Holds (claim other id now s e) request c h = ground arith
Step-Holds (miss id now s e) request c h = h
Step-Holds (touch p f s k) request c h = h
Step-Holds (create r s e) request c h = h

Reach-Holds :
    {s u : Shared}
    → Reach s u
    → (request : ℕ) (c : NettedConsumption) → Holds request s.claims c
    → Holds request u.claims c
Reach-Holds here request c h = h
Reach-Holds (next r st) request c h = Step-Holds st request c (Reach-Holds r request c h)

-- What the other requests do is a run of steps.
abbrev pub AreSteps : (ℕ → Table → Table) → Type 0
AreSteps others = (k : ℕ) (s : Shared) → (u : Shared) × Reach s u × (u.table ≡ others k s.table)

-- The run from `s` ends in the loop's table, and holds the claims on what the loop consumed.
abbrev Realises : ℕ → Shared → Loop → Type 0
Realises request s (done cs remaining t) =
    (u : Shared) × Reach s u × (u.table ≡ t) × All (Holds request u.claims) cs
Realises request s (broken t) = (u : Shared) × Reach s u × (u.table ≡ t)

-- More steps before a loop.
Realises-after :
    (request : ℕ) (s u : Shared) (l : Loop)
    → Reach s u
    → Realises request u l
    → Realises request s l
Realises-after request s u (done cs remaining t) r (w, q, e, a) = (w, Reach-trans r q, e, a)
Realises-after request s u (broken t) r (w, q, e) = (w, Reach-trans r q, e)

Realises-consume :
    (request : ℕ) (s : Shared) (c : NettedConsumption) (l : Loop)
    → Holds request s.claims c
    → Realises request s l
    → Realises request s (consume c l)
Realises-consume request s c (done cs remaining t) h (w, q, e, a) =
    (w, q, e, (Reach-Holds q request c h, a))
Realises-consume request s c (broken t) h (w, q, e) = (w, q, e)

module _ (env : Interleaving) (now k : ℕ) (row : InventoryRow) (needed : ℕ) (t t' : Table) where
  claimed_facts :
      (n : ℕ)
      → try_claim_row env now k row needed t ≡ claimed n t'
      → (any (is_claimable row.id) (env.others k t) ≡ true)
        × (t' ≡ mark_netted row.id now (env.others k t))
  unfolding try_claim_row
  claimed_facts n e = ground arith

  passed_facts : try_claim_row env now k row needed t ≡ passed t' → (t' ≡ t) ⊎ (t' ≡ env.others k t)
  unfolding try_claim_row
  passed_facts e = ground arith

  thrown_facts : try_claim_row env now k row needed t ≡ thrown t' → t' ≡ env.others k t
  unfolding try_claim_row
  thrown_facts e = ground arith

module _ (request now : ℕ) (env : Interleaving) (steps : AreSteps env.others) where
  claimed-Reach :
      (k : ℕ) (row : InventoryRow) (needed n : ℕ) (t' : Table) (s : Shared)
      → try_claim_row env now k row needed s.table ≡ claimed n t'
      → (u : Shared) × Reach s u × (u.table ≡ t') × Holds request u.claims (consumption row n)
  claimed-Reach k row needed n t' s e =
      let (v, r, same) = steps k s in
      let (free, marked) = claimed_facts env now k row needed s.table t' n e in
      (
        record { table = mark_netted row.id now v.table; claims = (row.id, request) ∷ v.claims },
        next r (claim request row.id now v (rw same free)),
        rw same (sym marked),
        ground arith,
      )

  passed-Reach :
      (k : ℕ) (row : InventoryRow) (needed : ℕ) (t' : Table) (s : Shared)
      → try_claim_row env now k row needed s.table ≡ passed t'
      → (u : Shared) × Reach s u × (u.table ≡ t')
  passed-Reach k row needed t' s e = elim (passed_facts env now k row needed s.table t' e) [
    | inl same ↦ (s, here, sym same)
    | inr moved ↦ let (v, r, same) = steps k s in (v, r, same ∙ sym moved)
  ]

  net_rows-Realises :
      (k : ℕ) (rows : List InventoryRow) (remaining : ℕ) (s : Shared) (t : Table)
      → s.table ≡ t
      → Realises request s (net_rows env now k rows remaining t)
  unfolding net_rows
  net_rows-Realises k [] remaining s t same = (s, here, same, tt)
  net_rows-Realises k (row ∷ rows) remaining s t same =
      net_rows_cases (Realises request s) env now k row rows remaining t (λ e. (s, here, same, tt))
        (λ n t' e.
          let (u, r, at, held) = claimed-Reach k row remaining n t' s (rw same e) in
          Realises-after request s u _ r (
            Realises-consume request u (consumption row n) _ held
              (net_rows-Realises (suc k) rows (remaining - n) u t' at)))
        (λ t' e.
          let (u, r, at) = passed-Reach k row remaining t' s (rw same e) in
          Realises-after request s u _ r (net_rows-Realises (suc k) rows remaining u t' at))
        (λ t' e.
          let (u, r, at) = steps k s in
          (u, r, at ∙ ap (env.others k) same ∙ sym (thrown_facts env now k row remaining t t' e)))

none-some : (r : NettingResult) → ◌≡◌ {A = Option NettingResult} none (some r) → ⊥
none-some r h = cc

result-Reach :
    (request needed : ℕ) (s : Shared) (l : Loop) (r : NettingResult)
    → Realises request s l
    → (netting_result needed l).0 ≡ some r
    → (u : Shared) × Reach s u
      × (u.table ≡ (netting_result needed l).1)
      × All (Holds request u.claims) r.consumed
result-Reach request needed s (done cs remaining t) r (u, q, at, held) h =
    (u, q, at, subst (All (Holds request u.claims)) (ground arith) held)
result-Reach request needed s (broken t) r real h = cc

-- If what the other requests do between this run's calls is itself made of the steps of
-- Netting/Race, then so is the run together with them: the table it leaves is reached by steps, and
-- in them this request has claimed every row that it reports as consumed. (With `claimed-Once`, no
-- two requests ever consume one row.)
pub net-Reach :
    (request now : ℕ) (env : Interleaving) (target : NettingTarget) (s : Shared) (r : NettingResult)
    → AreSteps env.others
    → (net env now target s.table).0 ≡ some r
    → (u : Shared) × Reach s u
      × (u.table ≡ (net env now target s.table).1)
      × All (Holds request u.claims) r.consumed
unfolding net
net-Reach request now env target s r steps h = elim (Bool-cases (env.down 0)) [
  | inl e ↦ absurd (none-some r (rw e at h))
  | inr e ↦
      let needed = target.shares_needed in
      rw e (
        result-Reach request needed s _ r
          (net_rows-Realises request now env steps 1 (find_candidates target s.table) needed s
            s.table refl)
          (rw e at h))
]
