-- ===== src/Netting/Race.antt =====
-- Many netters, the liquidator and the orchestrator on one inventory table: each change that they make
-- to it is a step (apps/server/services/service.inventory-netter.ts, service.trade-orchestrator.ts,
-- apps/hedger/inventory/liquidator.ts). The liquidator's `unclaim`, which takes its own stamp back, is
-- left out.
use highgarden.Base.{
  ℕ, ◌≡◌, refl, ◌≢◌, Bool, true, false, List, [], ◌∷◌, ◌==◌, any, All, All-mono, ap, ◌∙◌,
  update_where, arith,
}
use highgarden.Database.{InventoryRow}
use highgarden.Netting.{Table, is_free, is_claimable, mark_netted}

-- The table, and the claims that have gone through, newest first: which row, for which request.
pub record Shared : Type 0 where
  pub table : Table
  pub claims : List (ℕ × ℕ)

abbrev pub has_row : ℕ → Table → Bool
has_row id = any (λ r. r.id == id)

-- An update of a row's own columns that never takes a stamp back.
pub record Keeps (f : InventoryRow → InventoryRow) : Type 0 where
  pub same_id : (r : InventoryRow) → (f r).id ≡ r.id
  pub stays_taken : (r : InventoryRow) → is_free r ≡ false → is_free (f r) ≡ false

pub data Step : Shared → Shared → Type 0 where
  -- `try_claim_row`: the conditional update counts a row
  claim :
      (request id now : ℕ) (s : Shared)
      → any (is_claimable id) s.table ≡ true
      → Step s (record { table = mark_netted id now s.table; claims = (id, request) ∷ s.claims })
  -- the conditional update counts none
  miss :
      (id now : ℕ) (s : Shared)
      → any (is_claimable id) s.table ≡ false
      → Step s (record s { table = mark_netted id now s.table })
  -- any other update of rows: the liquidator's stamps, notes
  touch :
      (p : InventoryRow → Bool) (f : InventoryRow → InventoryRow) (s : Shared)
      → Keeps f
      → Step s (record s { table = update_where p f s.table })
  -- a new row, under a new id
  create :
      (r : InventoryRow) (s : Shared)
      → has_row r.id s.table ≡ false
      → Step s (record s { table = r ∷ s.table })

pub data Reach (s : Shared) : Shared → Type 0 where
  here : Reach s s
  next : {t u : Shared} → Reach s t → Step t u → Reach s u

-- No row's id stands twice.
abbrev pub Once : List (ℕ × ℕ) → Type 0
Once [] = Unit
Once ((id, request) ∷ cs) = All (λ c. c.0 ≢ id) cs × Once cs

-- A claimed row is there, and no longer claimable.
abbrev Taken : Table → ℕ × ℕ → Type 0
Taken t c = (has_row c.0 t ≡ true) × (any (is_claimable c.0) t ≡ false)

Inv : Shared → Type 0
Inv s = All (Taken s.table) s.claims × Once s.claims

mark-claimable :
    (id j now : ℕ) (t : Table)
    → any (is_claimable j) t ≡ false
    → any (is_claimable j) (mark_netted id now t) ≡ false
unfolding mark_netted
mark-claimable id j now [] h = refl
mark-claimable id j now (r ∷ t) h = ground (arith, mark-claimable id j now t)

mark-claimable_self :
    (id now : ℕ) (t : Table) → any (is_claimable id) (mark_netted id now t) ≡ false
unfolding mark_netted
mark-claimable_self id now [] = refl
mark-claimable_self id now (r ∷ t) = ground (arith, mark-claimable_self id now t)

mark-has_row : (id j now : ℕ) (t : Table) → has_row j (mark_netted id now t) ≡ has_row j t
unfolding mark_netted
mark-has_row id j now [] = refl
mark-has_row id j now (r ∷ t) = ground (arith, mark-has_row id j now t)

claimable-has_row : (id : ℕ) (t : Table) → any (is_claimable id) t ≡ true → has_row id t ≡ true
claimable-has_row id [] h = cc
claimable-has_row id (r ∷ t) h = ground (arith, claimable-has_row id t)

touch-claimable :
    (p : InventoryRow → Bool) (f : InventoryRow → InventoryRow) (j : ℕ) (t : Table)
    → Keeps f
    → any (is_claimable j) t ≡ false
    → any (is_claimable j) (update_where p f t) ≡ false
touch-claimable p f j [] k h = refl
touch-claimable p f j (r ∷ t) k h =
    ground (arith, touch-claimable p f j t k, k.same_id r, k.stays_taken r)

touch-has_row :
    (p : InventoryRow → Bool) (f : InventoryRow → InventoryRow) (j : ℕ) (t : Table)
    → Keeps f
    → has_row j (update_where p f t) ≡ has_row j t
touch-has_row p f j [] k = refl
touch-has_row p f j (r ∷ t) k = ground (arith, touch-has_row p f j t k, k.same_id r)

marked :
    (id now : ℕ) (t : Table) (cs : List (ℕ × ℕ))
    → All (Taken t) cs
    → All (Taken (mark_netted id now t)) cs
marked id now t = All-mono λ c w. (mark-has_row id c.0 now t ∙ w.0, mark-claimable id c.0 now t w.1)

created :
    (r : InventoryRow) (t : Table) (c : ℕ × ℕ)
    → has_row r.id t ≡ false
    → Taken t c
    → Taken (r ∷ t) c
created r t c h w = ground arith

Step-Inv : {s u : Shared} → Step s u → Inv s → Inv u
unfolding Inv
Step-Inv (claim request id now s h) v = (
  (
    (
      mark-has_row id id now s.table ∙ claimable-has_row id s.table h,
      mark-claimable_self id now s.table,
    ),
    marked id now s.table s.claims v.0,
  ),
  (All-mono (λ c w e. cc (ap (λ (j : ℕ). any (is_claimable j) s.table) e)) s.claims v.0, v.1),
)
Step-Inv (miss id now s h) v = (marked id now s.table s.claims v.0, v.1)
Step-Inv (touch p f s k) v = (
  All-mono (λ c w. (touch-has_row p f c.0 s.table k ∙ w.0, touch-claimable p f c.0 s.table k w.1))
      s.claims v.0,
  v.1,
)
Step-Inv (create r s h) v = (All-mono (λ c w. created r s.table c h w) s.claims v.0, v.1)

Reach-Inv : {s u : Shared} → Reach s u → Inv s → Inv u
Reach-Inv here v = v
Reach-Inv (next r st) v = Step-Inv st (Reach-Inv r v)

-- From a table on which nothing has been claimed, in every interleaving of claims by any number of
-- requests with new rows and with updates that take no stamp back, no row is claimed twice.
pub claimed-Once :
    (t : Table) (s : Shared) → Reach (record { table = t; claims = [] }) s → Once s.claims
unfolding Inv
claimed-Once t s r = (Reach-Inv r (tt, tt)).1
