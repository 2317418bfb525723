-- ===== src/Liquidator/Stamps.antt =====
-- What the updates of apps/hedger/inventory/liquidator.ts do to a row that carries its stamp.
use highgarden.Base.{
  ℕ, ◌≡◌, ◌≢◌, refl, Bool, true, false, not, ◌&&◌, [], ◌∷◌, ◌==◌, any, is_some, arith,
}
use highgarden.Database.{InventoryRow}
use highgarden.Netting.{Table, is_claimable, mark_netted}
use highgarden.Liquidator.{mark_liquidated, mark_unliquidated}

-- A row of this id that is stamped as liquidated, and not netted.
abbrev pub is_owned : ℕ → InventoryRow → Bool
is_owned id r = r.id == id && (is_some r.liquidated_at && not (is_some r.netted_at))

-- The liquidator has the row, and nobody can claim it.
abbrev pub Owned : ℕ → Table → Type 0
Owned id t = (any (is_owned id) t ≡ true) × (any (is_claimable id) t ≡ false)

claim_owns :
    (id now : ℕ) (t : Table)
    → any (is_claimable id) t ≡ true
    → any (is_owned id) (mark_liquidated id now t) ≡ true
claim_owns id now [] h = cc
claim_owns id now (r ∷ t) h = let rest = claim_owns id now t in ground arith

claim_closes : (id now : ℕ) (t : Table) → any (is_claimable id) (mark_liquidated id now t) ≡ false
claim_closes id now [] = refl
claim_closes id now (r ∷ t) = let rest = claim_closes id now t in ground arith

-- The liquidator's own updates of other rows, and the netting's claims.
claim_keeps_owned :
    (id other now : ℕ) (t : Table)
    → any (is_owned id) t ≡ true
    → any (is_owned id) (mark_liquidated other now t) ≡ true
claim_keeps_owned id other now [] h = cc
claim_keeps_owned id other now (r ∷ t) h =
    let rest = claim_keeps_owned id other now t in ground arith

claim_keeps_closed :
    (id other now : ℕ) (t : Table)
    → any (is_claimable id) t ≡ false
    → any (is_claimable id) (mark_liquidated other now t) ≡ false
claim_keeps_closed id other now [] h = refl
claim_keeps_closed id other now (r ∷ t) h =
    let rest = claim_keeps_closed id other now t in ground arith

unclaim_keeps_owned :
    (id other : ℕ) (t : Table)
    → other ≢ id
    → any (is_owned id) t ≡ true
    → any (is_owned id) (mark_unliquidated other t) ≡ true
unclaim_keeps_owned id other [] ne h = cc
unclaim_keeps_owned id other (r ∷ t) ne h =
    let rest = unclaim_keeps_owned id other t ne in ground arith

unclaim_keeps_closed :
    (id other : ℕ) (t : Table)
    → other ≢ id
    → any (is_claimable id) t ≡ false
    → any (is_claimable id) (mark_unliquidated other t) ≡ false
unclaim_keeps_closed id other [] ne h = refl
unclaim_keeps_closed id other (r ∷ t) ne h =
    let rest = unclaim_keeps_closed id other t ne in ground arith

netting_keeps_owned :
    (id other now : ℕ) (t : Table)
    → any (is_owned id) t ≡ true
    → any (is_owned id) (mark_netted other now t) ≡ true
unfolding mark_netted
netting_keeps_owned id other now [] h = cc
netting_keeps_owned id other now (r ∷ t) h =
    let rest = netting_keeps_owned id other now t in ground arith

netting_keeps_closed :
    (id other now : ℕ) (t : Table)
    → any (is_claimable id) t ≡ false
    → any (is_claimable id) (mark_netted other now t) ≡ false
unfolding mark_netted
netting_keeps_closed id other now [] h = refl
netting_keeps_closed id other now (r ∷ t) h =
    let rest = netting_keeps_closed id other now t in ground arith

pub Owned-claimed :
    (id now : ℕ) (t : Table) → any (is_claimable id) t ≡ true → Owned id (mark_liquidated id now t)
Owned-claimed id now t h = (claim_owns id now t h, claim_closes id now t)

pub Owned-mark_liquidated :
    (id other now : ℕ) (t : Table) → Owned id t → Owned id (mark_liquidated other now t)
Owned-mark_liquidated id other now t h =
    (claim_keeps_owned id other now t h.0, claim_keeps_closed id other now t h.1)

pub Owned-mark_unliquidated :
    (id other : ℕ) (t : Table) → other ≢ id → Owned id t → Owned id (mark_unliquidated other t)
Owned-mark_unliquidated id other t ne h =
    (unclaim_keeps_owned id other t ne h.0, unclaim_keeps_closed id other t ne h.1)

-- The netting leaves the liquidator's rows alone.
pub Owned-mark_netted :
    (id other now : ℕ) (t : Table) → Owned id t → Owned id (mark_netted other now t)
Owned-mark_netted id other now t h =
    (netting_keeps_owned id other now t h.0, netting_keeps_closed id other now t h.1)
