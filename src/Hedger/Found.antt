-- ===== src/Hedger/Found.antt =====
-- The rows that the upserts and updates of apps/hedger/db/{fill,hedge}.ts leave for later lookups.
use highgarden.Base.{ℕ, ◌≡◌, refl, sym, subst, ◌∙◌, some, List, [], ◌∷◌, ◌==◌, update_where, arith}
use highgarden.Database.{FillRow}
use highgarden.Call.{◌>>=◌}
use highgarden.Call.Frame.{Returns}
use highgarden.Hedger.{
  Tables, HedgeServices, Query, HedgeRow, HedgeJob, HedgeDirection, shape_fill, find_by_nonce,
  find_by_fill_id, insert_fill_idempotent, create_hedge_idempotent, update_hedge, upsert_fill,
  upsert_hedge, create_fill_row, create_hedge_row, fill_row_of, hedge_row_of, side_from,
  outcome_from,
}

first_hedge : (r : HedgeRow) (hs : List HedgeRow) → find_by_fill_id r.fill_id (r ∷ hs) ≡ some r
unfolding find_by_fill_id
first_hedge r hs = ground arith

first_fill :
    (nonce : ℕ) (r : FillRow) (fs : List FillRow)
    → r.nonce ≡ some nonce
    → find_by_nonce nonce (r ∷ fs) ≡ shape_fill (some r)
unfolding find_by_nonce
first_fill nonce r fs e = ground arith

created_hedge :
    (r : HedgeRow) (w : Tables)
    → Returns
        (λ g v. (find_by_fill_id r.fill_id v.hedges ≡ some g) × (v.fills ≡ w.fills))
        (create_hedge_row r w)
created_hedge r w g h = let new = first_hedge r w.hedges in ground arith

created_fill :
    (nonce : ℕ) (r : FillRow) (w : Tables)
    → r.nonce ≡ some nonce
    → Returns
        (λ g v. (find_by_nonce nonce v.fills ≡ some g) × (v.hedges ≡ w.hedges))
        (create_fill_row r w)
created_fill nonce r w e g h = let new = first_fill nonce r w.fills e in ground arith

pub fill_kept :
    (sv : HedgeServices) (job : HedgeJob) (user market : ℕ) (w : Tables)
    → Returns
        (λ g v. (find_by_nonce job.nonce v.fills ≡ some g) × (v.hedges ≡ w.hedges))
        (upsert_fill sv job user market w)
unfolding upsert_fill insert_fill_idempotent ◌>>=◌
fill_kept sv job user market w g h =
    let new =
      created_fill job.nonce
        (fill_row_of w.next_id job user market (side_from job.side) (outcome_from job.outcome))
        (record w { fills = sv.rival_fills w.fills }) refl g in
    ground arith

pub hedge_kept :
    (sv : HedgeServices) (job : HedgeJob) (d : HedgeDirection) (f : FillRow) (w : Tables)
    → Returns
        (λ r v. (find_by_fill_id f.id v.hedges ≡ some r) × (v.fills ≡ w.fills))
        (upsert_hedge sv job d f w)
unfolding upsert_hedge create_hedge_idempotent ◌>>=◌
hedge_kept sv job d f w r h =
    let new =
      created_hedge (hedge_row_of w.next_id f.id job.nonce d f.size)
        (record w { hedges = sv.rival_hedges w.hedges }) r in
    ground arith

-- The hedge of the fill is there, under the id, and passes the test.
abbrev pub HedgeIs : ℕ → ℕ → (HedgeRow → Type 0) → Tables → Type 0
HedgeIs fill_id id P w =
    (row : HedgeRow) × (find_by_fill_id fill_id w.hedges ≡ some row) × (row.id ≡ id) × P row

find-update :
    (fill_id id : ℕ) (change : HedgeRow → HedgeRow) (hs : List HedgeRow) (row : HedgeRow)
    → ((r : HedgeRow) → (change r).fill_id ≡ r.fill_id)
    → find_by_fill_id fill_id hs ≡ some row
    → row.id ≡ id
    → find_by_fill_id fill_id (update_where (λ r. r.id == id) change hs) ≡ some (change row)
unfolding find_by_fill_id
find-update fill_id id change [] row keep e same = cc
find-update fill_id id change (x ∷ xs) row keep e same =
    let rest = find-update fill_id id change xs row keep in let kept = keep x in ground arith

updated_state :
    (sv : HedgeServices) (q : Query) (id : ℕ) (change : HedgeRow → HedgeRow) (w : Tables)
    → Returns
        (λ _ v. v ≡ record w { hedges = update_where (λ r. r.id == id) change w.hedges })
        (update_hedge sv q id change w)
unfolding update_hedge ◌>>=◌
updated_state sv q id change w a h = ground arith

-- An update that goes through changes the hedge of the id, and no fill.
pub updated :
    (sv : HedgeServices) (q : Query) (fill_id id : ℕ) (change : HedgeRow → HedgeRow)
    (P : HedgeRow → Type 0) (w : Tables)
    → ((r : HedgeRow) → ((change r).fill_id ≡ r.fill_id) × ((change r).id ≡ r.id) × P (change r))
    → HedgeIs fill_id id (λ _. Unit {0}) w
    → Returns (λ _ v. HedgeIs fill_id id P v × (v.fills ≡ w.fills)) (update_hedge sv q id change w)
updated sv q fill_id id change P w changes (row, there, same, _) a h =
    let now = updated_state sv q id change w a h in
    subst (λ (v : Tables). HedgeIs fill_id id P v × (v.fills ≡ w.fills)) (sym now)
      (
        (
          change row,
          find-update fill_id id change w.hedges row (λ r. (changes r).0) there same,
          (changes row).1 ∙ same,
          (changes row).2,
        ),
        refl,
      )
