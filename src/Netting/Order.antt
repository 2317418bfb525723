-- ===== src/Netting/Order.antt =====
-- The candidates of apps/server/services/service.inventory-netter.ts: which rows, and in which order.
use mathlib.Core.List.Perm
use mathlib.Core.List.{Perm}
use highgarden.Base.{
  ◌≤◌, ◌≡◌, ◌∙◌, ◌↔◌, refl, Bool, true, false, ◌&&◌, not, Option, none, some, is_some, [], ◌∷◌,
  ◌++◌, ◌==◌, ==_iff, both_hold, All, All-mono, any, select, leb, Bool-cases, inl, inr, arith,
}
use highgarden.Database.{
  InventoryRow, Side, buy, sell, side_eq, Outcome, yes_outcome, no_outcome, outcome_eq,
}
use highgarden.Netting.{
  NettingTarget, Table, insert_by_created, sort_by_created, find_candidates, is_candidate, is_free,
}

-- Oldest first.
abbrev pub IsByAge : Table → Type 0
IsByAge [] = Unit
IsByAge (r ∷ rs) = All (λ s. r.created_at ≤ s.created_at) rs × IsByAge rs

module _ (P : InventoryRow → Type 0) where
  insert-All : (r : InventoryRow) (rs : Table) → P r → All P rs → All P (insert_by_created r rs)
  unfolding insert_by_created
  insert-All r [] h a = (h, tt)
  insert-All r (x ∷ rs) h a = elim (Bool-cases (leb r.created_at x.created_at)) [
    | inl e ↦ rw e (h, a)
    | inr e ↦ rw e (a.0, insert-All r rs h a.1)
  ]

  sort-All : (t : Table) → All P t → All P (sort_by_created t)
  unfolding sort_by_created
  sort-All [] a = tt
  sort-All (r ∷ t) a = insert-All r (sort_by_created t) a.0 (sort-All t a.1)

insert-IsByAge : (r : InventoryRow) (rs : Table) → IsByAge rs → IsByAge (insert_by_created r rs)
unfolding insert_by_created
insert-IsByAge r [] a = (tt, tt)
insert-IsByAge r (x ∷ rs) a = elim (Bool-cases (leb r.created_at x.created_at)) [
  | inl e ↦
      let first : r.created_at ≤ x.created_at = ground arith in
      rw e ((first, All-mono (λ s h. omega arith) rs a.0), a)
  | inr e ↦
      let first : x.created_at ≤ r.created_at = ground arith in
      rw e (insert-All (λ s. x.created_at ≤ s.created_at) r rs first a.0, insert-IsByAge r rs a.1)
]

sort-IsByAge : (t : Table) → IsByAge (sort_by_created t)
unfolding sort_by_created
sort-IsByAge [] = tt
sort-IsByAge (r ∷ t) = insert-IsByAge r (sort_by_created t) (sort-IsByAge t)

insert-perm : (r : InventoryRow) (rs : Table) → Perm (insert_by_created r rs) (r ∷ rs)
unfolding insert_by_created
insert-perm r [] = Perm.refl (r ∷ [])
insert-perm r (x ∷ rs) = elim (Bool-cases (leb r.created_at x.created_at)) [
  | inl e ↦ rw e (Perm.refl (r ∷ x ∷ rs))
  | inr e ↦ rw e (Perm.trans (Perm.cons x (insert-perm r rs)) (Perm.swap r x rs))
]

sort-perm : (t : Table) → Perm (sort_by_created t) t
unfolding sort_by_created
sort-perm [] = Perm.refl []
sort-perm (r ∷ t) = Perm.trans (insert-perm r (sort_by_created t)) (Perm.cons r (sort-perm t))

-- A row of the target's market, side and outcome that is neither netted nor liquidated.
abbrev pub IsOffered : NettingTarget → InventoryRow → Type 0
IsOffered target r =
    (r.market_id ≡ target.market_id)
    × (r.side ≡ target.polymarket_side)
    × (r.outcome ≡ target.outcome)
    × (r.netted_at ≡ none)
    × (r.liquidated_at ≡ none)

same_side : (a b : Side) → (side_eq a b ≡ true) ↔ (a ≡ b)
same_side buy buy = (λ e. refl, λ e. refl)
same_side sell sell = (λ e. refl, λ e. refl)
same_side buy sell = (λ e. cc, λ e. cc)
same_side sell buy = (λ e. cc, λ e. cc)

same_outcome : (a b : Outcome) → (outcome_eq a b ≡ true) ↔ (a ≡ b)
same_outcome yes_outcome yes_outcome = (λ e. refl, λ e. refl)
same_outcome no_outcome no_outcome = (λ e. refl, λ e. refl)
same_outcome yes_outcome no_outcome = (λ e. cc, λ e. cc)
same_outcome no_outcome yes_outcome = (λ e. cc, λ e. cc)

is_empty : {A : Type 0} (o : Option A) → (not (is_some o) ≡ true) ↔ (o ≡ none)
is_empty none = (λ e. refl, λ e. refl)
is_empty (some a) = (λ e. cc, λ e. cc)

candidate_iff :
    (target : NettingTarget) (r : InventoryRow)
    → (is_candidate target r ≡ true) ↔ IsOffered target r
candidate_iff target r = (
  λ h.
      let of_market = r.market_id == target.market_id in
      let of_side = side_eq r.side target.polymarket_side in
      let (h₁, free) =
        both_hold (of_market && of_side && outcome_eq r.outcome target.outcome) (is_free r) h in
      let (h₂, o) = both_hold (of_market && of_side) (outcome_eq r.outcome target.outcome) h₁ in
      let (m, s) = both_hold of_market of_side h₂ in
      let (n, l) = both_hold (not (is_some r.netted_at)) (not (is_some r.liquidated_at)) free in
      (
        (==_iff r.market_id target.market_id).0 m,
        (same_side r.side target.polymarket_side).0 s,
        (same_outcome r.outcome target.outcome).0 o,
        (is_empty r.netted_at).0 n,
        (is_empty r.liquidated_at).0 l,
      ),
  λ (m, s, o, n, l).
      rw
        (
          (==_iff r.market_id target.market_id).1 m,
          (same_side r.side target.polymarket_side).1 s,
          (same_outcome r.outcome target.outcome).1 o,
          (is_empty r.netted_at).1 n,
          (is_empty r.liquidated_at).1 l,
        )
        refl,
)

middle : (xs : Table) (r : InventoryRow) (ys : Table) → Perm (xs ++ (r ∷ ys)) (r ∷ (xs ++ ys))
middle [] r ys = Perm.refl (r ∷ ys)
middle (x ∷ xs) r ys = Perm.trans (Perm.cons x (middle xs r ys)) (Perm.swap r x (xs ++ ys))

-- The rows that are offered, and the others.
never_both : (b : Bool) → b ≡ true → b ≡ false → ⊥
never_both b h k = cc

split :
    (target : NettingTarget) (t : Table)
    → Perm t (select (is_candidate target) t ++ select (λ r. not (is_candidate target r)) t)
      × All (IsOffered target) (select (is_candidate target) t)
      × All (λ r. ¬ IsOffered target r) (select (λ r. not (is_candidate target r)) t)
split target [] = (Perm.refl [], tt, tt)
split target (r ∷ t) =
    let (whole, offered, others) = split target t in
    let these = select (is_candidate target) t in
    let those = select (λ r. not (is_candidate target r)) t in
    elim (Bool-cases (is_candidate target r)) [
      | inl e ↦ rw e (Perm.cons r whole, ((candidate_iff target r).0 e, offered), others)
      | inr e ↦ rw e (
        Perm.trans (Perm.cons r whole) (Perm.symm (middle these r those)),
        offered,
        (λ h. never_both (is_candidate target r) ((candidate_iff target r).1 h) e, others),
      )
    ]

-- The table is, up to order, the candidates and other rows. The candidates come oldest first, and each is of the
-- target's market, side and outcome and neither netted nor liquidated; of the other rows none is.
pub find_candidates-IsByAge :
    (target : NettingTarget) (t : Table)
    → (rest : Table) × Perm t (find_candidates target t ++ rest)
      × IsByAge (find_candidates target t)
      × All (IsOffered target) (find_candidates target t)
      × All (λ r. ¬ IsOffered target r) rest
unfolding find_candidates
find_candidates-IsByAge target t =
    let (whole, offered, others) = split target t in
    let these = select (is_candidate target) t in
    let those = select (λ r. not (is_candidate target r)) t in
    (
      those,
      Perm.trans whole (Perm.append_right those (Perm.symm (sort-perm these))),
      sort-IsByAge these,
      sort-All (IsOffered target) these offered,
      others,
    )

insert-any :
    (p : InventoryRow → Bool) (r : InventoryRow) (rs : Table)
    → any p (insert_by_created r rs) ≡ any p (r ∷ rs)
unfolding insert_by_created
insert-any p r [] = ground arith
insert-any p r (x ∷ rs) = ground (arith, insert-any p r rs)

sort-any : (p : InventoryRow → Bool) (t : Table) → any p (sort_by_created t) ≡ any p t
unfolding sort_by_created
sort-any p [] = ground arith
sort-any p (r ∷ t) = ground (arith, insert-any p r (sort_by_created t), sort-any p t)

select-any : (q p : InventoryRow → Bool) (t : Table) → any p (select q t) ≡ any (λ r. q r && p r) t
select-any q p [] = ground arith
select-any q p (r ∷ t) = ground (arith, select-any q p t)

pub find_candidates-any :
    (target : NettingTarget) (p : InventoryRow → Bool) (t : Table)
    → any p (find_candidates target t) ≡ any (λ r. is_candidate target r && p r) t
unfolding find_candidates
find_candidates-any target p t =
    sort-any p (select (is_candidate target) t) ∙ select-any (is_candidate target) p t
