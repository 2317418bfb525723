-- ===== src/Hedger/Drift.antt =====
-- What is still to be put right while boot recovery goes over the rows that it read: apps/hedger/hedger/index.ts.
use highgarden.Base.{
  ℕ, ◌≤◌, ◌≡◌, refl, sym, ap, subst, Bool, false, List, [], ◌∷◌, ◌==◌, ==_iff, select, All,
  All-mono, arith, Bool-cases, inl, inr, ◌⊎◌, if◌then◌else◌,
}
use highgarden.Base.Int.{ℤ, ◌-ℤ◌, abs}
use highgarden.Database.{pending}
use highgarden.Hedger.{HedgeRow, Exposure, is_hedging, reset_to_pending, set_unhedged_usd}

-- A row is not in HEDGING, or is one of those still to be reset.
abbrev pub Listed : List HedgeRow → HedgeRow → Type 0
Listed [] r = is_hedging r.status ≡ false
Listed (s ∷ ss) r = (s.id ≡ r.id) ⊎ Listed ss r

idle-Listed : (ss : List HedgeRow) (r : HedgeRow) → is_hedging r.status ≡ false → Listed ss r
idle-Listed [] r h = h
idle-Listed (s ∷ ss) r h = inr (idle-Listed ss r h)

pub select-Listed : (hs : List HedgeRow) → All (Listed (select (λ r. is_hedging r.status) hs)) hs
select-Listed [] = tt
select-Listed (x ∷ hs) =
    let stuck = select (λ r. is_hedging r.status) hs in
    let rest = select-Listed hs in
    let branch = λ (b : Bool). if b then x ∷ stuck else stuck in
    elim (Bool-cases (is_hedging x.status)) [
      | inl t ↦
          subst (λ ss. All (Listed ss) (x ∷ hs)) (sym (ap branch t))
            (inl refl, All-mono {P = Listed stuck} {Q = Listed (x ∷ stuck)} (λ y h. inr h) hs rest)
      | inr f ↦
          subst (λ ss. All (Listed ss) (x ∷ hs)) (sym (ap branch f)) (idle-Listed stuck x f, rest)
    ]

apart : (a b : ℕ) → (a == b) ≡ false → a ≡ b → ⊥
apart a b h e = ground arith

pub reset_to_pending-Listed :
    (r : HedgeRow) (rs : List HedgeRow) (hs : List HedgeRow)
    → All (Listed (r ∷ rs)) hs
    → All (Listed rs) (reset_to_pending r.id hs)
unfolding reset_to_pending
reset_to_pending-Listed r rs [] h = tt
reset_to_pending-Listed r rs (x ∷ hs) h =
    let rest = reset_to_pending-Listed r rs hs h.1 in
    elim (Bool-cases (x.id == r.id)) [
      | inl t ↦ rw t (idle-Listed rs (record x { status = pending }) refl, rest)
      | inr f ↦
          rw f (elim h.0 [ inl e ↦ absurd (apart x.id r.id f (sym e)) | inr later ↦ later ], rest)
    ]

-- A row is within a dollar of what is expected, or is one of those still to be checked, as it was read.
abbrev pub Checked : (ℕ → ℤ) → List Exposure → Exposure → Type 0
Checked goal [] y = abs (y.unhedged_usd -ℤ goal y.market_id) ≤ 1
Checked goal (x ∷ xs) y =
    ((x.market_id ≡ y.market_id) × (x.unhedged_usd ≡ y.unhedged_usd)) ⊎ Checked goal xs y

near-Checked :
    (goal : ℕ → ℤ) (xs : List Exposure) (y : Exposure)
    → abs (y.unhedged_usd -ℤ goal y.market_id) ≤ 1
    → Checked goal xs y
near-Checked goal [] y h = h
near-Checked goal (x ∷ xs) y h = inr (near-Checked goal xs y h)

pub self-Checked : (goal : ℕ → ℤ) (xs : List Exposure) → All (Checked goal xs) xs
self-Checked goal [] = tt
self-Checked goal (x ∷ xs) = (
  inl (refl, refl),
  All-mono {P = Checked goal xs} {Q = Checked goal (x ∷ xs)} (λ y h. inr h) xs
      (self-Checked goal xs),
)

self_near : (a : ℤ) → abs (a -ℤ a) ≤ 1
unfolding ◌-ℤ◌
self_near a = ground arith

pub skip-Checked :
    (goal : ℕ → ℤ) (x : Exposure) (xs ys : List Exposure)
    → abs (x.unhedged_usd -ℤ goal x.market_id) ≤ 1
    → All (Checked goal (x ∷ xs)) ys
    → All (Checked goal xs) ys
skip-Checked goal x xs ys near h =
    All-mono {P = Checked goal (x ∷ xs)} {Q = Checked goal xs}
      (λ y c. elim c [
        | inl (m, v) ↦ near-Checked goal xs y (
            subst (λ a. abs (a -ℤ goal y.market_id) ≤ 1) v
              (subst (λ k. abs (x.unhedged_usd -ℤ goal k) ≤ 1) m near))
        | inr later ↦ later
      ])
      ys h

pub set_unhedged_usd-Checked :
    (goal : ℕ → ℤ) (x : Exposure) (xs ys : List Exposure)
    → All (Checked goal (x ∷ xs)) ys
    → All (Checked goal xs) (set_unhedged_usd x.market_id (goal x.market_id) ys)
unfolding set_unhedged_usd
set_unhedged_usd-Checked goal x xs [] h = tt
set_unhedged_usd-Checked goal x xs (y ∷ ys) h =
    let rest = set_unhedged_usd-Checked goal x xs ys h.1 in
    elim (Bool-cases (y.market_id == x.market_id)) [
      | inl t ↦ rw t (
        near-Checked goal xs (record y { unhedged_usd = goal x.market_id })
            (subst (λ k. abs (goal x.market_id -ℤ goal k) ≤ 1)
              (sym ((==_iff y.market_id x.market_id).0 t)) (self_near (goal x.market_id))),
        rest,
      )
      | inr f ↦ rw f (
        elim h.0 [ inl e ↦ absurd (apart y.market_id x.market_id f (sym e.0)) | inr later ↦ later ],
        rest,
      )
    ]
