-- ===== src/Hedger/Owed.antt =====
-- What boot recovery expects of each market, against what its fills still owe: `compute_expected_exposure` of
-- apps/hedger/hedger/index.ts.
use highgarden.Base.{
  ℕ, ◌≡◌, sym, ap, ◌∙◌, List, [], ◌∷◌, ◌==◌, arith, Bool-cases, inl, inr, if◌then◌else◌,
}
use highgarden.Base.Int.{ℤ, pos, ◌+ℤ◌, int_laws}
use highgarden.Database.{FillRow}
use highgarden.Hedger.{
  HedgeRow, add_expected, expected_of, is_hedge_terminal, expected_from, signed_notional_usd,
  find_by_fill_id,
}

-- What a fill still leaves to hedge in a market.
abbrev pub owed_by : List HedgeRow → ℕ → FillRow → ℤ
owed_by hs m f =
    if is_hedge_terminal (find_by_fill_id f.id hs)
    then pos 0
    else if f.market_id == m
    then signed_notional_usd f.price f.size f.side
    else pos 0

-- The notional of the market's fills that are not hedged yet, bought less sold.
abbrev pub owed : List HedgeRow → ℕ → List FillRow → ℤ
owed hs m [] = pos 0
owed hs m (f ∷ fs) = owed_by hs m f +ℤ owed hs m fs

plus_none : (a : ℤ) → a +ℤ pos 0 ≡ a
plus_none a = omega int_laws

pub none_plus : (a : ℤ) → pos 0 +ℤ a ≡ a
none_plus a = omega int_laws

plus_assoc : (a b c : ℤ) → a +ℤ b +ℤ c ≡ a +ℤ (b +ℤ c)
plus_assoc a b c = omega int_laws

add_expected_lem :
    (m k : ℕ) (d : ℤ) (es : List (ℕ × ℤ))
    → expected_of k (add_expected m d es) ≡ expected_of k es +ℤ (if m == k then d else pos 0)
unfolding add_expected
add_expected_lem m k d [] = let e = plus_none (pos 0) in ground arith
add_expected_lem m k d ((j, v) ∷ es) =
    let rest = add_expected_lem m k d es in
    let a = plus_none v in let b = plus_none (expected_of k es) in ground arith

pub expected_from_lem :
    (hs : List HedgeRow) (k : ℕ) (fs : List FillRow) (es : List (ℕ × ℤ))
    → expected_of k (expected_from hs fs es) ≡ expected_of k es +ℤ owed hs k fs
unfolding expected_from
expected_from_lem hs k [] es = sym (plus_none (expected_of k es))
expected_from_lem hs k (f ∷ fs) es =
    elim (Bool-cases (is_hedge_terminal (find_by_fill_id f.id hs))) [
      | inl t ↦ rw t (
          expected_from_lem hs k fs es
          ∙ ap (λ a. expected_of k es +ℤ a) (sym (none_plus (owed hs k fs))))
      | inr t ↦ rw t (
          expected_from_lem hs k fs
            (add_expected f.market_id (signed_notional_usd f.price f.size f.side) es)
          ∙ ap (λ a. a +ℤ owed hs k fs) (add_expected_lem f.market_id k _ es)
          ∙ plus_assoc (expected_of k es) _ (owed hs k fs))
    ]
