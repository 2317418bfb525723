-- ===== src/Base/Lists.antt =====
-- Lists measured by native numbers, predicates over all entries, and sums.
use Prim.Native.Nat.{ℕ, zero, suc, ◌+◌}
use mathlib.Core.Path.{◌≡◌, refl, ap}
use mathlib.Core.Bool.{Bool, true, false}
use mathlib.Core.Option.{Option, none, some}
use mathlib.Core.List.{List, [], ◌∷◌, ◌++◌}
use native.Mathlib.Omega.{arith}
use highgarden.Base.Tests.{if◌then◌else◌}

module _ {ℓ} {A : Type ℓ} where
  abbrev pub length : List A → ℕ
  length [] = 0
  length (x ∷ xs) = suc (length xs)

  pub length-append : (xs ys : List A) → length (xs ++ ys) ≡ length xs + length ys
  length-append [] ys = omega arith
  length-append (x ∷ xs) ys = omega (arith, length-append xs ys)

  -- Every entry satisfies the predicate.
  abbrev pub All {κ} : (A → Type κ) → List A → Type κ
  All P [] = Unit
  All P (x ∷ xs) = P x × All P xs

  pub All-mono {κ μ} :
      {P : A → Type κ} {Q : A → Type μ} (f : (a : A) → P a → Q a) (xs : List A)
      → All P xs
      → All Q xs
  All-mono f [] h = tt
  All-mono f (x ∷ xs) h = (f x h.0, All-mono f xs h.1)

  -- The first entry that passes the test.
  abbrev pub find : (A → Bool) → List A → Option A
  find p [] = none
  find p (x ∷ xs) = if p x then some x else find p xs

  -- The entries that pass the test, in order.
  abbrev pub select : (A → Bool) → List A → List A
  select p [] = []
  select p (x ∷ xs) = if p x then x ∷ select p xs else select p xs

  -- The change is made to each entry that passes the test.
  abbrev pub update_where : (A → Bool) → (A → A) → List A → List A
  update_where p f [] = []
  update_where p f (x ∷ xs) = (if p x then f x else x) ∷ update_where p f xs

  abbrev pub any : (A → Bool) → List A → Bool
  any p [] = false
  any p (x ∷ xs) = if p x then true else any p xs

  abbrev pub sum_by : (A → ℕ) → List A → ℕ
  sum_by f [] = 0
  sum_by f (x ∷ xs) = f x + sum_by f xs

  abbrev pub take : ℕ → List A → List A
  take zero xs = []
  take (suc n) [] = []
  take (suc n) (x ∷ xs) = x ∷ take n xs

  abbrev pub drop : ℕ → List A → List A
  drop zero xs = xs
  drop (suc n) [] = []
  drop (suc n) (x ∷ xs) = drop n xs

  pub drop-append_length : (xs ys : List A) → drop (length xs) (xs ++ ys) ≡ ys
  drop-append_length [] ys = refl
  drop-append_length (x ∷ xs) ys = drop-append_length xs ys

  pub take-append_length : (xs ys : List A) → take (length xs) (xs ++ ys) ≡ xs
  take-append_length [] ys = refl
  take-append_length (x ∷ xs) ys = ap (λ l. x ∷ l) (take-append_length xs ys)

  pub append_snoc : (xs : List A) (y : A) (zs : List A) → (xs ++ (y ∷ [])) ++ zs ≡ xs ++ (y ∷ zs)
  append_snoc [] y zs = refl
  append_snoc (x ∷ xs) y zs = ap (λ l. x ∷ l) (append_snoc xs y zs)

  pub All-snoc {κ} :
      (P : A → Type κ) (xs : List A) (y : A) → All P xs → P y → All P (xs ++ (y ∷ []))
  All-snoc P [] y h p = (p, tt)
  All-snoc P (x ∷ xs) y h p = (h.0, All-snoc P xs y h.1 p)

  module _ {κ} (P : A → Type κ) where
    pub All-append : (xs ys : List A) → All P xs → All P ys → All P (xs ++ ys)
    All-append [] ys h k = k
    All-append (x ∷ xs) ys h k = (h.0, All-append xs ys h.1 k)

    pub All-left : (xs ys : List A) → All P (xs ++ ys) → All P xs
    All-left [] ys h = tt
    All-left (x ∷ xs) ys h = (h.0, All-left xs ys h.1)

    pub All-right : (xs ys : List A) → All P (xs ++ ys) → All P ys
    All-right [] ys h = h
    All-right (x ∷ xs) ys h = All-right xs ys h.1
