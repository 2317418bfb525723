-- ===== src/Ingest/Newest.antt =====
-- What the poller is given: the transactions newer than the cursor, turned round into the order of the chain.
use highgarden.Base.{
  ℕ, zero, suc, ◌≤◌, ◌≡◌, refl, sym, ap, ◌∙◌, List, [], ◌∷◌, ◌++◌, append_assoc, append-nil, Option,
  take, length, length-append, arith,
}
use highgarden.Ingest.{ChainTx, reverse}
use highgarden.Ingest.Chain.{newer, infos, StandsAfter, newer-StandsAfter}

module _ {A : Type 0} where
  reverse-append : (xs ys : List A) → reverse (xs ++ ys) ≡ reverse ys ++ reverse xs
  unfolding reverse
  reverse-append [] ys = sym (append-nil (reverse ys))
  reverse-append (x ∷ xs) ys =
      ap (λ l. l ++ (x ∷ [])) (reverse-append xs ys)
      ∙ append_assoc (reverse ys) (reverse xs) (x ∷ [])

  reverse-reverse : (xs : List A) → reverse (reverse xs) ≡ xs
  unfolding reverse
  reverse-reverse [] = refl
  reverse-reverse (x ∷ xs) =
      reverse-append (reverse xs) (x ∷ []) ∙ ap (λ l. x ∷ l) (reverse-reverse xs)

  length-reverse : (xs : List A) → length (reverse xs) ≡ length xs
  unfolding reverse
  length-reverse [] = refl
  length-reverse (x ∷ xs) = omega (arith, length-append (reverse xs) (x ∷ []), length-reverse xs)

  take_all : (n : ℕ) (xs : List A) → length xs ≤ n → take n xs ≡ xs
  take_all zero [] h = refl
  take_all (suc n) [] h = refl
  take_all zero (x ∷ xs) h = ground (arith, h)
  take_all (suc n) (x ∷ xs) h = ap (λ l. x ∷ l) (take_all n xs (omega (arith, h)))

length-infos : (c : List ChainTx) → length (infos c) ≡ length c
length-infos [] = refl
length-infos (x ∷ c) = ap suc (length-infos c)

-- Where the limit suffices, turning the reply round gives all newer ones in the order of the chain.
pub turned_round :
    (limit : ℕ) (at : Option ℕ) (front rest : List ChainTx)
    → StandsAfter at front
    → length rest ≤ limit
    → reverse (take limit (reverse (infos (newer at (front ++ rest))))) ≡ infos rest
turned_round limit at front rest stands enough =
    let le : length (reverse (infos rest)) ≤ limit =
      omega (arith, length-reverse (infos rest), length-infos rest, enough) in
    ap (λ l. reverse (take limit (reverse (infos l)))) (newer-StandsAfter at front rest stands)
    ∙ ap reverse (take_all limit (reverse (infos rest)) le)
    ∙ reverse-reverse (infos rest)
