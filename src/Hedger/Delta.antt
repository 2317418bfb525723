-- ===== src/Hedger/Delta.antt =====
-- How the exposure of the markets moves: `apply_signed_delta` of apps/hedger/db/exposure.ts.

use highgarden.Base.{
  ℕ, ◌≡◌, sym, ap, subst, ◌∙◌, inl, inr, Bool, true, false, List, [], ◌∷◌, ◌==◌, Bool-cases, arith,
  if◌then◌else◌,
}
use highgarden.Base.Int.{ℤ, pos, ◌+ℤ◌, int_laws}
use highgarden.Call.{ok, pure, ◌>>=◌, ◌>>◌}
use highgarden.Call.Frame.{Returns, bind-Returns, ok-injective}
use highgarden.Hedger.{
  Tables, HedgeCall, HedgeServices, Query, HedgeRow, Exposure, add_delta, apply_signed_delta,
  update_hedge,
}

-- A market's exposure; a market without a row has none.
abbrev pub unhedged : ℕ → List Exposure → ℤ
unhedged k [] = pos 0
unhedged k (x ∷ xs) = if x.market_id == k then x.unhedged_usd else unhedged k xs

abbrev pub at_market : ℕ → ℕ → ℤ → ℤ
at_market m k d = if m == k then d else pos 0

-- The exposure of market `m` has moved by `d`, and that of no other market.
pub Moved : ℕ → ℤ → Tables → Tables → Type 0
Moved m d w w' = (k : ℕ) → unhedged k w'.exposures ≡ unhedged k w.exposures +ℤ at_market m k d

pub zero_right : (a : ℤ) → a +ℤ pos 0 ≡ a
zero_right a = omega int_laws

zero_left : (a : ℤ) → pos 0 +ℤ a ≡ a
zero_left a = omega int_laws

add_delta_lem :
    (m : ℕ) (d : ℤ) (xs : List Exposure) (k : ℕ)
    → unhedged k (add_delta m d xs) ≡ unhedged k xs +ℤ at_market m k d
unfolding add_delta
add_delta_lem m d [] k = sym (zero_left (at_market m k d))
add_delta_lem m d (x ∷ xs) k =
    let rest = add_delta_lem m d xs k in
    let same = zero_right x.unhedged_usd in let same' = zero_right (unhedged k xs) in ground arith

pub Still-Moved : (m : ℕ) (w w' : Tables) → w'.exposures ≡ w.exposures → Moved m (pos 0) w w'
unfolding Moved
Still-Moved m w w' e k = ap (unhedged k) e ∙ sym (nothing (m == k) (unhedged k w.exposures))
  where
    nothing : (b : Bool) (a : ℤ) → a +ℤ (if b then pos 0 else pos 0) ≡ a
    nothing true a = zero_right a
    nothing false a = zero_right a

then_moved :
    (a b c d : ℤ) (t : Bool)
    → b ≡ a +ℤ (if t then c else pos 0)
    → (x : ℤ) → x ≡ b +ℤ (if t then d else pos 0)
    → x ≡ a +ℤ (if t then c +ℤ d else pos 0)
then_moved a b c d true e x e' = e' ∙ ap (λ y. y +ℤ d) e ∙ assoc a c d
  where
    assoc : (a c d : ℤ) → a +ℤ c +ℤ d ≡ a +ℤ (c +ℤ d)
    assoc a c d = omega int_laws
then_moved a b c d false e x e' = e' ∙ zero_right b ∙ e

Moved-compose :
    (m : ℕ) (c d : ℤ) (u v w : Tables) → Moved m c u v → Moved m d v w → Moved m (c +ℤ d) u w
unfolding Moved
Moved-compose m c d u v w p q k =
    then_moved (unhedged k u.exposures) (unhedged k v.exposures) c d (m == k) (p k)
      (unhedged k w.exposures) (q k)

-- A call moves by `c`, and what follows it, when it returns, by `D` of what it returns.
pub bind-Moved :
    {A B : Type 0} (m : ℕ) (c : ℤ) (D : B → ℤ) (call : HedgeCall A) (f : A → HedgeCall B)
    (w : Tables)
    → ((a : A) → (call w).0 ≡ ok a → Moved m c w (call w).1)
    → ((a : A) → (call w).0 ≡ ok a → Returns (λ b v. Moved m (D b) (call w).1 v) (f a (call w).1))
    → Returns (λ b v. Moved m (c +ℤ D b) w v) ((call >>= f) w)
bind-Moved m c D call f w first rest =
    bind-Returns (λ b v. Moved m (c +ℤ D b) w v) call f w
      λ a e b h. Moved-compose m c (D b) w (call w).1 _ (first a e) (rest a e b h)

-- As `bind-Moved`, where the first call moves nothing.
pub bind-Still :
    {A B : Type 0} (m : ℕ) (D : B → ℤ) (call : HedgeCall A) (f : A → HedgeCall B) (w : Tables)
    → (call w).1.exposures ≡ w.exposures
    → ((a : A) → (call w).0 ≡ ok a → Returns (λ b v. Moved m (D b) (call w).1 v) (f a (call w).1))
    → Returns (λ b v. Moved m (D b) w v) ((call >>= f) w)
bind-Still m D call f w same rest b h =
    subst (λ d. Moved m d w ((call >>= f) w).1) (zero_left (D b))
      (bind-Moved m (pos 0) D call f w (λ _ _. Still-Moved m w (call w).1 same) rest b h)

pub update-Still :
    (sv : HedgeServices) (q : Query) (id : ℕ) (change : HedgeRow → HedgeRow) (w : Tables)
    → (update_hedge sv q id change w).1.exposures ≡ w.exposures
unfolding update_hedge ◌>>=◌
update-Still sv q id change w = ground arith

pub apply-Moved :
    (sv : HedgeServices) (q : Query) (m : ℕ) (d : ℤ) (w : Tables)
    → Returns (λ _ v. Moved m d w v) (apply_signed_delta sv q m d w)
unfolding apply_signed_delta ◌>>=◌ Moved
apply-Moved sv q m d w a h k = elim (Bool-cases (sv.query_up q)) [
  | inl up ↦ rw up (add_delta_lem m d w.exposures k)
  | inr down ↦ absurd (ground arith)
]

pub then_pure :
    {A B : Type 0} (m : ℕ) (c : ℤ) (D : B → ℤ) (call : HedgeCall A) (b : B) (w : Tables)
    → Returns (λ _ v. Moved m c w v) (call w)
    → c ≡ D b
    → Returns (λ b v. Moved m (D b) w v) ((call >> pure b) w)
then_pure m c D call b w moves e =
    bind-Returns (λ b v. Moved m (D b) w v) call _ w
      λ a was b' h. subst (λ d. Moved m d w (call w).1) (e ∙ ap D (ok-injective h)) (moves a was)

pub Moved-from :
    (m : ℕ) (d : ℤ) (w v u : Tables) → v.exposures ≡ w.exposures → Moved m d v u → Moved m d w u
unfolding Moved
Moved-from m d w v u e p k =
    subst (λ xs. unhedged k u.exposures ≡ unhedged k xs +ℤ at_market m k d) e (p k)
