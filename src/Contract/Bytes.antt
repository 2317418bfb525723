-- ===== src/Contract/Bytes.antt =====
-- Numbers as bytes, lowest first, as the `write…LE` and `read…LE` of a Buffer have them.
use highgarden.Base.{
  ℕ, zero, suc, ◌+◌, ◌-◌, ◌*◌, ◌/◌, ◌%◌, ◌^◌, ◌<◌, ◌≡◌, refl, subst, List, [], ◌∷◌, length, ltb,
  if◌then◌else◌, arith,
}
use native.Mathlib.Nat.{pow-succ'}
use highgarden.Base.Int.{ℤ, pos, negsuc}

unfoldable pub le_bytes : ℕ → ℕ → List ℕ
le_bytes zero v = []
le_bytes (suc w) v = (v % 256) ∷ le_bytes w (v / 256)

unfoldable pub le_value : List ℕ → ℕ
le_value [] = 0
le_value (b ∷ bs) = b + 256 * le_value bs

pub length-le_bytes : (w v : ℕ) → length (le_bytes w v) ≡ w
unfolding le_bytes
length-le_bytes zero v = refl
length-le_bytes (suc w) v = omega (arith, length-le_bytes w (v / 256))

divided : (v p : ℕ) → v < 256 * p → v / 256 < p
divided v p h = omega arith

pub le_value-le_bytes : (w v : ℕ) → v < 256 ^ w → le_value (le_bytes w v) ≡ v
unfolding le_bytes le_value
le_value-le_bytes zero v h = omega arith
le_value-le_bytes (suc w) v h =
    let small : v < 256 * 256 ^ w = subst (λ p. v < p) (pow-succ' 256 w) h in
    let rest = le_value-le_bytes w (v / 256) (divided v (256 ^ w) small) in omega arith

-- The bit pattern of a signed 64-bit integer, and the integer of a bit pattern.
unfoldable pub i64_pattern : ℤ → ℕ
i64_pattern (pos n) = n
i64_pattern (negsuc n) = 2 ^ 64 - 1 - n

unfoldable pub i64_of : ℕ → ℤ
i64_of v = if ltb v (2 ^ 63) then pos v else negsuc (2 ^ 64 - 1 - v)

-- The range of an i64.
abbrev pub IsI64 : ℤ → Type 0
IsI64 (pos n) = n < 2 ^ 63
IsI64 (negsuc n) = n < 2 ^ 63

pub i64_of-i64_pattern : (z : ℤ) → IsI64 z → i64_of (i64_pattern z) ≡ z
unfolding i64_of i64_pattern
i64_of-i64_pattern (pos n) h = ground arith
i64_of-i64_pattern (negsuc n) h = ground arith

pub i64_pattern_bound : (z : ℤ) → IsI64 z → i64_pattern z < 256 ^ 8
unfolding i64_pattern
i64_pattern_bound (pos n) h = omega arith
i64_pattern_bound (negsuc n) h = omega arith
