-- ===== src/Contract/Reads.antt =====
-- Reading back what stands at the cursor: packages/contract/src/decode.ts.
use highgarden.Base.{
  ℕ, ◌+◌, ◌<◌, ◌^◌, ◌≡◌, refl, sym, ap, subst, ◌∙◌, false, List, [], ◌++◌, append_assoc, append-nil,
  length, length-append, drop-append_length, take-append_length, ltb, arith,
}
use highgarden.Base.Int.{ℤ}
use highgarden.Call.{Reply, ok, pure, ◌>>=◌}
use highgarden.Call.Frame.{bind-value}
use highgarden.Contract.Bytes.{
  le_bytes, length-le_bytes, le_value-le_bytes, i64_pattern, i64_of, IsI64, i64_of-i64_pattern,
  i64_pattern_bound,
}
use highgarden.Contract.Reader.{
  ReadError, BorshReader, Read, subarray, advance_over, read_uint, read_u8, read_u16_le,
  read_u32_le, read_u64_le, read_i64_le, read_fixed, read_pubkey, read_string,
}

-- The bytes still to be read.
abbrev pub At : BorshReader → List ℕ → Type 0
At r xs = (front : List ℕ) × (r.buf ≡ front ++ xs) × (r.cursor ≡ length front)

-- Over these bytes the call returns this value, and stands behind them.
pub record Reads {A : Type 0} (m : Read A) (v : A) (enc : List ℕ) : Type 0 where
  pub holds :
      (r : BorshReader) (rest : List ℕ) → At r (enc ++ rest) → ((m r).0 ≡ ok v) × At (m r).1 rest

pub Reads-pure : {A : Type 0} (v : A) → Reads (pure v) v []
Reads-pure v = record { holds = λ r rest h. (refl, h) }

pub Reads-bind :
    {A B : Type 0} {m : Read A} (f : A → Read B) {a : A} {b : B} {front back : List ℕ}
    → Reads m a front
    → Reads (f a) b back
    → Reads (m >>= f) b (front ++ back)
Reads-bind {m = m} f {a} {front = front} {back} h k = record {
  holds = λ r rest at'.
      let first = h.holds r (back ++ rest) (subst (At r) (append_assoc front back rest) at') in
      let second = k.holds (m r).1 rest first.1 in
      let e = bind-value m f r first.0 in
      (
        ap (λ (p : Reply ReadError _ × BorshReader). p.0) e ∙ second.0,
        subst (λ (p : Reply ReadError _ × BorshReader). At p.1 rest) (sym e) second.1,
      );
}

fits :
    (r : BorshReader) (n : ℕ) (bs rest front : List ℕ)
    → r.buf ≡ front ++ (bs ++ rest)
    → r.cursor ≡ length front
    → length bs ≡ n
    → ltb (length r.buf) (r.cursor + n) ≡ false
fits r n bs rest front e c len =
    let total = ap length e ∙ length-append front (bs ++ rest) in
    let back = length-append bs rest in ground arith

taken :
    (r : BorshReader) (n : ℕ) (bs rest front : List ℕ)
    → r.buf ≡ front ++ (bs ++ rest)
    → r.cursor ≡ length front
    → length bs ≡ n
    → subarray r.cursor n r.buf ≡ bs
taken r n bs rest front e c len =
    rw (e, c, drop-append_length front (bs ++ rest), sym len) (take-append_length bs rest)

pub Reads-advance_over : (n : ℕ) (bs : List ℕ) → length bs ≡ n → Reads (advance_over n) bs bs
unfolding advance_over
Reads-advance_over n bs len = record {
  holds = λ r rest (front, e, c). rw (fits r n bs rest front e c len) (
    ap ok (taken r n bs rest front e c len),
    (
      front ++ bs,
      e ∙ sym (append_assoc front bs rest),
      (let l = length-append front bs in omega arith),
    ),
  );
}

-- What a call makes of the bytes that another has read.
pub Reads-map :
    {A B : Type 0} {m : Read A} (f : A → B) {a : A} {enc : List ℕ}
    → Reads m a enc
    → Reads (m >>= λ x. pure (f x)) (f a) enc
Reads-map f {a} {enc} h =
    subst (Reads _ (f a)) (append-nil enc) (Reads-bind (λ x. pure (f x)) h (Reads-pure (f a)))

pub Reads-read_uint : (n v : ℕ) → v < 256 ^ n → Reads (read_uint n) v (le_bytes n v)
Reads-read_uint n v h =
    subst (λ u. Reads (read_uint n) u (le_bytes n v)) (le_value-le_bytes n v h)
      (Reads-map _ (Reads-advance_over n (le_bytes n v) (length-le_bytes n v)))

pub Reads-read_u8 : (v : ℕ) → v < 256 → Reads read_u8 v (le_bytes 1 v)
unfolding read_u8
Reads-read_u8 v h = Reads-read_uint 1 v h

pub Reads-read_u16_le : (v : ℕ) → v < 2 ^ 16 → Reads read_u16_le v (le_bytes 2 v)
unfolding read_u16_le
Reads-read_u16_le v h = Reads-read_uint 2 v h

pub Reads-read_u32_le : (v : ℕ) → v < 2 ^ 32 → Reads read_u32_le v (le_bytes 4 v)
unfolding read_u32_le
Reads-read_u32_le v h = Reads-read_uint 4 v h

pub Reads-read_u64_le : (v : ℕ) → v < 2 ^ 64 → Reads read_u64_le v (le_bytes 8 v)
unfolding read_u64_le
Reads-read_u64_le v h = Reads-read_uint 8 v h

pub Reads-read_i64_le : (z : ℤ) → IsI64 z → Reads read_i64_le z (le_bytes 8 (i64_pattern z))
unfolding read_i64_le
Reads-read_i64_le z h =
    let enc = le_bytes 8 (i64_pattern z) in
    subst (λ u. Reads read_i64_le u enc)
      (ap i64_of (le_value-le_bytes 8 (i64_pattern z) (i64_pattern_bound z h))
        ∙ i64_of-i64_pattern z h)
      (Reads-map _ (Reads-advance_over 8 enc (length-le_bytes 8 (i64_pattern z))))

pub Reads-read_fixed : (n : ℕ) (bs : List ℕ) → length bs ≡ n → Reads (read_fixed n) bs bs
unfolding read_fixed
Reads-read_fixed n bs h = Reads-advance_over n bs h

pub Reads-read_pubkey : (bs : List ℕ) → length bs ≡ 32 → Reads read_pubkey bs bs
unfolding read_pubkey
Reads-read_pubkey bs h = Reads-read_fixed 32 bs h

pub Reads-read_string :
    (s : List ℕ) → length s < 2 ^ 32 → Reads read_string s (le_bytes 4 (length s) ++ s)
unfolding read_string
Reads-read_string s h =
    Reads-bind advance_over (Reads-read_u32_le (length s) h) (Reads-advance_over (length s) s refl)
