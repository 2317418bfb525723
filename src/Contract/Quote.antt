-- ===== src/Contract/Quote.antt =====
-- The message of a signed quote, and how the Rust program reads it: `serialize_signed_quote` of
-- packages/contract/src/serialize.ts, against apps/solana/programs/contract/src/state/signed_quote.rs.
use highgarden.Base.{
  ℕ, ◌+◌, ◌<◌, ◌^◌, ◌≡◌, refl, sym, ◌⊎◌, inl, inr, Bool, true, false, Bool-cases, List, [], ◌∷◌,
  append-nil, length, length-append, ltb, ltb→lt, ◌==◌, ==_iff, ◌&&◌, if◌then◌else◌, arith,
}
use highgarden.Base.Int.{ℤ, pos, negsuc}
use highgarden.Call.{Reply, ok, err, pure, ◌>>=◌}
use highgarden.Contract.Bytes.{le_bytes, length-le_bytes, i64_pattern, IsI64}
use highgarden.Contract.Writer.{
  WriteError, out_of_range, wrong_length, concat, new_writer, QuoteInput, push_fixed, push_pubkey,
  push_u8, push_u16_le, push_u64_le, push_i64_le, in_i64, pushed_quote, checked_length,
  serialize_signed_quote,
}
use highgarden.Contract.Reader.{
  ReadError, Read, read_u8, read_u16_le, read_u64_le, read_i64_le, read_fixed, read_pubkey,
}
use highgarden.Contract.Reads.{
  Reads, Reads-pure, Reads-bind, Reads-read_u8, Reads-read_u16_le, Reads-read_u64_le,
  Reads-read_i64_le, Reads-read_fixed, Reads-read_pubkey,
}

-- The fields in the order of the Rust struct.
abbrev pub read_quote : Read QuoteInput
read_quote = do
  market ← read_pubkey
  side ← read_u8
  outcome ← read_u8
  price ← read_u16_le
  size ← read_u64_le
  expires_at ← read_i64_le
  nonce ← read_fixed 16
  pure (record {
    market = market;
    side = side;
    outcome = outcome;
    price = price;
    size = size;
    expires_at = expires_at;
    nonce = nonce;
  })

abbrev pub quote_bytes : QuoteInput → List ℕ
quote_bytes q = concat (
    q.market
    ∷ le_bytes 1 q.side
    ∷ le_bytes 1 q.outcome
    ∷ le_bytes 2 q.price
    ∷ le_bytes 8 q.size
    ∷ le_bytes 8 (i64_pattern q.expires_at)
    ∷ q.nonce
    ∷ [])

-- The fields are in the range of the Rust struct's.
abbrev pub in_range : QuoteInput → Bool
in_range q =
    ltb q.side 256
    && (ltb q.outcome 256
        && (ltb q.price (256 ^ 2) && (ltb q.size (256 ^ 8) && in_i64 q.expires_at)))

pushed_quote_lem :
    (q : QuoteInput)
    → (pushed_quote q new_writer).0 ≡ (if in_range q then ok (quote_bytes q) else err out_of_range)
unfolding push_fixed push_pubkey push_u8 push_u16_le push_u64_le push_i64_le ◌>>=◌
pushed_quote_lem q = elim (Bool-cases (ltb q.side 256)) [
  | inr a ↦ rw a refl
  | inl a ↦ elim (Bool-cases (ltb q.outcome 256)) [
    | inr b ↦ rw (a, b) refl
    | inl b ↦ elim (Bool-cases (ltb q.price (256 ^ 2))) [
      | inr c ↦ rw (a, b, c) refl
      | inl c ↦ elim (Bool-cases (ltb q.size (256 ^ 8))) [
        | inr d ↦ rw (a, b, c, d) refl
        | inl d ↦ elim (Bool-cases (in_i64 q.expires_at)) [
          | inr e ↦ rw (a, b, c, d, e) refl
          | inl e ↦ rw (a, b, c, d, e) refl
        ]
      ]
    ]
  ]
]

-- The same as types.
pub record InRange (q : QuoteInput) : Type 0 where
  pub side_u8 : q.side < 256
  pub outcome_u8 : q.outcome < 256
  pub price_u16 : q.price < 2 ^ 16
  pub size_u64 : q.size < 2 ^ 64
  pub expiry_i64 : IsI64 q.expires_at

in_i64-IsI64 : (z : ℤ) → in_i64 z ≡ true → IsI64 z
in_i64-IsI64 (pos n) h = ltb→lt _ _ h
in_i64-IsI64 (negsuc n) h = ltb→lt _ _ h

in_range-InRange : (q : QuoteInput) → in_range q ≡ true → InRange q
in_range-InRange q h =
    let e : in_i64 q.expires_at ≡ true = ground arith in
    record {
      side_u8 = ground arith;
      outcome_u8 = ground arith;
      price_u16 = ground arith;
      size_u64 = ground arith;
      expiry_i64 = in_i64-IsI64 q.expires_at e;
    }

IsI64-in_i64 : (z : ℤ) → IsI64 z → in_i64 z ≡ true
IsI64-in_i64 (pos n) h = ground arith
IsI64-in_i64 (negsuc n) h = ground arith

out_of_range_lem : (q : QuoteInput) → in_range q ≡ false → ¬ InRange q
out_of_range_lem q h r = let e = IsI64-in_i64 q.expires_at r.expiry_i64 in ground arith

length-quote_bytes :
    (q : QuoteInput) → length (quote_bytes q) ≡ length q.market + 20 + length q.nonce
unfolding le_bytes
length-quote_bytes q =
    rw
      (
        length-append q.market _,
        length-append (le_bytes 1 q.side) _,
        length-append (le_bytes 1 q.outcome) _,
        length-append (le_bytes 2 q.price) _,
        length-append (le_bytes 8 q.size) _,
        length-append (le_bytes 8 (i64_pattern q.expires_at)) _,
        length-append q.nonce [],
        length-le_bytes,
      )
      (omega arith)

Reads-read_quote :
    (q : QuoteInput)
    → length q.market ≡ 32
    → length q.nonce ≡ 16
    → InRange q
    → Reads read_quote q (quote_bytes q)
Reads-read_quote q m n r = Reads-bind _ (Reads-read_pubkey q.market m) (
    Reads-bind _ (Reads-read_u8 q.side r.side_u8) (
      Reads-bind _ (Reads-read_u8 q.outcome r.outcome_u8) (
        Reads-bind _ (Reads-read_u16_le q.price r.price_u16) (
          Reads-bind _ (Reads-read_u64_le q.size r.size_u64) (
            Reads-bind _ (Reads-read_i64_le q.expires_at r.expiry_i64)
              (Reads-bind _ (Reads-read_fixed 16 q.nonce n) (Reads-pure q)))))))

-- The bytes read in the order of the Rust struct.
abbrev pub rust_read : List ℕ → Reply ReadError QuoteInput
rust_read bs = (read_quote (record { buf = bs; cursor = 0 })).0

checked_length_lem :
    (q : QuoteInput) (h : length q.market ≡ 32)
    → checked_length 68 (ok (quote_bytes q))
      ≡ (if length q.nonce == 16 then ok (quote_bytes q) else err wrong_length)
checked_length_lem q h = let e = length-quote_bytes q in ground arith

serialize_lem :
    (q : QuoteInput) (h : length q.market ≡ 32)
    → serialize_signed_quote q ≡ (
        if in_range q
        then (if length q.nonce == 16 then ok (quote_bytes q) else err wrong_length)
        else err out_of_range)
unfolding serialize_signed_quote
serialize_lem q h = elim (Bool-cases (in_range q)) [
  | inr out ↦ rw (pushed_quote_lem q, out) refl
  | inl fits ↦ rw (pushed_quote_lem q, fits) (checked_length_lem q h)
]

rust_read-quote_bytes :
    (q : QuoteInput)
    → length q.market ≡ 32
    → length q.nonce ≡ 16
    → InRange q
    → rust_read (quote_bytes q) ≡ ok q
rust_read-quote_bytes q m n r =
    ((Reads-read_quote q m n r).holds (record { buf = quote_bytes q; cursor = 0 }) []
      ([], sym (append-nil (quote_bytes q)), refl)).0

-- A quote whose market is a public key is written as 68 bytes, from which the fields in the order of the Rust struct
-- are the quote again, and the fields are in range and the nonce has 16 bytes; or the call throws, and a field is
-- out of range or the nonce has another length.
pub serialize_signed_quote_read :
    (q : QuoteInput) (key : length q.market ≡ 32)
    → ((out : List ℕ) × (serialize_signed_quote q ≡ ok out)
        × (length out ≡ 68)
        × (rust_read out ≡ ok q)
        × InRange q
        × (length q.nonce ≡ 16))
      ⊎ ((e : WriteError) × (serialize_signed_quote q ≡ err e)
          × (¬ (InRange q × (length q.nonce ≡ 16))))
serialize_signed_quote_read q key = elim (Bool-cases (in_range q)) [
  | inr out ↦
      let threw : serialize_signed_quote q ≡ err out_of_range =
        rw (serialize_lem q key, out) refl in
      inr (
        out_of_range,
        threw,
        λ (both : InRange q × (length q.nonce ≡ 16)). out_of_range_lem q out both.0,
      )
  | inl fits ↦ elim (Bool-cases (length q.nonce == 16)) [
    | inr short ↦
        let threw : serialize_signed_quote q ≡ err wrong_length =
          rw (serialize_lem q key, fits, short) refl in
        inr (
          wrong_length,
          threw,
          λ (both : InRange q × (length q.nonce ≡ 16)). (let n = both.1 in ground arith),
        )
    | inl sixteen ↦
        let wrote : serialize_signed_quote q ≡ ok (quote_bytes q) =
          rw (serialize_lem q key, fits, sixteen) refl in
        let n = (==_iff (length q.nonce) 16).0 sixteen in
        let range = in_range-InRange q fits in
        let long : length (quote_bytes q) ≡ 68 = (let l = length-quote_bytes q in omega arith) in
        inl (quote_bytes q, wrote, long, rust_read-quote_bytes q key n range, range, n)
  ]
]
