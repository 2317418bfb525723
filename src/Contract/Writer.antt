-- ===== src/Contract/Writer.antt =====
-- `BorshWriter` and the instruction encoders: packages/contract/src/serialize.ts.
use highgarden.Base.{ℕ, ◌^◌, Bool, not, List, [], ◌∷◌, ◌++◌, length, ltb, ◌==◌, if◌then◌else◌}
use highgarden.Base.Int.{ℤ, pos, negsuc}
use highgarden.Call.{Reply, ok, err, Call, gets, throw_if, modify, ◌>>◌}
use highgarden.Contract.Bytes.{le_bytes, i64_pattern}

-- A `RangeError` of the Buffer's writes, or one of the length checks here.
pub data WriteError : Type 0 where
  out_of_range wrong_length : WriteError

-- `chunks`, the first one first.
pub record BorshWriter : Type 0 where
  pub chunks : List (List ℕ)

abbrev pub Write : Type 0 → Type 0
Write A = Call BorshWriter WriteError A

abbrev pub concat : List (List ℕ) → List ℕ
concat [] = []
concat (c ∷ cs) = c ++ concat cs

abbrev pub new_writer : BorshWriter
new_writer = record { chunks = [] }

abbrev pub written : BorshWriter → List ℕ
written w = concat w.chunks

abbrev pub bytes : Write (List ℕ)
bytes = gets written

unfoldable pub push_fixed : List ℕ → Write (Unit {0})
push_fixed bs = modify λ w. record { chunks = w.chunks ++ (bs ∷ []) }

-- A write of so many bytes, in the range that the Buffer checks.
abbrev pub push_uint : ℕ → ℕ → Write (Unit {0})
push_uint n v = throw_if (not (ltb v (256 ^ n))) out_of_range >> push_fixed (le_bytes n v)

unfoldable pub push_u8 : ℕ → Write (Unit {0})
push_u8 = push_uint 1

unfoldable pub push_u16_le : ℕ → Write (Unit {0})
push_u16_le = push_uint 2

unfoldable pub push_u32_le : ℕ → Write (Unit {0})
push_u32_le = push_uint 4

unfoldable pub push_u64_le : ℕ → Write (Unit {0})
push_u64_le = push_uint 8

abbrev pub in_i64 : ℤ → Bool
in_i64 (pos n) = ltb n (2 ^ 63)
in_i64 (negsuc n) = ltb n (2 ^ 63)

unfoldable pub push_i64_le : ℤ → Write (Unit {0})
push_i64_le z = throw_if (not (in_i64 z)) out_of_range >> push_fixed (le_bytes 8 (i64_pattern z))

unfoldable pub push_pubkey : List ℕ → Write (Unit {0})
push_pubkey = push_fixed

unfoldable pub push_string : List ℕ → Write (Unit {0})
push_string s = push_u32_le (length s) >> push_fixed s

-- OrderSide and Outcome are 0 or 1, the price is in cents, `expires_at` in seconds.
pub record QuoteInput : Type 0 where
  pub market : List ℕ
  pub side : ℕ
  pub outcome : ℕ
  pub price : ℕ
  pub size : ℕ
  pub expires_at : ℤ
  pub nonce : List ℕ

abbrev pub signed_quote_bytes : ℕ
signed_quote_bytes = 68

abbrev pub pushed_quote : QuoteInput → Write (List ℕ)
pushed_quote q = do
  push_pubkey q.market
  push_u8 q.side
  push_u8 q.outcome
  push_u16_le q.price
  push_u64_le q.size
  push_i64_le q.expires_at
  push_fixed q.nonce
  bytes

-- What a function that starts a writer of its own returns or throws.
abbrev pub checked_length : ℕ → Reply WriteError (List ℕ) → Reply WriteError (List ℕ)
checked_length n (ok out) = if length out == n then ok out else err wrong_length
checked_length n (err e) = err e

unfoldable pub serialize_signed_quote : QuoteInput → Reply WriteError (List ℕ)
serialize_signed_quote q = checked_length signed_quote_bytes (pushed_quote q new_writer).0

unfoldable pub encode_place_order_args : QuoteInput → Reply WriteError (List ℕ)
unfolding serialize_signed_quote
encode_place_order_args q = serialize_signed_quote q

pub record CreateMarketArgs : Type 0 where
  pub polymarket_market_id_hash : List ℕ
  pub polymarket_market_id : List ℕ
  pub question_hash : List ℕ
  pub end_time : ℤ
  pub tick_size : ℕ
  pub yes_token_id : List ℕ
  pub no_token_id : List ℕ

abbrev pub pushed_create_market : CreateMarketArgs → Write (List ℕ)
pushed_create_market a = do
  throw_if (not (length a.polymarket_market_id_hash == 32)) wrong_length
  throw_if (not (length a.question_hash == 32)) wrong_length
  push_fixed a.polymarket_market_id_hash
  push_string a.polymarket_market_id
  push_fixed a.question_hash
  push_i64_le a.end_time
  push_u16_le a.tick_size
  push_string a.yes_token_id
  push_string a.no_token_id
  bytes

unfoldable pub encode_create_market_args : CreateMarketArgs → Reply WriteError (List ℕ)
encode_create_market_args a = (pushed_create_market a new_writer).0

unfoldable pub encode_initialize_config_args : List ℕ → List ℕ → Reply WriteError (List ℕ)
encode_initialize_config_args oracle quote =
    ((push_pubkey oracle >> push_pubkey quote >> bytes) new_writer).0

unfoldable pub encode_resolve_market_args : ℕ → Reply WriteError (List ℕ)
encode_resolve_market_args outcome = ((push_u8 outcome >> bytes) new_writer).0

unfoldable pub encode_close_used_nonce_args : List ℕ → Reply WriteError (List ℕ)
encode_close_used_nonce_args nonce =
    ((throw_if (not (length nonce == 16)) wrong_length >> push_fixed nonce >> bytes) new_writer).0

abbrev pub encode_empty_args : List ℕ
encode_empty_args = []
