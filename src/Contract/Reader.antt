-- ===== src/Contract/Reader.antt =====
-- `BorshReader`: packages/contract/src/decode.ts.
--
-- A text is kept as its UTF-8 bytes. `read_string` of the source decodes them by `toString("utf8")`, which loses nothing
-- where they are well-formed UTF-8, as the bytes of a Rust `String` are; bytes that are not would be replaced there.
use highgarden.Base.{ℕ, ◌+◌, Option, none, some, List, length, ltb, ◌==◌, if◌then◌else◌, take, drop}
use highgarden.Base.Int.{ℤ}
use highgarden.Call.{ok, err, Call, pure, throw, ◌>>=◌}
use highgarden.Contract.Bytes.{le_value, i64_of}

pub data ReadError : Type 0 where
  past_end invalid_tag too_short wrong_discriminator : ReadError

pub record BorshReader : Type 0 where
  pub buf : List ℕ
  pub cursor : ℕ

abbrev pub Read : Type 0 → Type 0
Read A = Call BorshReader ReadError A

abbrev pub subarray : ℕ → ℕ → List ℕ → List ℕ
subarray start n bs = take n (drop start bs)

-- `advance`, and the bytes that it went over, from which each of its callers reads.
unfoldable pub advance_over : ℕ → Read (List ℕ)
advance_over n r =
    if ltb (length r.buf) (r.cursor + n)
    then (err past_end, r)
    else (ok (subarray r.cursor n r.buf), record r { cursor = r.cursor + n })

abbrev pub read_uint : ℕ → Read ℕ
read_uint n = advance_over n >>= λ bs. pure (le_value bs)

unfoldable pub read_u8 : Read ℕ
read_u8 = read_uint 1

unfoldable pub read_u16_le : Read ℕ
read_u16_le = read_uint 2

unfoldable pub read_u32_le : Read ℕ
read_u32_le = read_uint 4

unfoldable pub read_u64_le : Read ℕ
read_u64_le = read_uint 8

unfoldable pub read_i64_le : Read ℤ
read_i64_le = advance_over 8 >>= λ bs. pure (i64_of (le_value bs))

unfoldable pub read_fixed : ℕ → Read (List ℕ)
read_fixed n = advance_over n

unfoldable pub read_pubkey : Read (List ℕ)
read_pubkey = read_fixed 32

unfoldable pub read_string : Read (List ℕ)
read_string = read_u32_le >>= advance_over

unfoldable pub option_of_tag : ℕ → Read (Option ℕ)
option_of_tag tag =
    if tag == 0
    then pure none
    else if tag == 1
    then (read_u8 >>= λ v. pure (some v))
    else throw invalid_tag

unfoldable pub read_optional_u8 : Read (Option ℕ)
read_optional_u8 = read_u8 >>= option_of_tag

pub data MarketStatus : Type 0 where
  market_open market_resolved market_cancelled : MarketStatus

unfoldable pub status_of_tag : ℕ → Read MarketStatus
status_of_tag tag =
    if tag == 0
    then pure market_open
    else if tag == 1
    then pure market_resolved
    else if tag == 2
    then pure market_cancelled
    else throw invalid_tag

unfoldable pub read_market_status : Read MarketStatus
read_market_status = read_u8 >>= status_of_tag
