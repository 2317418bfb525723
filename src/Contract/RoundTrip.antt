-- ===== src/Contract/RoundTrip.antt =====
-- What the decoders of packages/contract/src/decode.ts make of an account that the Rust program wrote.
use highgarden.Base.{
  ℕ, zero, suc, ◌≤◌, ◌≡◌, refl, sym, subst, true, false, List, [], ◌∷◌, ◌++◌, length, length-append,
  ltb, ==_iff, take, drop, drop-append_length, take-append_length, arith,
}
use highgarden.Call.{ok}
use highgarden.Contract.Reader.{Read}
use highgarden.Contract.Accounts.{
  ConfigAccount, MarketAccount, UserPositionAccount, UsedNonceAccount, Sha256, sha256_8,
  account_disc, same_bytes, open_account, read_config, read_market, read_user_position,
  read_used_nonce, decode_config_account, decode_market_account, decode_user_position_account,
  decode_used_nonce_account,
}
use highgarden.Contract.Reads.{Reads}
use highgarden.Contract.Layout.{
  borsh_config, borsh_market, borsh_user_position, borsh_used_nonce, IsConfig, IsMarket,
  IsUserPosition, IsUsedNonce, Reads-read_config, Reads-read_market, Reads-read_user_position,
  Reads-read_used_nonce,
}
use Prim.Native.String.{String}

-- An account of any of the four types, its name and body, and the decoder for its type.
pub data Account : Type 0 where
  config_account : ConfigAccount → Account
  market_account : MarketAccount → Account
  user_position_account : UserPositionAccount → Account
  used_nonce_account : UsedNonceAccount → Account

abbrev pub account_name : Account → String
account_name (config_account a) = "Config"
account_name (market_account a) = "Market"
account_name (user_position_account a) = "UserPosition"
account_name (used_nonce_account a) = "UsedNonce"

abbrev pub borsh_account : Account → List ℕ
borsh_account (config_account a) = borsh_config a
borsh_account (market_account a) = borsh_market a
borsh_account (user_position_account a) = borsh_user_position a
borsh_account (used_nonce_account a) = borsh_used_nonce a

abbrev pub IsAccount : Account → Type 0
IsAccount (config_account a) = IsConfig a
IsAccount (market_account a) = IsMarket a
IsAccount (user_position_account a) = IsUserPosition a
IsAccount (used_nonce_account a) = IsUsedNonce a

-- The decoder for the type of this account gives this account.
abbrev pub DecodesTo : Sha256 → List ℕ → Account → Type 0
DecodesTo sha bs (config_account a) = decode_config_account sha bs ≡ ok a
DecodesTo sha bs (market_account a) = decode_market_account sha bs ≡ ok a
DecodesTo sha bs (user_position_account a) = decode_user_position_account sha bs ≡ ok a
DecodesTo sha bs (used_nonce_account a) = decode_used_nonce_account sha bs ≡ ok a

pub same_bytes_refl : (bs : List ℕ) → same_bytes bs bs ≡ true
same_bytes_refl [] = refl
same_bytes_refl (b ∷ bs) = rw (same_bytes_refl bs, (==_iff b b).1 refl)

pub length-take : (n : ℕ) (bs : List ℕ) → n ≤ length bs → length (take n bs) ≡ n
length-take zero bs h = refl
length-take (suc n) [] h = absurd (omega arith)
length-take (suc n) (b ∷ bs) h = omega (arith, length-take n bs (omega arith))

-- An account opens behind its own discriminator, whatever stands behind its body.
open_account_lem :
    {A : Type 0} (sha : Sha256) (name : String) (read : Read A) (v : A) (body rest : List ℕ)
    → length (account_disc sha name) ≡ 8
    → Reads read v body
    → open_account sha name (account_disc sha name ++ (body ++ rest)) read ≡ ok v
unfolding open_account
open_account_lem sha name read v body rest len reads =
    let disc = account_disc sha name in
    let front : take 8 (disc ++ (body ++ rest)) ≡ disc =
      subst (λ n. take n (disc ++ (body ++ rest)) ≡ disc) len
        (take-append_length disc (body ++ rest)) in
    let back : drop 8 (disc ++ (body ++ rest)) ≡ body ++ rest =
      subst (λ n. drop n (disc ++ (body ++ rest)) ≡ body ++ rest) len
        (drop-append_length disc (body ++ rest)) in
    let long : ltb (length (disc ++ (body ++ rest))) 8 ≡ false =
      (let l = length-append disc (body ++ rest) in ground arith) in
    rw (long, front, back, same_bytes_refl disc)
      (reads.holds (record { buf = body ++ rest; cursor = 0 }) rest ([], refl, refl)).0

length-account_disc :
    (sha : Sha256)
    → ((bs : List ℕ) → length (sha bs) ≡ 32)
    → (name : String) → length (account_disc sha name) ≡ 8
unfolding sha256_8
length-account_disc sha digest name =
    length-take 8 (sha _) (subst (λ n. 8 ≤ n) (sym (digest _)) (omega arith))

-- With a hash whose digests have 32 bytes, each account decoder gives back every account of its type that the Rust
-- program can hold, from the discriminator and the fields in the order of the Rust struct, with any bytes behind
-- them (the account's reserved space).
pub decode-borsh_account :
    (sha : Sha256) (digest : (bs : List ℕ) → length (sha bs) ≡ 32) (a : Account)
    (valid : IsAccount a) (rest : List ℕ)
    → DecodesTo sha (account_disc sha (account_name a) ++ (borsh_account a ++ rest)) a
unfolding decode_config_account decode_market_account decode_user_position_account
    decode_used_nonce_account
decode-borsh_account sha digest (config_account a) valid rest =
    open_account_lem sha "Config" read_config a (borsh_config a) rest
      (length-account_disc sha digest "Config") (Reads-read_config a valid)
decode-borsh_account sha digest (market_account a) valid rest =
    open_account_lem sha "Market" read_market a (borsh_market a) rest
      (length-account_disc sha digest "Market") (Reads-read_market a valid)
decode-borsh_account sha digest (user_position_account a) valid rest =
    open_account_lem sha "UserPosition" read_user_position a (borsh_user_position a) rest
      (length-account_disc sha digest "UserPosition") (Reads-read_user_position a valid)
decode-borsh_account sha digest (used_nonce_account a) valid rest =
    open_account_lem sha "UsedNonce" read_used_nonce a (borsh_used_nonce a) rest
      (length-account_disc sha digest "UsedNonce") (Reads-read_used_nonce a valid)
