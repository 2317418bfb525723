-- ===== src/Contract/Accounts.antt =====
-- The account decoders of packages/contract/src/decode.ts, with the discriminators of discriminator.ts.
use highgarden.Base.{
  ℕ, Bool, true, false, not, Option, List, [], ◌∷◌, ◌++◌, length, ltb, ◌==◌, ◌&&◌, if◌then◌else◌,
  take, drop,
}
use highgarden.Base.Int.{ℤ}
use highgarden.Call.{Reply, err, pure, ◌>>=◌}
use highgarden.Contract.Reader.{
  ReadError, too_short, wrong_discriminator, Read, read_u8, read_u16_le, read_u64_le, read_i64_le,
  read_fixed, read_pubkey, read_string, read_optional_u8, MarketStatus, read_market_status,
}
use Prim.Native.String.{String}
use highgarden.Contract.Text.{codes}

pub record ConfigAccount : Type 0 where
  pub admin : List ℕ
  pub oracle_signer : List ℕ
  pub quote_signer : List ℕ
  pub treasury_vault : List ℕ
  pub usdc_mint : List ℕ
  pub treasury_authority_bump : ℕ
  pub treasury_vault_bump : ℕ
  pub bump : ℕ

pub record MarketAccount : Type 0 where
  pub polymarket_market_id : List ℕ
  pub polymarket_market_id_hash : List ℕ
  pub question_hash : List ℕ
  pub end_time : ℤ
  pub tick_size : ℕ
  pub yes_token_id : List ℕ
  pub no_token_id : List ℕ
  pub status : MarketStatus
  pub winning_outcome : Option ℕ
  pub total_yes : ℕ
  pub total_no : ℕ
  pub paused : Bool
  pub bump : ℕ

pub record UserPositionAccount : Type 0 where
  pub user : List ℕ
  pub market : List ℕ
  pub yes_shares : ℕ
  pub no_shares : ℕ
  pub bump : ℕ

pub record UsedNonceAccount : Type 0 where
  pub nonce : List ℕ
  pub bump : ℕ

abbrev pub same_bytes : List ℕ → List ℕ → Bool
same_bytes [] [] = true
same_bytes [] (y ∷ ys) = false
same_bytes (x ∷ xs) [] = false
same_bytes (x ∷ xs) (y ∷ ys) = x == y && same_bytes xs ys

abbrev pub Sha256 : Type 0
Sha256 = List ℕ → List ℕ

unfoldable pub sha256_8 : Sha256 → List ℕ → List ℕ
sha256_8 sha preimage = take 8 (sha preimage)

abbrev pub ix_disc : Sha256 → String → List ℕ
ix_disc sha name = sha256_8 sha (codes "global:" ++ codes name)

abbrev pub account_disc : Sha256 → String → List ℕ
account_disc sha name = sha256_8 sha (codes "account:" ++ codes name)

abbrev pub event_disc : Sha256 → String → List ℕ
event_disc sha name = sha256_8 sha (codes "event:" ++ codes name)

abbrev pub anchor_discriminator_len : ℕ
anchor_discriminator_len = 8

-- Opens the account behind its discriminator and reads it.
unfoldable pub open_account : {A : Type 0} → Sha256 → String → List ℕ → Read A → Reply ReadError A
open_account sha name bs read =
    if ltb (length bs) anchor_discriminator_len
    then err too_short
    else if not (same_bytes (take anchor_discriminator_len bs) (account_disc sha name))
    then err wrong_discriminator
    else (read (record { buf = drop anchor_discriminator_len bs; cursor = 0 })).0

abbrev pub read_config : Read ConfigAccount
read_config = do
  admin ← read_pubkey
  oracle_signer ← read_pubkey
  quote_signer ← read_pubkey
  treasury_vault ← read_pubkey
  usdc_mint ← read_pubkey
  treasury_authority_bump ← read_u8
  treasury_vault_bump ← read_u8
  bump ← read_u8
  pure (record {
    admin = admin;
    oracle_signer = oracle_signer;
    quote_signer = quote_signer;
    treasury_vault = treasury_vault;
    usdc_mint = usdc_mint;
    treasury_authority_bump = treasury_authority_bump;
    treasury_vault_bump = treasury_vault_bump;
    bump = bump;
  })

abbrev pub read_market : Read MarketAccount
read_market = do
  polymarket_market_id ← read_string
  polymarket_market_id_hash ← read_fixed 32
  question_hash ← read_fixed 32
  end_time ← read_i64_le
  tick_size ← read_u16_le
  yes_token_id ← read_string
  no_token_id ← read_string
  status ← read_market_status
  winning_outcome ← read_optional_u8
  total_yes ← read_u64_le
  total_no ← read_u64_le
  paused ← read_u8
  bump ← read_u8
  pure (record {
    polymarket_market_id = polymarket_market_id;
    polymarket_market_id_hash = polymarket_market_id_hash;
    question_hash = question_hash;
    end_time = end_time;
    tick_size = tick_size;
    yes_token_id = yes_token_id;
    no_token_id = no_token_id;
    status = status;
    winning_outcome = winning_outcome;
    total_yes = total_yes;
    total_no = total_no;
    paused = not (paused == 0);
    bump = bump;
  })

abbrev pub read_user_position : Read UserPositionAccount
read_user_position = do
  user ← read_pubkey
  market ← read_pubkey
  yes_shares ← read_u64_le
  no_shares ← read_u64_le
  bump ← read_u8
  pure (record {
    user = user;
    market = market;
    yes_shares = yes_shares;
    no_shares = no_shares;
    bump = bump;
  })

abbrev pub read_used_nonce : Read UsedNonceAccount
read_used_nonce = do
  nonce ← read_fixed 16
  bump ← read_u8
  pure (record { nonce = nonce; bump = bump })

unfoldable pub decode_config_account : Sha256 → List ℕ → Reply ReadError ConfigAccount
decode_config_account sha bs = open_account sha "Config" bs read_config

unfoldable pub decode_market_account : Sha256 → List ℕ → Reply ReadError MarketAccount
decode_market_account sha bs = open_account sha "Market" bs read_market

unfoldable pub decode_user_position_account : Sha256 → List ℕ → Reply ReadError UserPositionAccount
decode_user_position_account sha bs = open_account sha "UserPosition" bs read_user_position

unfoldable pub decode_used_nonce_account : Sha256 → List ℕ → Reply ReadError UsedNonceAccount
decode_used_nonce_account sha bs = open_account sha "UsedNonce" bs read_used_nonce
