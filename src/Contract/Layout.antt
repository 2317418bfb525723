-- ===== src/Contract/Layout.antt =====
-- The accounts as the Rust program lays them out (apps/solana/programs/contract/src/state), against the account
-- decoders of packages/contract/src/decode.ts.
use highgarden.Base.{
  ℕ, ◌<◌, ◌^◌, ◌≡◌, refl, subst, Bool, true, false, not, Option, none, some, List, [], ◌∷◌, ◌++◌,
  append-nil, length, ◌==◌, if◌then◌else◌, arith,
}
use highgarden.Call.{pure}
use highgarden.Contract.Bytes.{le_bytes, i64_pattern, IsI64}
use highgarden.Contract.Writer.{concat}
use highgarden.Contract.Reader.{
  option_of_tag, read_optional_u8, MarketStatus, market_open, market_resolved, market_cancelled,
  status_of_tag, read_market_status,
}
use highgarden.Contract.Accounts.{
  ConfigAccount, MarketAccount, UserPositionAccount, UsedNonceAccount, read_config, read_market,
  read_user_position, read_used_nonce,
}
use highgarden.Contract.Reads.{
  Reads, Reads-pure, Reads-bind, Reads-map, Reads-read_u8, Reads-read_u16_le, Reads-read_u64_le,
  Reads-read_i64_le, Reads-read_fixed, Reads-read_pubkey, Reads-read_string,
}

abbrev pub borsh_string : List ℕ → List ℕ
borsh_string s = le_bytes 4 (length s) ++ s

abbrev pub borsh_status : MarketStatus → List ℕ
borsh_status market_open = le_bytes 1 0
borsh_status market_resolved = le_bytes 1 1
borsh_status market_cancelled = le_bytes 1 2

abbrev pub borsh_option : Option ℕ → List ℕ
borsh_option none = le_bytes 1 0 ++ []
borsh_option (some v) = le_bytes 1 1 ++ le_bytes 1 v

abbrev pub borsh_bool : Bool → List ℕ
borsh_bool b = le_bytes 1 (if b then 1 else 0)

abbrev pub borsh_config : ConfigAccount → List ℕ
borsh_config a = concat (
    a.admin
    ∷ a.oracle_signer
    ∷ a.quote_signer
    ∷ a.treasury_vault
    ∷ a.usdc_mint
    ∷ le_bytes 1 a.treasury_authority_bump
    ∷ le_bytes 1 a.treasury_vault_bump
    ∷ le_bytes 1 a.bump
    ∷ [])

abbrev pub borsh_market : MarketAccount → List ℕ
borsh_market a = concat (
    borsh_string a.polymarket_market_id
    ∷ a.polymarket_market_id_hash
    ∷ a.question_hash
    ∷ le_bytes 8 (i64_pattern a.end_time)
    ∷ le_bytes 2 a.tick_size
    ∷ borsh_string a.yes_token_id
    ∷ borsh_string a.no_token_id
    ∷ borsh_status a.status
    ∷ borsh_option a.winning_outcome
    ∷ le_bytes 8 a.total_yes
    ∷ le_bytes 8 a.total_no
    ∷ borsh_bool a.paused
    ∷ le_bytes 1 a.bump
    ∷ [])

abbrev pub borsh_user_position : UserPositionAccount → List ℕ
borsh_user_position a =
    concat (
      a.user ∷ a.market ∷ le_bytes 8 a.yes_shares ∷ le_bytes 8 a.no_shares ∷ le_bytes 1 a.bump ∷ [])

abbrev pub borsh_used_nonce : UsedNonceAccount → List ℕ
borsh_used_nonce a = concat (a.nonce ∷ le_bytes 1 a.bump ∷ [])

abbrev pub IsOptionU8 : Option ℕ → Type 0
IsOptionU8 none = Unit
IsOptionU8 (some v) = v < 256

-- The values that the Rust types hold.
pub record IsConfig (a : ConfigAccount) : Type 0 where
  pub admin_key : length a.admin ≡ 32
  pub oracle_key : length a.oracle_signer ≡ 32
  pub signer_key : length a.quote_signer ≡ 32
  pub vault_key : length a.treasury_vault ≡ 32
  pub mint_key : length a.usdc_mint ≡ 32
  pub authority_byte : a.treasury_authority_bump < 256
  pub vault_byte : a.treasury_vault_bump < 256
  pub bump_byte : a.bump < 256

pub record IsMarket (a : MarketAccount) : Type 0 where
  pub id_text : length a.polymarket_market_id < 2 ^ 32
  pub id_hash : length a.polymarket_market_id_hash ≡ 32
  pub question : length a.question_hash ≡ 32
  pub end_i64 : IsI64 a.end_time
  pub tick_u16 : a.tick_size < 2 ^ 16
  pub yes_text : length a.yes_token_id < 2 ^ 32
  pub no_text : length a.no_token_id < 2 ^ 32
  pub winner : IsOptionU8 a.winning_outcome
  pub yes_u64 : a.total_yes < 2 ^ 64
  pub no_u64 : a.total_no < 2 ^ 64
  pub bump_byte : a.bump < 256

pub record IsUserPosition (a : UserPositionAccount) : Type 0 where
  pub user_key : length a.user ≡ 32
  pub market_key : length a.market ≡ 32
  pub yes_u64 : a.yes_shares < 2 ^ 64
  pub no_u64 : a.no_shares < 2 ^ 64
  pub bump_byte : a.bump < 256

pub record IsUsedNonce (a : UsedNonceAccount) : Type 0 where
  pub nonce_bytes : length a.nonce ≡ 16
  pub bump_byte : a.bump < 256

Reads-status_of_tag : (s : MarketStatus) → Reads read_market_status s (borsh_status s)
unfolding read_market_status status_of_tag
Reads-status_of_tag market_open =
    subst (Reads read_market_status market_open) (append-nil _)
      (Reads-bind _ (Reads-read_u8 0 (omega arith)) (Reads-pure market_open))
Reads-status_of_tag market_resolved =
    subst (Reads read_market_status market_resolved) (append-nil _)
      (Reads-bind _ (Reads-read_u8 1 (omega arith)) (Reads-pure market_resolved))
Reads-status_of_tag market_cancelled =
    subst (Reads read_market_status market_cancelled) (append-nil _)
      (Reads-bind _ (Reads-read_u8 2 (omega arith)) (Reads-pure market_cancelled))

Reads-option_of_tag : (o : Option ℕ) → IsOptionU8 o → Reads read_optional_u8 o (borsh_option o)
unfolding read_optional_u8 option_of_tag
Reads-option_of_tag none h = Reads-bind _ (Reads-read_u8 0 (omega arith)) (Reads-pure none)
Reads-option_of_tag (some v) h =
    Reads-bind _ (Reads-read_u8 1 (omega arith)) (Reads-map _ (Reads-read_u8 v h))

bool_byte : (b : Bool) → (if b then 1 else 0) < 256
bool_byte b = ground arith

bool_back : (b : Bool) → not ((if b then 1 else 0) == 0) ≡ b
bool_back true = refl
bool_back false = refl

pub Reads-read_config : (a : ConfigAccount) → IsConfig a → Reads read_config a (borsh_config a)
Reads-read_config a h = Reads-bind _ (Reads-read_pubkey a.admin h.admin_key) (
    Reads-bind _ (Reads-read_pubkey a.oracle_signer h.oracle_key) (
      Reads-bind _ (Reads-read_pubkey a.quote_signer h.signer_key) (
        Reads-bind _ (Reads-read_pubkey a.treasury_vault h.vault_key) (
          Reads-bind _ (Reads-read_pubkey a.usdc_mint h.mint_key) (
            Reads-bind _ (Reads-read_u8 a.treasury_authority_bump h.authority_byte) (
              Reads-bind _ (Reads-read_u8 a.treasury_vault_bump h.vault_byte)
                (Reads-bind _ (Reads-read_u8 a.bump h.bump_byte) (Reads-pure a))))))))

pub Reads-read_market : (a : MarketAccount) → IsMarket a → Reads read_market a (borsh_market a)
Reads-read_market a h = Reads-bind _ (Reads-read_string a.polymarket_market_id h.id_text) (
    Reads-bind _ (Reads-read_fixed 32 a.polymarket_market_id_hash h.id_hash) (
      Reads-bind _ (Reads-read_fixed 32 a.question_hash h.question) (
        Reads-bind _ (Reads-read_i64_le a.end_time h.end_i64) (
          Reads-bind _ (Reads-read_u16_le a.tick_size h.tick_u16) (
            Reads-bind _ (Reads-read_string a.yes_token_id h.yes_text) (
              Reads-bind _ (Reads-read_string a.no_token_id h.no_text) (
                Reads-bind _ (Reads-status_of_tag a.status) (
                  Reads-bind _ (Reads-option_of_tag a.winning_outcome h.winner) (
                    Reads-bind _ (Reads-read_u64_le a.total_yes h.yes_u64) (
                      Reads-bind _ (Reads-read_u64_le a.total_no h.no_u64) (
                        Reads-bind _
                          (Reads-read_u8 (if a.paused then 1 else 0) (bool_byte a.paused))
                          (Reads-bind _ (Reads-read_u8 a.bump h.bump_byte) (
                            subst
                              (λ b.
                                Reads
                                  (pure
                                    (record a { paused = not ((if a.paused then 1 else 0) == 0) }))
                                  (record a { paused = b }) [])
                              (bool_back a.paused)
                              (Reads-pure (record a {
                                paused = not ((if a.paused then 1 else 0) == 0);
                              })))))))))))))))

pub Reads-read_user_position :
    (a : UserPositionAccount)
    → IsUserPosition a
    → Reads read_user_position a (borsh_user_position a)
Reads-read_user_position a h = Reads-bind _ (Reads-read_pubkey a.user h.user_key) (
    Reads-bind _ (Reads-read_pubkey a.market h.market_key) (
      Reads-bind _ (Reads-read_u64_le a.yes_shares h.yes_u64) (
        Reads-bind _ (Reads-read_u64_le a.no_shares h.no_u64)
          (Reads-bind _ (Reads-read_u8 a.bump h.bump_byte) (Reads-pure a)))))

pub Reads-read_used_nonce :
    (a : UsedNonceAccount) → IsUsedNonce a → Reads read_used_nonce a (borsh_used_nonce a)
Reads-read_used_nonce a h =
    Reads-bind _ (Reads-read_fixed 16 a.nonce h.nonce_bytes)
      (Reads-bind _ (Reads-read_u8 a.bump h.bump_byte) (Reads-pure a))
