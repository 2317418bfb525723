-- ===== src/SolanaTrade.antt =====
-- apps/server/services/service.solana-trade.ts: the on-chain leg of a trade, and the `Fill` row that
-- it writes at once. The quote's signature check and the transfer are the contract's.
use highgarden.Base.{if◌then◌else◌, List, ℕ, not, Option, none, some, ◌∷◌, ◌==◌, find}
use highgarden.Database.{truthy}
use highgarden.Trade.{
  other_error, World, MarketRow, UserRow, SignedQuote, SendReply, Services, Settings, Action, ok,
  pure, gets, or_throw, throw_if, modify, ◌>>=◌, ◌>>◌, find_keypair, find_pda, record_fill,
}
use highgarden.Pretrade.{user_row}
use highgarden.Records.{insert_fill}

-- The stored key pair, when both halves are there.
abbrev pub keypair_of : Option UserRow → Option (ℕ × ℕ)
keypair_of none = none
keypair_of (some u) = elim (truthy u.custodial_secret_encrypted) [
  | none ↦ none
  | some secret ↦ elim (truthy u.custodial_public_key) [
    | none ↦ none
    | some public ↦ some (secret, public)
  ]
]

unfoldable pub load_custodial_keypair : Services → ℕ → Action ℕ
load_custodial_keypair sv user_id = do
  throw_if (not (sv.db_up find_keypair)) other_error
  row ← gets (user_row user_id)
  pair ← or_throw (keypair_of row) other_error
  throw_if (not (sv.keypair_matches pair.0 pair.1)) other_error
  pure pair.1

abbrev pub pda_of : Option MarketRow → Option ℕ
pda_of none = none
pda_of (some m) = truthy m.solana_market_pda

abbrev pub market_row : ℕ → World → Option MarketRow
market_row id w = find (λ m. m.id == id) w.markets

unfoldable pub load_market_pda : Services → ℕ → Action ℕ
load_market_pda sv market_db_id = do
  throw_if (not (sv.db_up find_pda)) other_error
  row ← gets (market_row market_db_id)
  or_throw (pda_of row) other_error

unfoldable pub assert_quote_market : SignedQuote → ℕ → Action (Unit {0})
assert_quote_market quote market_pda = throw_if (not (quote.market == market_pda)) other_error

abbrev pub landed_with : SendReply → SignedQuote → List SignedQuote → List SignedQuote
landed_with sent quote ss = if sent.landed then quote ∷ ss else ss

-- The client's `placeOrder`.
unfoldable pub send_place_order : Services → SignedQuote → Action ℕ
send_place_order sv quote = do
  modify λ w. record w { submissions = landed_with (sv.send_place_order quote) quote w.submissions }
  or_throw (sv.send_place_order quote).signature other_error

-- Every failure is swallowed.
unfoldable pub record_fill_idempotent : Services → ℕ → ℕ → SignedQuote → ℕ → Action (Unit {0})
unfolding insert_fill
record_fill_idempotent sv user_id market_db_id quote tx_signature w = (
  ok tt,
  (insert_fill (sv.db_up record_fill)
      (record {
        id = w.next_id;
        user_id = user_id;
        market_id = market_db_id;
        side = quote.side;
        outcome = quote.outcome;
        price = quote.price;
        size = quote.size;
        solana_tx_sig = tx_signature;
        nonce = some quote.nonce;
        netted_from_inventory_id = none;
      })
      w).1,
)

-- Returns the transaction's signature.
unfoldable pub place_order : Settings → Services → ℕ → ℕ → SignedQuote → Action ℕ
place_order st sv user_id market_db_id signed_quote = do
  load_custodial_keypair sv user_id
  market_pda ← load_market_pda sv market_db_id
  assert_quote_market signed_quote market_pda
  throw_if (not st.fee_payer_set) other_error
  sig ← send_place_order sv signed_quote
  record_fill_idempotent sv user_id market_db_id signed_quote sig
  pure sig
