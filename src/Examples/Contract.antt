-- ===== src/Examples/Contract.antt =====
-- A quote, an account, an event and a transaction's log: packages/contract/src.
use highgarden.Base.{ℕ, ◌≡◌, ◌⊎◌, refl, arith, List, [], ◌∷◌, ◌++◌, length, none, false}
use highgarden.Base.Int.{pos}
use highgarden.Call.{ok, err}
use highgarden.Contract.{
  QuoteInput, WriteError, serialize_signed_quote, MarketAccount, market_open, Sha256, account_disc,
  event_disc, codes, parse_market_resolved, Base64, decode_events, strip_prefix,
}
use highgarden.Contract.Quote.{InRange, rust_read, serialize_signed_quote_read}
use highgarden.Contract.RoundTrip.{market_account, borsh_account, DecodesTo, decode-borsh_account}
use highgarden.Contract.Emitted.{
  ChainEvent, market_resolved, borsh_event, ParsesTo, try_parse_event-borsh_event,
}
use highgarden.Contract.Trace.{
  Frame, IsFrame, AreItems, IsDataText, frame, nil, emitted, called, success, failed,
}
use highgarden.Contract.Nested.{
  transaction_lines, transaction_events, decode_events-transaction_lines,
}

abbrev key : List ℕ
key =
    7 ∷ 7 ∷ 7 ∷ 7 ∷ 7 ∷ 7 ∷ 7 ∷ 7 ∷ 7 ∷ 7 ∷ 7 ∷ 7 ∷ 7 ∷ 7 ∷ 7 ∷ 7 ∷ 7 ∷ 7 ∷ 7 ∷ 7 ∷ 7 ∷ 7 ∷ 7 ∷ 7
    ∷ 7 ∷ 7 ∷ 7 ∷ 7 ∷ 7 ∷ 7 ∷ 7 ∷ 7 ∷ []

abbrev quote : QuoteInput
quote = record {
  market = key;
  side = 0;
  outcome = 1;
  price = 47;
  size = 10;
  expires_at = pos 9000;
  nonce = 1 ∷ 2 ∷ 3 ∷ 4 ∷ 5 ∷ 6 ∷ 7 ∷ 8 ∷ 9 ∷ 10 ∷ 11 ∷ 12 ∷ 13 ∷ 14 ∷ 15 ∷ 16 ∷ [];
}

serialize_signed_quote_read_example :
    ((out : List ℕ) × (serialize_signed_quote quote ≡ ok out)
      × (length out ≡ 68)
      × (rust_read out ≡ ok quote)
      × InRange quote
      × (length quote.nonce ≡ 16))
    ⊎ ((e : WriteError) × (serialize_signed_quote quote ≡ err e)
        × (¬ (InRange quote × (length quote.nonce ≡ 16))))
serialize_signed_quote_read_example = serialize_signed_quote_read quote refl

-- A digest, and what base64 decodes to, for the examples.
abbrev sha : Sha256
sha bs = key

abbrev market : MarketAccount
market = record {
  polymarket_market_id = codes "0x9a";
  polymarket_market_id_hash = key;
  question_hash = key;
  end_time = pos 9000;
  tick_size = 1;
  yes_token_id = codes "71";
  no_token_id = codes "72";
  status = market_open;
  winning_outcome = none;
  total_yes = 10;
  total_no = 4;
  paused = false;
  bump = 254;
}

decode-borsh_account_example :
    DecodesTo sha
      (account_disc sha "Market" ++ (borsh_account (market_account market) ++ (0 ∷ 0 ∷ [])))
      (market_account market)
decode-borsh_account_example =
    decode-borsh_account sha (λ bs. refl) (market_account market)
      (record {
        id_text = omega arith;
        id_hash = refl;
        question = refl;
        end_i64 = omega arith;
        tick_u16 = omega arith;
        yes_text = omega arith;
        no_text = omega arith;
        winner = tt;
        yes_u64 = omega arith;
        no_u64 = omega arith;
        bump_byte = omega arith;
      })
      (0 ∷ 0 ∷ [])

abbrev resolution : ChainEvent
resolution = market_resolved (record { market = key; winning_outcome = 1 })

abbrev b64 : Base64
b64 text = event_disc sha "MarketResolved" ++ borsh_event resolution

try_parse_event-borsh_event_example : ParsesTo sha b64 (codes "BwcH") resolution
try_parse_event-borsh_event_example =
    try_parse_event-borsh_event sha (λ bs. refl) b64 (codes "BwcH") resolution (refl, omega arith)
      refl

-- The program Ours emits, calls the program Other, which emits too, and emits again.
abbrev run_of_ours : Frame
run_of_ours =
    frame (codes "Ours") (codes "1")
      (emitted (codes "BwcH") (
        called
          (frame (codes "Other") (codes "2") (emitted (codes "BwcH") nil) (failed (codes ": x")))
          (emitted (codes "BwcH") nil)))
      success

data_ok : IsDataText (codes "BwcH")
unfolding strip_prefix
data_ok = record {
  base64 = (refl, (refl, (refl, (refl, tt))));
  no_success = refl;
  no_failure = refl;
}

run_of_ours-IsFrame : IsFrame run_of_ours
unfolding IsFrame AreItems
run_of_ours-IsFrame = (
  (refl, (refl, (refl, (refl, tt)))),
  (refl, tt),
  (
    data_ok,
    (((refl, (refl, (refl, (refl, (refl, tt))))), (refl, tt), (data_ok, tt)), (data_ok, tt)),
  ),
)

decode_events-transaction_lines_example :
    decode_events b64
      (codes "Ours")
      (event_disc sha "MarketResolved")
      parse_market_resolved
      (transaction_lines (run_of_ours ∷ []))
    ≡ transaction_events b64
        (codes "Ours")
        (event_disc sha "MarketResolved")
        parse_market_resolved
        (run_of_ours ∷ [])
decode_events-transaction_lines_example =
    decode_events-transaction_lines b64 (codes "Ours") (event_disc sha "MarketResolved")
      parse_market_resolved (run_of_ours ∷ []) (run_of_ours-IsFrame, tt)
