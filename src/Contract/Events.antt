-- ===== src/Contract/Events.antt =====
-- Events out of a transaction's log lines: `EventLogDecoder` of packages/contract/src/decode.ts.
use highgarden.Base.{
  ℕ, Bool, true, false, not, Option, none, some, List, [], ◌∷◌, length, ltb, if◌then◌else◌, take,
  drop,
}
use highgarden.Call.{Reply, ok, err, pure, ◌>>=◌}
use highgarden.Contract.Reader.{
  ReadError, Read, read_u8, read_u16_le, read_u64_le, read_fixed, read_pubkey, read_string,
}
use highgarden.Contract.Accounts.{same_bytes, Sha256, event_disc}
use highgarden.Contract.LogLines.{match_invoke, match_terminator, match_program_data}

pub record OrderFilledEvent : Type 0 where
  pub user : List ℕ
  pub market : List ℕ
  pub polymarket_market_id : List ℕ
  pub side : ℕ
  pub outcome : ℕ
  pub size : ℕ
  pub price : ℕ
  pub nonce : List ℕ

pub record MarketResolvedEvent : Type 0 where
  pub market : List ℕ
  pub winning_outcome : ℕ

pub record ClaimedEvent : Type 0 where
  pub user : List ℕ
  pub market : List ℕ
  pub outcome : ℕ
  pub shares : ℕ
  pub payout : ℕ

pub record PositionClosedEvent : Type 0 where
  pub user : List ℕ
  pub market : List ℕ
  pub rent_recipient : List ℕ

abbrev pub parse_order_filled : Read OrderFilledEvent
parse_order_filled = do
  user ← read_pubkey
  market ← read_pubkey
  polymarket_market_id ← read_string
  side ← read_u8
  outcome ← read_u8
  size ← read_u64_le
  price ← read_u16_le
  nonce ← read_fixed 16
  pure (record {
    user = user;
    market = market;
    polymarket_market_id = polymarket_market_id;
    side = side;
    outcome = outcome;
    size = size;
    price = price;
    nonce = nonce;
  })

abbrev pub parse_market_resolved : Read MarketResolvedEvent
parse_market_resolved = do
  market ← read_pubkey
  winning_outcome ← read_u8
  pure (record { market = market; winning_outcome = winning_outcome })

abbrev pub parse_claimed : Read ClaimedEvent
parse_claimed = do
  user ← read_pubkey
  market ← read_pubkey
  outcome ← read_u8
  shares ← read_u64_le
  payout ← read_u64_le
  pure
      (record { user = user; market = market; outcome = outcome; shares = shares; payout = payout })

abbrev pub parse_position_closed : Read PositionClosedEvent
parse_position_closed = do
  user ← read_pubkey
  market ← read_pubkey
  rent_recipient ← read_pubkey
  pure (record { user = user; market = market; rent_recipient = rent_recipient })

-- `Buffer.from(text, "base64")`
abbrev pub Base64 : Type 0
Base64 = List ℕ → List ℕ

abbrev pub parsed : {A : Type 0} → Reply ReadError A → Option A
parsed (ok e) = some e
parsed (err e) = none

unfoldable pub try_parse_event : {A : Type 0} → Base64 → List ℕ → List ℕ → Read A → Option A
try_parse_event from_base64 text disc parse =
    let raw = from_base64 text in
    if ltb (length raw) 8
    then none
    else if not (same_bytes (take 8 raw) disc)
    then none
    else parsed (parse (record { buf = drop 8 raw; cursor = 0 })).0

-- `out.push(event)`
abbrev pub pushed_event : {A : Type 0} → Option A → List A → List A
pushed_event none es = es
pushed_event (some e) es = e ∷ es

-- stack[stack.length - 1] === this.programIdStr, where the list's head is the top.
abbrev pub top_is : List ℕ → List (List ℕ) → Bool
top_is id [] = false
top_is id (t ∷ stack) = same_bytes t id

abbrev pub pop : List (List ℕ) → List (List ℕ)
pop [] = []
pop (t ∷ stack) = stack

abbrev pub is_empty_text : List ℕ → Bool
is_empty_text [] = true
is_empty_text (c ∷ cs) = false

-- The loop over the lines, from a stack on.
module _ {A : Type 0} (from_base64 : Base64) (id disc : List ℕ) (parse : Read A) where
  unfoldable pub decode_from : List (List ℕ) → List (List ℕ) → List A
  decode_from stack [] = []
  decode_from stack (line ∷ lines) = elim (match_invoke line) [
    | some w ↦ decode_from (w ∷ stack) lines
    | none ↦ elim (match_terminator line) [
      | true ↦ decode_from (pop stack) lines
      | false ↦ elim (match_program_data line) [
        | none ↦ decode_from stack lines
        | some text ↦
            pushed_event
              (if is_empty_text text
                then none
                else if not (top_is id stack)
                then none
                else try_parse_event from_base64 text disc parse)
              (decode_from stack lines)
      ]
    ]
  ]

  unfoldable pub decode_events : List (List ℕ) → List A
  unfolding decode_from
  decode_events lines = decode_from [] lines

module _ (sha : Sha256) (from_base64 : Base64) (id : List ℕ) where
  unfoldable pub decode_order_filled : List (List ℕ) → List OrderFilledEvent
  decode_order_filled =
      decode_events from_base64 id (event_disc sha "OrderFilled") parse_order_filled

  unfoldable pub decode_market_resolved : List (List ℕ) → List MarketResolvedEvent
  decode_market_resolved =
      decode_events from_base64 id (event_disc sha "MarketResolved") parse_market_resolved

  unfoldable pub decode_claimed : List (List ℕ) → List ClaimedEvent
  decode_claimed = decode_events from_base64 id (event_disc sha "Claimed") parse_claimed

  unfoldable pub decode_position_closed : List (List ℕ) → List PositionClosedEvent
  decode_position_closed =
      decode_events from_base64 id (event_disc sha "PositionClosed") parse_position_closed
