-- ===== src/Contract/Emitted.antt =====
-- The events as the Rust program emits them (apps/solana/programs/contract/src/events.rs), against the event parsers
-- of packages/contract/src/decode.ts.
use highgarden.Base.{
  ℕ, ◌<◌, ◌≤◌, ◌^◌, ◌≡◌, refl, sym, ap, subst, false, some, List, [], ◌∷◌, ◌++◌, append-nil, length,
  length-append, ltb, take, drop, drop-append_length, take-append_length, arith,
}
use highgarden.Contract.Bytes.{le_bytes}
use highgarden.Contract.Writer.{concat}
use highgarden.Contract.Reader.{Read}
use highgarden.Contract.Accounts.{Sha256, event_disc, sha256_8}
use highgarden.Contract.Events.{
  OrderFilledEvent, MarketResolvedEvent, ClaimedEvent, PositionClosedEvent, parse_order_filled,
  parse_market_resolved, parse_claimed, parse_position_closed, Base64, parsed, try_parse_event,
}
use highgarden.Contract.Reads.{
  Reads, Reads-pure, Reads-bind, Reads-read_u8, Reads-read_u16_le, Reads-read_u64_le,
  Reads-read_fixed, Reads-read_pubkey, Reads-read_string,
}
use highgarden.Contract.Layout.{borsh_string}
use highgarden.Contract.RoundTrip.{same_bytes_refl, length-take}
use Prim.Native.String.{String}

-- An event of any of the four kinds.
pub data ChainEvent : Type 0 where
  order_filled : OrderFilledEvent → ChainEvent
  market_resolved : MarketResolvedEvent → ChainEvent
  claimed : ClaimedEvent → ChainEvent
  position_closed : PositionClosedEvent → ChainEvent

abbrev pub event_name : ChainEvent → String
event_name (order_filled e) = "OrderFilled"
event_name (market_resolved e) = "MarketResolved"
event_name (claimed e) = "Claimed"
event_name (position_closed e) = "PositionClosed"

abbrev pub borsh_event : ChainEvent → List ℕ
borsh_event (order_filled e) = concat (
    e.user
    ∷ e.market
    ∷ borsh_string e.polymarket_market_id
    ∷ le_bytes 1 e.side
    ∷ le_bytes 1 e.outcome
    ∷ le_bytes 8 e.size
    ∷ le_bytes 2 e.price
    ∷ e.nonce
    ∷ [])
borsh_event (market_resolved e) = concat (e.market ∷ le_bytes 1 e.winning_outcome ∷ [])
borsh_event (claimed e) =
    concat
      (e.user ∷ e.market ∷ le_bytes 1 e.outcome ∷ le_bytes 8 e.shares ∷ le_bytes 8 e.payout ∷ [])
borsh_event (position_closed e) = concat (e.user ∷ e.market ∷ e.rent_recipient ∷ [])

-- The values that the Rust types hold.
pub record IsOrderFilled (e : OrderFilledEvent) : Type 0 where
  pub user_key : length e.user ≡ 32
  pub market_key : length e.market ≡ 32
  pub id_text : length e.polymarket_market_id < 2 ^ 32
  pub side_u8 : e.side < 256
  pub outcome_u8 : e.outcome < 256
  pub size_u64 : e.size < 2 ^ 64
  pub price_u16 : e.price < 2 ^ 16
  pub nonce_bytes : length e.nonce ≡ 16

pub record IsClaimed (e : ClaimedEvent) : Type 0 where
  pub user_key : length e.user ≡ 32
  pub market_key : length e.market ≡ 32
  pub outcome_u8 : e.outcome < 256
  pub shares_u64 : e.shares < 2 ^ 64
  pub payout_u64 : e.payout < 2 ^ 64

abbrev pub IsEvent : ChainEvent → Type 0
IsEvent (order_filled e) = IsOrderFilled e
IsEvent (market_resolved e) = (length e.market ≡ 32) × (e.winning_outcome < 256)
IsEvent (claimed e) = IsClaimed e
IsEvent (position_closed e) =
    (length e.user ≡ 32) × (length e.market ≡ 32) × (length e.rent_recipient ≡ 32)

-- The parser for the kind of this event makes this event of the text.
abbrev pub ParsesTo : Sha256 → Base64 → List ℕ → ChainEvent → Type 0
ParsesTo sha b64 text (order_filled e) =
    try_parse_event b64 text (event_disc sha "OrderFilled") parse_order_filled ≡ some e
ParsesTo sha b64 text (market_resolved e) =
    try_parse_event b64 text (event_disc sha "MarketResolved") parse_market_resolved ≡ some e
ParsesTo sha b64 text (claimed e) =
    try_parse_event b64 text (event_disc sha "Claimed") parse_claimed ≡ some e
ParsesTo sha b64 text (position_closed e) =
    try_parse_event b64 text (event_disc sha "PositionClosed") parse_position_closed ≡ some e

try_parse_event_lem :
    {A : Type 0} (b64 : Base64) (text disc body : List ℕ) (parse : Read A) (v : A)
    → length disc ≡ 8
    → b64 text ≡ disc ++ body
    → Reads parse v body
    → try_parse_event b64 text disc parse ≡ some v
unfolding try_parse_event
try_parse_event_lem b64 text disc body parse v len raw reads =
    let front : take 8 (disc ++ body) ≡ disc =
      subst (λ n. take n (disc ++ body) ≡ disc) len (take-append_length disc body) in
    let back : drop 8 (disc ++ body) ≡ body =
      subst (λ n. drop n (disc ++ body) ≡ body) len (drop-append_length disc body) in
    let long : ltb (length (disc ++ body)) 8 ≡ false =
      (let l = length-append disc body in ground arith) in
    rw (raw, long, front, back, same_bytes_refl disc)
      (ap parsed
        (reads.holds (record { buf = body; cursor = 0 }) [] ([], sym (append-nil body), refl)).0)

length-event_disc :
    (sha : Sha256)
    → ((bs : List ℕ) → length (sha bs) ≡ 32)
    → (name : String) → length (event_disc sha name) ≡ 8
unfolding sha256_8
length-event_disc sha digest name =
    length-take 8 (sha _) (subst (λ n. 8 ≤ n) (sym (digest _)) (omega arith))

-- With a hash whose digests have 32 bytes, and where base64 decodes the data line's text to the bytes that the Rust
-- program emitted (the event's discriminator and its fields in the order of the Rust struct), the parser for that
-- event gives back the event.
pub try_parse_event-borsh_event :
    (sha : Sha256) (digest : (bs : List ℕ) → length (sha bs) ≡ 32) (b64 : Base64) (text : List ℕ)
    (e : ChainEvent) (valid : IsEvent e)
    (decodes : b64 text ≡ event_disc sha (event_name e) ++ borsh_event e)
    → ParsesTo sha b64 text e
try_parse_event-borsh_event sha digest b64 text (order_filled e) h d =
    try_parse_event_lem b64 text _ _ parse_order_filled e
      (length-event_disc sha digest "OrderFilled") d
      (Reads-bind _ (Reads-read_pubkey e.user h.user_key) (
        Reads-bind _ (Reads-read_pubkey e.market h.market_key) (
          Reads-bind _ (Reads-read_string e.polymarket_market_id h.id_text) (
            Reads-bind _ (Reads-read_u8 e.side h.side_u8) (
              Reads-bind _ (Reads-read_u8 e.outcome h.outcome_u8) (
                Reads-bind _ (Reads-read_u64_le e.size h.size_u64) (
                  Reads-bind _ (Reads-read_u16_le e.price h.price_u16)
                    (Reads-bind _ (Reads-read_fixed 16 e.nonce h.nonce_bytes) (Reads-pure e)))))))))
try_parse_event-borsh_event sha digest b64 text (market_resolved e) h d =
    try_parse_event_lem b64 text _ _ parse_market_resolved e
      (length-event_disc sha digest "MarketResolved") d
      (Reads-bind _ (Reads-read_pubkey e.market h.0)
        (Reads-bind _ (Reads-read_u8 e.winning_outcome h.1) (Reads-pure e)))
try_parse_event-borsh_event sha digest b64 text (claimed e) h d =
    try_parse_event_lem b64 text _ _ parse_claimed e (length-event_disc sha digest "Claimed") d (
      Reads-bind _ (Reads-read_pubkey e.user h.user_key) (
        Reads-bind _ (Reads-read_pubkey e.market h.market_key) (
          Reads-bind _ (Reads-read_u8 e.outcome h.outcome_u8) (
            Reads-bind _ (Reads-read_u64_le e.shares h.shares_u64)
              (Reads-bind _ (Reads-read_u64_le e.payout h.payout_u64) (Reads-pure e))))))
try_parse_event-borsh_event sha digest b64 text (position_closed e) h d =
    try_parse_event_lem b64 text _ _ parse_position_closed e
      (length-event_disc sha digest "PositionClosed") d
      (Reads-bind _ (Reads-read_pubkey e.user h.0) (
        Reads-bind _ (Reads-read_pubkey e.market h.1)
          (Reads-bind _ (Reads-read_pubkey e.rent_recipient h.2) (Reads-pure e))))
