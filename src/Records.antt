-- ===== src/Records.antt =====
-- The rows that a trade writes: `persist_quote`, `mark_quote_consumed`, `persist_fill_and_hedge` and
-- `record_orphan_inventory` of apps/server/services/service.trade-orchestrator.ts, with the unique and
-- foreign keys of packages/database/prisma/schema/marketplace.prisma that they lean on.
use highgarden.Base.{
  ℕ, suc, ◌*◌, Bool, true, false, ◌||◌, not, Option, none, some, List, [], ◌∷◌, ◌==◌, any,
  update_where, if◌then◌else◌,
}
use highgarden.Database.{InventoryRow, QuoteRow, FillRow, netted_text}
use highgarden.Trade.{
  other_error, World, ServerHedgeRow, TradeRequest, ResolvedMarket, SignedQuote, Services, Action,
  Result, ok, err, create_quote, consume_quote, create_fill_and_hedge, create_orphan,
}
use highgarden.Pricing.{HedgeFilled}

-- What a `create` comes to: P2002 is the violation of a unique key.
pub data DbReply : Type 0 where
  written p2002 db_error : DbReply

abbrev pub same_key : Option ℕ → Option ℕ → Bool
same_key (some a) (some b) = a == b
same_key _ _ = false

-- Fill.nonce, Fill.solanaTxSig and Fill.nettedFromInventoryId are unique.
abbrev pub fill_clash : FillRow → FillRow → Bool
fill_clash r f =
    same_key f.nonce r.nonce
    || f.solana_tx_sig == r.solana_tx_sig
    || same_key f.netted_from_inventory_id r.netted_from_inventory_id

-- Fill.nonce refers to Quote.nonce.
abbrev pub has_quote : Option ℕ → List QuoteRow → Bool
has_quote none qs = true
has_quote (some n) qs = any (λ q. q.nonce == n) qs

unfoldable pub insert_fill : Bool → FillRow → World → DbReply × World
insert_fill up r w =
    if not up
    then (db_error, w)
    else if any (fill_clash r) w.fills
    then (p2002, w)
    else if not (has_quote r.nonce w.quotes)
    then (db_error, w)
    else (written, record w { fills = r ∷ w.fills; next_id = suc w.next_id })

unfoldable pub insert_quote : Bool → QuoteRow → World → DbReply × World
insert_quote up r w =
    if not up
    then (db_error, w)
    else if any (λ q. q.nonce == r.nonce) w.quotes
    then (p2002, w)
    else (written, record w { quotes = r ∷ w.quotes })

abbrev pub quote_row : ℕ → TradeRequest → ℕ → ℕ → SignedQuote → ℕ → QuoteRow
quote_row market_db_id req price_cents size_shares signed expires_at_unix = record {
  nonce = signed.nonce;
  market_id = market_db_id;
  side = req.side;
  outcome = req.outcome;
  price = price_cents;
  size = size_shares;
  expires_at = expires_at_unix * 1000;
  consumed = false;
}

-- A second row under one nonce is no error; any other error is thrown.
abbrev pub unless_db_error : DbReply × World → Result (Unit {0}) × World
unless_db_error (written, w) = (ok tt, w)
unless_db_error (p2002, w) = (ok tt, w)
unless_db_error (db_error, w) = (err other_error, w)

unfoldable pub persist_quote :
    Services → ℕ → TradeRequest → ℕ → ℕ → SignedQuote → ℕ → Action (Unit {0})
unfolding insert_quote
persist_quote sv market_db_id req price_cents size_shares signed expires_at_unix w =
    unless_db_error (
      insert_quote (sv.db_up create_quote)
        (quote_row market_db_id req price_cents size_shares signed expires_at_unix) w)

abbrev pub consume_where : ℕ → List QuoteRow → List QuoteRow
consume_where nonce = update_where (λ q. q.nonce == nonce) (λ q. record q { consumed = true })

-- Failure is logged only.
unfoldable pub mark_quote_consumed : Services → ℕ → Action (Unit {0})
mark_quote_consumed sv nonce w = (
  ok tt,
  if sv.db_up consume_quote then record w { quotes = consume_where nonce w.quotes } else w,
)

-- Hedge.bullJobId and Hedge.clientOrderId are unique (Hedge.fillId too, of a new fill).
abbrev pub hedge_clash : ServerHedgeRow → ServerHedgeRow → Bool
hedge_clash r h = h.bull_job_id == r.bull_job_id || same_key h.client_order_id r.client_order_id

abbrev pub insert_hedge : ServerHedgeRow → World → DbReply × World → World
insert_hedge r before (written, w) =
    if any (hedge_clash r) w.hedges then before else record w { hedges = r ∷ w.hedges }
insert_hedge r before (p2002, w) = before
insert_hedge r before (db_error, w) = before

abbrev pub first_id : List ℕ → Option ℕ
first_id [] = none
first_id (i ∷ is) = some i

-- One transaction; every failure is swallowed.
unfoldable pub persist_fill_and_hedge :
    Services → TradeRequest → ResolvedMarket → SignedQuote → HedgeFilled → ℕ → ℕ → Action (Unit {0})
unfolding insert_fill
persist_fill_and_hedge sv req market signed hedge price_cents tx_signature w = (
  ok tt,
  insert_hedge
      (record {
        fill_id = w.next_id;
        polymarket_order_id = hedge.polymarket_order_id;
        polymarket_token_id = market.token_id;
        polymarket_side = market.polymarket_side;
        bull_job_id = signed.nonce;
        client_order_id = if hedge.netted_from_inventory then none else some signed.nonce;
        requested_size = hedge.filled_shares;
        filled_size = hedge.filled_shares;
        avg_price = hedge.avg_price_cents;
      })
      w
      (insert_fill (sv.db_up create_fill_and_hedge)
        (record {
          id = w.next_id;
          user_id = req.user_id;
          market_id = market.id;
          side = req.side;
          outcome = req.outcome;
          price = price_cents;
          size = hedge.filled_shares;
          solana_tx_sig = tx_signature;
          nonce = some signed.nonce;
          netted_from_inventory_id = first_id hedge.netted_inventory_ids;
        })
        w),
)

abbrev pub orphan_row : World → ℕ → ResolvedMarket → HedgeFilled → InventoryRow
orphan_row w now market hedge = record {
  id = w.next_id;
  market_id = market.id;
  polymarket_order_id = hedge.polymarket_order_id;
  polymarket_token_id = market.token_id;
  side = market.polymarket_side;
  outcome = market.outcome;
  shares = hedge.filled_shares;
  avg_price_cents = hedge.avg_price_cents;
  created_at = now;
  netted_at = none;
  liquidated_at = none;
}

-- PlatformInventory.polymarketOrderId is unique; a failed `create` is logged only.
unfoldable pub record_orphan_inventory : Services → ResolvedMarket → HedgeFilled → Action (Unit {0})
record_orphan_inventory sv market hedge w = (
  ok tt,
  if hedge.polymarket_order_id == netted_text
      then w
      else if not (sv.db_up create_orphan)
      then w
      else if any (λ r. r.polymarket_order_id == hedge.polymarket_order_id) w.inventory
      then w
      else record w {
        inventory = orphan_row w sv.now market hedge ∷ w.inventory;
        next_id = suc w.next_id;
      },
)
