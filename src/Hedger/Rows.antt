-- ===== src/Hedger/Rows.antt =====
-- The queries of a hedge job: apps/hedger/db/{user,market,fill,hedge,exposure}.ts.
use highgarden.Base.{
  ◌||◌, ℕ, suc, Bool, false, not, Option, none, some, List, [], ◌∷◌, ◌==◌, any, find, update_where,
  if◌then◌else◌,
}
use highgarden.Base.Int.{ℤ, ◌+ℤ◌}
use highgarden.Database.{Side, Outcome, pending, hedging, filled, partial, FillRow, truthy}
use highgarden.Call.{Reply, ok, err, pure, throw, gets, throw_if, modify, ◌>>=◌, ◌>>◌}
use highgarden.Trade.{MarketRow, PolyMarketRow, UserRow}
use highgarden.Records.{same_key, fill_clash, has_quote}
use highgarden.Hedger.State.{
  HedgeFailure, unexpected, HedgeCall, HedgeServices, Query, HedgeRow, ClientId, hedger_id,
  server_id, Exposure, MarketMetadata, HedgeJob, HedgeDirection, find_user, find_market, find_fill,
  create_fill, find_hedge, create_hedge, mark_hedging_row, mark_done_row,
}

abbrev pub reach : HedgeServices → Query → HedgeCall (Unit {0})
reach sv q = throw_if (not (sv.query_up q)) unexpected

abbrev pub user_with_key : ℕ → List UserRow → Option UserRow
user_with_key pubkey us = find (λ u. same_key u.custodial_public_key (some pubkey)) us

abbrev pub user_id_of : Option UserRow → Option ℕ
user_id_of none = none
user_id_of (some u) = elim (truthy u.custodial_public_key) [ none ↦ none | some k ↦ some u.id ]

unfoldable pub find_by_custodial_pubkey : HedgeServices → ℕ → HedgeCall (Option ℕ)
find_by_custodial_pubkey sv pubkey = do
  reach sv find_user
  gets λ h. user_id_of (user_with_key pubkey h.users)

abbrev pub metadata : MarketRow → PolyMarketRow → MarketMetadata
metadata m p = record {
  id = m.id;
  yes_token_id = p.yes_token_id;
  no_token_id = p.no_token_id;
  tick_size = p.tick_size;
  neg_risk = p.neg_risk;
}

-- A market without its Polymarket row throws.
abbrev pub shape_market : Option MarketRow → HedgeCall (Option MarketMetadata)
shape_market none = pure none
shape_market (some m) = elim m.polymarket [
  | none ↦ throw unexpected
  | some p ↦ pure (some (metadata m p))
]

unfoldable pub find_by_pda : HedgeServices → ℕ → HedgeCall (Option MarketMetadata)
find_by_pda sv pda = do
  reach sv find_market
  row ← gets (λ h. find (λ m. same_key m.solana_market_pda (some pda)) h.markets)
  shape_market row

-- A row without a nonce has no shape.
abbrev pub shape_fill : Option FillRow → Option FillRow
shape_fill none = none
shape_fill (some r) = elim (truthy r.nonce) [ none ↦ none | some n ↦ some r ]

unfoldable pub find_by_nonce : ℕ → List FillRow → Option FillRow
find_by_nonce nonce fs = shape_fill (find (λ f. same_key f.nonce (some nonce)) fs)

abbrev pub shaped : Option FillRow → Reply HedgeFailure FillRow
shaped none = err unexpected
shaped (some r) = ok r

abbrev pub again : Option ℕ → List FillRow → Option FillRow
again none fs = none
again (some nonce) fs = find_by_nonce nonce fs

-- `create`, and on P2002 the lookup again. A row that is created without a nonce is an error, though
-- it stays.
abbrev pub create_fill_row : FillRow → HedgeCall FillRow
create_fill_row r h =
    if any (fill_clash r) h.fills
    then elim (again r.nonce h.fills) [ some old ↦ (ok old, h) | none ↦ (err unexpected, h) ]
    else if not (has_quote r.nonce h.quotes)
    then (err unexpected, h)
    else (shaped (shape_fill (some r)), record h { fills = r ∷ h.fills; next_id = suc h.next_id })

abbrev pub fill_row_of : ℕ → HedgeJob → ℕ → ℕ → Side → Outcome → FillRow
fill_row_of id job user_id market_id side outcome = record {
  id = id;
  user_id = user_id;
  market_id = market_id;
  side = side;
  outcome = outcome;
  price = job.price;
  size = job.size;
  solana_tx_sig = job.signature;
  nonce = some job.nonce;
  netted_from_inventory_id = none;
}

abbrev pub insert_missing_fill : HedgeServices → (ℕ → FillRow) → Option FillRow → HedgeCall FillRow
insert_missing_fill sv row (some old) = pure old
insert_missing_fill sv row none = do
  reach sv create_fill
  modify λ h. record h { fills = sv.rival_fills h.fills }
  id ← gets (λ h. h.next_id)
  create_fill_row (row id)

-- Fill.insert_idempotent; the row is given up to its id.
unfoldable pub insert_fill_idempotent : HedgeServices → ℕ → (ℕ → FillRow) → HedgeCall FillRow
insert_fill_idempotent sv nonce row = do
  reach sv find_fill
  existing ← gets (λ h. find_by_nonce nonce h.fills)
  insert_missing_fill sv row existing

unfoldable pub find_by_fill_id : ℕ → List HedgeRow → Option HedgeRow
find_by_fill_id fill_id hs = find (λ r. r.fill_id == fill_id) hs

abbrev pub same_client_id : Option ClientId → Option ClientId → Bool
same_client_id (some (hedger_id a)) (some (hedger_id b)) = a == b
same_client_id (some (server_id a)) (some (server_id b)) = a == b
same_client_id _ _ = false

-- Hedge.fillId, Hedge.bullJobId and Hedge.clientOrderId are unique.
abbrev pub hedge_row_clash : HedgeRow → HedgeRow → Bool
hedge_row_clash r x =
    x.fill_id == r.fill_id
    || same_key x.bull_job_id r.bull_job_id
    || same_client_id x.client_order_id r.client_order_id

abbrev pub create_hedge_row : HedgeRow → HedgeCall HedgeRow
create_hedge_row r h =
    if any (hedge_row_clash r) h.hedges
    then elim (find_by_fill_id r.fill_id h.hedges) [
      | some old ↦ (ok old, h)
      | none ↦ (err unexpected, h)
    ]
    else (ok r, record h { hedges = r ∷ h.hedges; next_id = suc h.next_id })

abbrev pub hedge_row_of : ℕ → ℕ → ℕ → HedgeDirection → ℕ → HedgeRow
hedge_row_of id fill_id bull_job_id direction size_shares = record {
  id = id;
  fill_id = fill_id;
  status = pending;
  bull_job_id = some bull_job_id;
  client_order_id = some (hedger_id bull_job_id);
  polymarket_order_id = none;
  polymarket_token_id = some direction.token_id;
  polymarket_side = some direction.polymarket_side;
  requested_size = some size_shares;
  filled_size = 0;
  avg_price = none;
  attempts = 0;
  last_error = none;
}

abbrev pub insert_missing_hedge :
    HedgeServices → (ℕ → HedgeRow) → Option HedgeRow → HedgeCall HedgeRow
insert_missing_hedge sv row (some old) = pure old
insert_missing_hedge sv row none = do
  reach sv create_hedge
  modify λ h. record h { hedges = sv.rival_hedges h.hedges }
  id ← gets (λ h. h.next_id)
  create_hedge_row (row id)

-- Hedge.create_idempotent; the row is given up to its id.
unfoldable pub create_hedge_idempotent : HedgeServices → ℕ → (ℕ → HedgeRow) → HedgeCall HedgeRow
unfolding find_by_fill_id
create_hedge_idempotent sv fill_id row = do
  reach sv find_hedge
  existing ← gets (λ h. find_by_fill_id fill_id h.hedges)
  insert_missing_hedge sv row existing

-- prisma.hedge.update({ where: { id }, … }): no row of the id is an error.
unfoldable pub update_hedge :
    HedgeServices → Query → ℕ → (HedgeRow → HedgeRow) → HedgeCall (Unit {0})
update_hedge sv q id change = do
  reach sv q
  there ← gets (λ h. any (λ r. r.id == id) h.hedges)
  throw_if (not there) unexpected
  modify λ h. record h { hedges = update_where (λ r. r.id == id) change h.hedges }

abbrev pub mark_hedging : HedgeServices → ℕ → ℕ → HedgeCall (Unit {0})
mark_hedging sv id attempts =
    update_hedge sv mark_hedging_row id
      (λ r. record r { status = hedging; attempts = attempts; last_error = none })

abbrev pub mark_filled : HedgeServices → ℕ → ℕ → ℕ → ℕ → HedgeCall (Unit {0})
mark_filled sv id order_id filled_size avg_price_cents = update_hedge sv mark_done_row id (λ r.
    record r {
      status = filled;
      polymarket_order_id = some order_id;
      filled_size = filled_size;
      avg_price = some avg_price_cents;
    })

abbrev pub mark_partial : HedgeServices → ℕ → Option ℕ → ℕ → Option ℕ → HedgeCall (Unit {0})
mark_partial sv id order_id filled_size avg_price_cents = update_hedge sv mark_done_row id (λ r.
    record r {
      status = partial;
      polymarket_order_id = order_id;
      filled_size = filled_size;
      avg_price = avg_price_cents;
    })

-- The upsert: the market's row is changed, or created.
unfoldable pub add_delta : ℕ → ℤ → List Exposure → List Exposure
add_delta market_id delta [] =
    (record { market_id = market_id; unhedged_usd = delta; paused = false }) ∷ []
add_delta market_id delta (x ∷ xs) =
    if x.market_id == market_id
    then (record x { unhedged_usd = x.unhedged_usd +ℤ delta }) ∷ xs
    else x ∷ add_delta market_id delta xs

unfoldable pub apply_signed_delta : HedgeServices → Query → ℕ → ℤ → HedgeCall (Unit {0})
unfolding add_delta
apply_signed_delta sv q market_id signed_delta_usd = do
  reach sv q
  modify λ h. record h { exposures = add_delta market_id signed_delta_usd h.exposures }
