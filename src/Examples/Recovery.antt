-- ===== src/Examples/Recovery.antt =====
-- Boot recovery with a row left in HEDGING and an exposure that has drifted: apps/hedger/hedger/index.ts.
use highgarden.Base.{◌≡◌, none, some, [], ◌∷◌, true}
use highgarden.Base.Int.{pos}
use highgarden.Call.{ok}
use highgarden.Database.{buy, yes_outcome, hedging, FillRow}
use highgarden.Hedger.{Tables, HedgeRow, recover_in_flight}
use highgarden.Hedger.Recovered.{all_up, Recovered, recover_in_flight-Recovered}
use highgarden.Examples.{market_one, user_one}

abbrev fill_one : FillRow
fill_one = record {
  id = 100;
  user_id = 20;
  market_id = 10;
  side = buy;
  outcome = yes_outcome;
  price = 50;
  size = 40;
  solana_tx_sig = 81;
  nonce = some 80;
  netted_from_inventory_id = none;
}

abbrev stuck_row : HedgeRow
stuck_row = record {
  id = 101;
  fill_id = 100;
  status = hedging;
  bull_job_id = some 7;
  client_order_id = none;
  polymarket_order_id = none;
  polymarket_token_id = some 71;
  polymarket_side = some buy;
  requested_size = some 40;
  filled_size = 0;
  avg_price = none;
  attempts = 1;
  last_error = none;
}

abbrev crashed : Tables
crashed = record {
  users = user_one ∷ [];
  markets = market_one ∷ [];
  quotes = [];
  fills = fill_one ∷ [];
  hedges = stuck_row ∷ [];
  exposures = record { market_id = 10; unhedged_usd = pos 5; paused = true } ∷ [];
  orders = [];
  next_id = 102;
}

recover_in_flight-Recovered_example :
    ((recover_in_flight all_up crashed).0 ≡ ok tt) × Recovered (recover_in_flight all_up crashed).1
recover_in_flight-Recovered_example = recover_in_flight-Recovered crashed
