-- ===== src/Examples/Ingest.antt =====
-- Two transactions, of which the hedger has seen the first: apps/hedger/ingest/poller.ts.
use highgarden.Base.{
  ℕ, ◌≡◌, refl, inl, inr, arith, true, false, none, some, List, [], ◌∷◌, ◌++◌, ◌==◌, if◌then◌else◌,
  take, length, All,
}
use highgarden.Hedger.Cursor.{advance_cursor}
use highgarden.Call.{◌>>=◌}
use highgarden.Contract.{OrderFilledEvent}
use highgarden.Ingest.{
  ChainTx, Ingester, IngestServices, reverse, advance_to, dispatch, process_signature, process_all,
  run_once, finished_tick, handle_logs, tick,
}
use highgarden.Ingest.Chain.{newer, infos, AreDistinct, IsHandled}
use highgarden.Ingest.Complete.{Complete}
use highgarden.Ingest.Skipped.{tick-Complete}
use highgarden.Ingest.CaughtUp.{tick-handles}

abbrev fill : OrderFilledEvent
fill = record {
  user = 1 ∷ [];
  market = 2 ∷ [];
  polymarket_market_id = 3 ∷ [];
  side = 0;
  outcome = 1;
  size = 10;
  price = 47;
  nonce = 4 ∷ [];
}

abbrev failed_tx : ChainTx
failed_tx = record { info = record { slot = 5; signature = 101; failed = true }; logs = [] }

abbrev traded : ChainTx
traded = record {
  info = record { slot = 7; signature = 102; failed = false };
  logs = (80 ∷ []) ∷ [];
}

abbrev chain : List ChainTx
chain = failed_tx ∷ traded ∷ []

abbrev decode : List (List ℕ) → List OrderFilledEvent
decode [] = []
decode (l ∷ logs) = fill ∷ []

abbrev sv : IngestServices
sv = record {
  rpc = record {
    get_signatures = λ until limit. some (take limit (reverse (infos (newer until chain))));
    get_transaction = λ s. if s == 102 then some (some traded.logs) else some (some []);
  };
  max_backfill_signatures = 100;
  cursor_write_up = λ s. true;
  now = 9000;
  poller_mark_up = true;
  decode_logs = decode;
}

-- Transactions cannot be fetched, nor the cursor written.
abbrev sv_down : IngestServices
sv_down = record sv {
  rpc = record {
    get_signatures = λ until limit. some (take limit (reverse (infos (newer until chain))));
    get_transaction = λ s. none;
  };
  cursor_write_up = λ s. false;
}

abbrev fresh : Ingester
fresh = record {
  cursor = record { slot = none; signature = none; row = none; writes = [] };
  calls = [];
  marked_events = 0;
  running = false;
}

abbrev at_first : Ingester
at_first = record fresh {
  cursor = record { slot = some 5; signature = some 101; row = none; writes = [] };
}

calls_handler : length (tick sv fresh).calls ≡ 1
unfolding tick finished_tick run_once process_all process_signature advance_to dispatch reverse
    advance_cursor ◌>>=◌
calls_handler = refl

distinct_signatures : AreDistinct chain
distinct_signatures = ((λ e. omega (arith, e), tt), (tt, tt))

tick-Complete_example :
    Complete sv_down ((failed_tx ∷ []) ++ (traded ∷ [])) (tick sv_down at_first)
    × Complete sv_down
        ((failed_tx ∷ []) ++ (traded ∷ []))
        (handle_logs sv_down traded.info traded.logs at_first)
tick-Complete_example =
    tick-Complete sv_down (failed_tx ∷ []) (traded ∷ []) traded.info traded.logs at_first
      (record { signatures = λ until limit. inr refl; transactions = (inl refl, (inl refl, tt)) })
      distinct_signatures (omega arith)
      (failed_tx ∷ [], [], refl, inr ([], failed_tx, refl, refl, tt), (inl refl, tt))

tick-handles_example : All (IsHandled decode (tick sv fresh).calls) chain
tick-handles_example =
    tick-handles sv chain fresh refl
      (record {
        signatures = λ until limit. refl;
        transactions = (refl, (refl, tt));
        writes = λ s. refl;
      })
      distinct_signatures (omega arith) ([], chain, refl, inl (refl, refl), tt)
