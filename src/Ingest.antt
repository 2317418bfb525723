-- ===== src/Ingest.antt =====
-- How fills reach the hedger: apps/hedger/ingest/poller.ts, listener.ts and decoder.ts, on the cursor of
-- apps/hedger/db/cursor.ts.
--
-- Solana's RPC and the handler of fills are parameters: what they answer, and which calls throw. Of the timers, the
-- subscription and the health flags only the marks of events are kept.
pub mod Chain
mod Rounds
mod Newest
pub mod Complete
pub mod Skipped
pub mod CaughtUp
use highgarden.Base.{
  ℕ, suc, ◌+◌, Bool, true, false, not, ◌&&◌, Option, none, some, List, [], ◌∷◌, ◌++◌, ◌==◌,
  if◌then◌else◌, take,
}
use highgarden.Call.{
  Reply, ok, err, Call, pure, gets, throw_if, or_throw, modify, catch, ◌>>=◌, ◌>>◌,
}
use highgarden.Hedger.Cursor.{Cursor, is_behind, advance_cursor, mark_poller_run}
use highgarden.Contract.{OrderFilledEvent, Sha256, Base64, decode_order_filled}

-- A line of the signature history.
pub record SignatureInfo : Type 0 where
  pub slot : ℕ
  pub signature : ℕ
  pub failed : Bool

-- A transaction of the program, with its log lines.
pub record ChainTx : Type 0 where
  pub info : SignatureInfo
  pub logs : List (List ℕ)

pub data FillSource : Type 0 where
  live poller : FillSource

-- A call of the handler.
pub record FillCall : Type 0 where
  pub event : OrderFilledEvent
  pub signature : ℕ
  pub slot : ℕ
  pub source : FillSource

pub record Ingester : Type 0 where
  pub cursor : Cursor
  pub calls : List FillCall
  pub marked_events : ℕ
  pub running : Bool

pub data IngestFailure : Type 0 where
  rpc_down no_database : IngestFailure

abbrev pub IngestCall : Type 0 → Type 0
IngestCall A = Call Ingester IngestFailure A

-- `get_signatures until limit` and `get_transaction signature`; none where the call throws.
pub record SolanaRpc : Type 0 where
  pub get_signatures : Option ℕ → ℕ → Option (List SignatureInfo)
  pub get_transaction : ℕ → Option (Option (List (List ℕ)))

pub record IngestServices : Type 0 where
  pub rpc : SolanaRpc
  pub max_backfill_signatures : ℕ
  pub cursor_write_up : ℕ → Bool
  pub now : ℕ
  pub poller_mark_up : Bool
  pub decode_logs : List (List ℕ) → List OrderFilledEvent

-- `OrderFilledDecoder.decode_logs`
abbrev pub decoder : Sha256 → Base64 → List ℕ → List (List ℕ) → List OrderFilledEvent
decoder sha b64 program_id = decode_order_filled sha b64 program_id

unfoldable pub advance_to : IngestServices → SignatureInfo → IngestCall (Unit {0})
advance_to sv sig w =
    let behind = is_behind sig.slot w.cursor.slot in
    let w' = record w { cursor = advance_cursor sig.slot sig.signature w.cursor } in
    if not behind && not (sv.cursor_write_up sig.signature)
    then (err no_database, w')
    else (ok tt, w')

-- `on_fill` for each event, newest call first. What it throws is only logged.
abbrev pub dispatched :
    SignatureInfo → FillSource → List OrderFilledEvent → List FillCall → List FillCall
dispatched sig source [] cs = cs
dispatched sig source (e ∷ es) cs =
    dispatched sig source es
      (record { event = e; signature = sig.signature; slot = sig.slot; source = source } ∷ cs)

abbrev pub mark_if_any : List OrderFilledEvent → ℕ → ℕ
mark_if_any [] n = n
mark_if_any (e ∷ es) n = suc n

unfoldable pub dispatch : SignatureInfo → FillSource → List OrderFilledEvent → Ingester → Ingester
dispatch sig source es w = record w {
  calls = dispatched sig source es w.calls;
  marked_events = mark_if_any es w.marked_events;
}

-- tx?.meta?.logMessages ?? []
abbrev pub logs_or_none : Option (List (List ℕ)) → List (List ℕ)
logs_or_none none = []
logs_or_none (some logs) = logs

unfoldable pub process_signature : IngestServices → SignatureInfo → IngestCall (Unit {0})
process_signature sv sig =
    if sig.failed
    then advance_to sv sig
    else (or_throw (sv.rpc.get_transaction sig.signature) rpc_down >>= λ tx.
        (modify (dispatch sig poller (sv.decode_logs (logs_or_none tx))) >> advance_to sv sig))

unfoldable pub process_all : IngestServices → List SignatureInfo → IngestCall (Unit {0})
process_all sv [] = pure tt
process_all sv (sig ∷ sigs) = process_signature sv sig >> process_all sv sigs

-- [...signatures].reverse()
unfoldable pub reverse : {A : Type 0} → List A → List A
reverse [] = []
reverse (x ∷ xs) = reverse xs ++ (x ∷ [])

unfoldable pub run_once : IngestServices → IngestCall (Unit {0})
run_once sv = do
  since ← gets (λ w. w.cursor.signature)
  signatures ← or_throw (sv.rpc.get_signatures since sv.max_backfill_signatures) rpc_down
  process_all sv (reverse signatures)

-- With what `finally` does: a mark that is not written is only logged.
unfoldable pub finished_tick : IngestServices → Ingester → Ingester
finished_tick sv w = record w {
  cursor = if sv.poller_mark_up then mark_poller_run sv.now w.cursor else w.cursor;
  running = false;
}

unfoldable pub tick : IngestServices → Ingester → Ingester
tick sv w = if w.running then w else finished_tick sv (run_once sv (record w { running = true })).1

-- A notification of the websocket: `err` and the log lines. The cursor is not moved.
unfoldable pub handle_logs : IngestServices → SignatureInfo → List (List ℕ) → Ingester → Ingester
handle_logs sv sig [] w = w
handle_logs sv sig (l ∷ logs) w =
    if sig.failed then w else dispatch sig live (sv.decode_logs (l ∷ logs)) w
