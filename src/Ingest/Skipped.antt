-- ===== src/Ingest/Skipped.antt =====
-- No fill is skipped, whatever fails: `tick` of apps/hedger/ingest/poller.ts and `handle_logs` of listener.ts.
use highgarden.Base.{
  All-right, ℕ, ◌≤◌, ◌≡◌, refl, sym, ap, subst, ◌∙◌, inl, inr, true, Bool-cases, none, some, List,
  [], ◌∷◌, ◌++◌, append_assoc, append-nil, take, length, All,
}
use highgarden.Call.{err, ◌>>=◌}
use highgarden.Hedger.Cursor.{mark_poller_run}
use highgarden.Ingest.{
  SignatureInfo, ChainTx, live, Ingester, rpc_down, IngestServices, dispatch, process_all, reverse,
  run_once, finished_tick, tick, handle_logs,
}
use highgarden.Ingest.Chain.{newer, infos, Documented, AreDistinct, newer-StandsAfter}
use highgarden.Ingest.Complete.{Ended, Complete, dispatch-Reached}
use highgarden.Ingest.Rounds.{Answers, process_all-Complete}
use highgarden.Ingest.Newest.{turned_round}

run_once_down :
    (sv : IngestServices) (w : Ingester)
    → sv.rpc.get_signatures w.cursor.signature sv.max_backfill_signatures ≡ none
    → run_once sv w ≡ (err rpc_down, w)
unfolding run_once ◌>>=◌
run_once_down sv w e = rw e refl

pub run_once_found :
    (sv : IngestServices) (w : Ingester) (found : List SignatureInfo)
    → sv.rpc.get_signatures w.cursor.signature sv.max_backfill_signatures ≡ some found
    → run_once sv w ≡ process_all sv (reverse found) w
unfolding run_once ◌>>=◌
run_once_found sv w found e = rw e refl

-- What was complete is so on a longer chain.
grown-Complete :
    (sv : IngestServices) (c new : List ChainTx) (w : Ingester)
    → Complete sv c w
    → Complete sv (c ++ new) w
grown-Complete sv c new w (before, rest, whole, stands, handled) =
    (before, rest ++ new, ap (λ l. l ++ new) whole ∙ append_assoc before rest new, stands, handled)

run_once-Complete :
    (sv : IngestServices) (c : List ChainTx) (w : Ingester)
    → Documented sv.rpc c
    → AreDistinct c
    → length (newer w.cursor.signature c) ≤ sv.max_backfill_signatures
    → Complete sv c w
    → Complete sv c (run_once sv w).1
run_once-Complete sv c w rpc distinct enough (before, rest, whole, stands, handled) =
    let at = w.cursor.signature in
    let limit = sv.max_backfill_signatures in
    let rest_enough : length rest ≤ limit =
      subst (λ l. length l ≤ limit) (ap (newer at) whole ∙ newer-StandsAfter at before rest stands)
        enough in
    elim (rpc.signatures at limit) [
      | inl down ↦
          subst (λ (r : Ended). Complete sv c r.1) (sym (run_once_down sv w down))
            (before, rest, whole, stands, handled)
      | inr found ↦
          let same =
            ap (λ l. reverse (take limit (reverse (infos (newer at l))))) whole
            ∙ turned_round limit at before rest stands rest_enough in
          subst (λ (r : Ended). Complete sv c r.1)
            (sym (run_once_found sv w _ found ∙ ap (λ l. process_all sv l w) same))
            (process_all-Complete sv c before rest w whole distinct
              (All-right (Answers sv) before rest (subst (All (Answers sv)) whole rpc.transactions))
              (before, [], sym (append-nil before), stands, handled))
    ]

finished-Complete :
    (sv : IngestServices) (c : List ChainTx) (w : Ingester)
    → Complete sv c w
    → Complete sv c (finished_tick sv w)
unfolding finished_tick mark_poller_run
finished-Complete sv c w h = elim (Bool-cases sv.poller_mark_up) [
  | inl up ↦ rw up h
  | inr down ↦ rw down h
]

ticked-Complete :
    (sv : IngestServices) (c new : List ChainTx) (w : Ingester)
    → Documented sv.rpc (c ++ new)
    → AreDistinct (c ++ new)
    → length (newer w.cursor.signature (c ++ new)) ≤ sv.max_backfill_signatures
    → Complete sv c w
    → Complete sv (c ++ new) (tick sv w)
unfolding tick
ticked-Complete sv c new w rpc distinct enough h =
    let grown = grown-Complete sv c new w h in
    let run : Ingester = record w { running = true } in
    elim (Bool-cases w.running) [
      | inl busy ↦ rw busy grown
      | inr idle ↦ rw idle (
          finished-Complete sv (c ++ new) (run_once sv run).1
            (run_once-Complete sv (c ++ new) run rpc distinct enough grown))
    ]

-- A notification only adds calls of the handler.
handle_logs-Complete :
    (sv : IngestServices) (c : List ChainTx) (sig : SignatureInfo) (logs : List (List ℕ))
    (w : Ingester)
    → Complete sv c w
    → Complete sv c (handle_logs sv sig logs w)
unfolding handle_logs dispatch
handle_logs-Complete sv c sig [] w h = h
handle_logs-Complete sv c sig (l ∷ logs) w (before, rest, whole, stands, handled) =
    let es = sv.decode_logs (l ∷ logs) in
    let (_, _, _, _, more) =
      dispatch-Reached sv before w.cursor.signature sig live es w.calls
        (before, [], sym (append-nil before), stands, handled) in
    elim (Bool-cases sig.failed) [
      | inl failed ↦ rw failed (before, rest, whole, stands, handled)
      | inr fine ↦ rw fine (before, rest, whole, stands, more)
    ]

-- Say that the cursor stands at a transaction of the chain, or nowhere yet, and every transaction up to there is
-- handled: it failed, or the handler was called with each of its fills. If the chain has grown since, no two of its
-- transactions share a signature, each call of Solana throws or answers as documented, and no more transactions are
-- newer than the cursor than one request returns, then the same holds after a tick of the poller, whichever calls of
-- Solana and whichever writes of the cursor fail in it, and after any notification of the listener.
pub tick-Complete :
    (sv : IngestServices) (c new : List ChainTx) (sig : SignatureInfo) (logs : List (List ℕ))
    (w : Ingester)
    → Documented sv.rpc (c ++ new)
    → AreDistinct (c ++ new)
    → length (newer w.cursor.signature (c ++ new)) ≤ sv.max_backfill_signatures
    → Complete sv c w
    → Complete sv (c ++ new) (tick sv w) × Complete sv (c ++ new) (handle_logs sv sig logs w)
tick-Complete sv c new sig logs w rpc distinct enough h = (
  ticked-Complete sv c new w rpc distinct enough h,
  handle_logs-Complete sv (c ++ new) sig logs w (grown-Complete sv c new w h),
)
