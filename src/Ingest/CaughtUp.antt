-- ===== src/Ingest/CaughtUp.antt =====
-- The poller catches up: apps/hedger/ingest/poller.ts, where Solana answers and the cursor can be written.
use highgarden.Base.{
  All-right, if◌then◌else◌, ℕ, ◌≤◌, ◌≡◌, ◌≢◌, sym, ap, subst, ◌∙◌, inl, inr, Bool, true, false,
  Bool-cases, Option, some, List, [], ◌∷◌, ◌++◌, append_snoc, append-nil, take, length, All, arith,
}
use highgarden.Call.{ok}
use highgarden.Call.Frame.{bind-value}
use highgarden.Ingest.{
  SignatureInfo, ChainTx, Ingester, IngestServices, advance_to, process_signature, process_all,
  reverse, run_once, finished_tick, tick,
}
use highgarden.Ingest.Chain.{
  newer, infos, AreDistinct, IsHandled, newer-StandsAfter, AreDistinct-front,
}
use highgarden.Ingest.Complete.{Ended, Reached, Complete}
use highgarden.Ingest.Rounds.{fetch, fetch_found, process_signature-Stepped, down-ok}
use highgarden.Ingest.Newest.{turned_round}
use highgarden.Ingest.Skipped.{run_once_found}

-- Every call of Solana answers with what is on the chain, and every write of the cursor goes through.
pub record Up (sv : IngestServices) (c : List ChainTx) : Type 0 where
  pub signatures :
      (until : Option ℕ) (limit : ℕ)
      → sv.rpc.get_signatures until limit ≡ some (take limit (reverse (infos (newer until c))))
  pub transactions : All (λ x. sv.rpc.get_transaction x.info.signature ≡ some (some x.logs)) c
  pub writes : (s : ℕ) → sv.cursor_write_up s ≡ true

abbrev Found : IngestServices → ChainTx → Type 0
Found sv x = sv.rpc.get_transaction x.info.signature ≡ some (some x.logs)

module _ (sv : IngestServices) (writes : (s : ℕ) → sv.cursor_write_up s ≡ true) where
  advance_to_returns : (sig : SignatureInfo) (w : Ingester) → (advance_to sv sig w).0 ≡ ok tt
  unfolding advance_to
  advance_to_returns sig w = let up = writes sig.signature in ground arith

  process_signature_returns :
      (x : ChainTx) (w : Ingester) → Found sv x → (process_signature sv x.info w).0 ≡ ok tt
  unfolding process_signature
  process_signature_returns x w found =
      let branch : Bool → Ended = λ b. (if b then advance_to sv x.info else fetch sv x.info) w in
      elim (Bool-cases x.info.failed) [
        | inl failed ↦ ap (λ (r : Ended). r.0) (ap branch failed) ∙ advance_to_returns x.info w
        | inr fine ↦
            ap (λ (r : Ended). r.0) (ap branch fine ∙ fetch_found sv x.info (some x.logs) w found)
            ∙ advance_to_returns x.info _
      ]

  process_signature-Reached :
      (front : List ChainTx) (x : ChainTx) (w : Ingester)
      → All (λ y. y.info.signature ≢ x.info.signature) front
      → Found sv x
      → Reached sv front w.cursor.signature w.calls
      → let r = process_signature sv x.info w in
        Reached sv (front ++ (x ∷ [])) r.1.cursor.signature r.1.calls
  process_signature-Reached front x w fresh found h =
      elim (process_signature-Stepped sv front x w fresh (inr found) h) [
        | inl (threw, _) ↦ absurd (down-ok tt (sym threw ∙ process_signature_returns x w found))
        | inr further ↦ further
      ]

  process_all-Reached :
      (front todo : List ChainTx) (w : Ingester)
      → AreDistinct (front ++ todo)
      → All (Found sv) todo
      → Reached sv front w.cursor.signature w.calls
      → let v = (process_all sv (infos todo) w).1 in
        Reached sv (front ++ todo) v.cursor.signature v.calls
  unfolding process_all
  process_all-Reached front [] w distinct found h =
      subst (λ l. Reached sv l w.cursor.signature w.calls) (sym (append-nil front)) h
  process_all-Reached front (x ∷ todo) w distinct found h =
      let w' = (process_signature sv x.info w).1 in
      let e = append_snoc front x todo in
      subst (λ (r : Ended). Reached sv (front ++ (x ∷ todo)) r.1.cursor.signature r.1.calls)
        (sym (
          bind-value (process_signature sv x.info) (λ _. process_all sv (infos todo)) w
            (process_signature_returns x w found.0)))
        (subst
          (λ l.
            Reached sv l (process_all sv (infos todo) w').1.cursor.signature
              (process_all sv (infos todo) w').1.calls)
          e
          (process_all-Reached (front ++ (x ∷ [])) todo w' (subst AreDistinct (sym e) distinct)
            found.1
            (process_signature-Reached front x w (AreDistinct-front front x todo distinct) found.0
              h)))

run_once-handles :
    (sv : IngestServices) (c : List ChainTx) (w : Ingester)
    → Up sv c
    → AreDistinct c
    → length (newer w.cursor.signature c) ≤ sv.max_backfill_signatures
    → Complete sv c w
    → All (IsHandled sv.decode_logs (run_once sv w).1.calls) c
run_once-handles sv c w up distinct enough (before, rest, whole, stands, handled) =
    let at = w.cursor.signature in
    let limit = sv.max_backfill_signatures in
    let rest_enough : length rest ≤ limit =
      subst (λ l. length l ≤ limit) (ap (newer at) whole ∙ newer-StandsAfter at before rest stands)
        enough in
    let same =
      ap (λ l. reverse (take limit (reverse (infos (newer at l))))) whole
      ∙ turned_round limit at before rest stands rest_enough in
    let (_, _, _, _, all) =
      process_all-Reached sv up.writes before rest w (subst AreDistinct whole distinct)
        (All-right (Found sv) before rest (subst (All (Found sv)) whole up.transactions))
        (before, [], sym (append-nil before), stands, handled) in
    subst (λ (r : Ended). All (IsHandled sv.decode_logs r.1.calls) c)
      (sym (run_once_found sv w _ (up.signatures at limit) ∙ ap (λ l. process_all sv l w) same))
      (subst (All (IsHandled sv.decode_logs (process_all sv (infos rest) w).1.calls)) (sym whole)
        all)

-- Say that the cursor stands at a transaction of the chain, or nowhere yet, and every transaction up to there is
-- handled. If no tick is running, the transactions have different signatures, no more of them are newer than the
-- cursor than one request returns, Solana answers each call and the cursor can be written, then after one tick every
-- transaction of the chain is handled: it failed, or the handler was called with each of its fills.
pub tick-handles :
    (sv : IngestServices) (c : List ChainTx) (w : Ingester)
    → w.running ≡ false
    → Up sv c
    → AreDistinct c
    → length (newer w.cursor.signature c) ≤ sv.max_backfill_signatures
    → Complete sv c w
    → All (IsHandled sv.decode_logs (tick sv w).calls) c
unfolding tick finished_tick
tick-handles sv c w idle up distinct enough h =
    let run : Ingester = record w { running = true } in
    rw idle (run_once-handles sv c run up distinct enough h)
