-- ===== src/Ingest/Rounds.antt =====
-- One tick of the poller over the signatures that it was given: apps/hedger/ingest/poller.ts.
use highgarden.Base.{
  ℕ, ◌≡◌, ◌≢◌, refl, sym, ap, subst, ◌∙◌, ◌⊎◌, inl, inr, Bool, Bool-cases, Option, none, some, List,
  [], ◌∷◌, ◌++◌, append_snoc, if◌then◌else◌, All,
}
use highgarden.Call.{Reply, ok, err, or_throw, modify, ◌>>=◌, ◌>>◌}
use highgarden.Call.Frame.{Reply-cases, bind-value, bind-throw}
use highgarden.Ingest.{
  SignatureInfo, ChainTx, poller, Ingester, IngestCall, IngestFailure, rpc_down, IngestServices,
  advance_to, dispatch, logs_or_none, process_signature, process_all,
}
use highgarden.Ingest.Chain.{infos, AreDistinct, dispatched-All, AreDistinct-front}
use highgarden.Ingest.Complete.{
  Ended, Reached, Complete, Reached-Complete, advance_to-Reached, dispatch-Reached,
}

abbrev pub Answers : IngestServices → ChainTx → Type 0
Answers sv x =
    (sv.rpc.get_transaction x.info.signature ≡ none)
    ⊎ (sv.rpc.get_transaction x.info.signature ≡ some (some x.logs))

-- It threw before anything was done, or the transaction is handled.
abbrev pub Stepped : IngestServices → List ChainTx → ChainTx → Ended → Type 0
Stepped sv front x r =
    ((r.0 ≡ err rpc_down) × Reached sv front r.1.cursor.signature r.1.calls)
    ⊎ Reached sv (front ++ (x ∷ [])) r.1.cursor.signature r.1.calls

abbrev pub fetched : IngestServices → SignatureInfo → Option (List (List ℕ)) → Ingester → Ended
fetched sv sig tx w = advance_to sv sig (dispatch sig poller (sv.decode_logs (logs_or_none tx)) w)

abbrev pub fetch : IngestServices → SignatureInfo → IngestCall (Unit {0})
fetch sv sig = or_throw (sv.rpc.get_transaction sig.signature) rpc_down >>= λ tx.
    (modify (dispatch sig poller (sv.decode_logs (logs_or_none tx))) >> advance_to sv sig)

fetch_down :
    (sv : IngestServices) (sig : SignatureInfo) (w : Ingester)
    → sv.rpc.get_transaction sig.signature ≡ none
    → fetch sv sig w ≡ (err rpc_down, w)
unfolding ◌>>=◌
fetch_down sv sig w e = rw e refl

pub fetch_found :
    (sv : IngestServices) (sig : SignatureInfo) (tx : Option (List (List ℕ))) (w : Ingester)
    → sv.rpc.get_transaction sig.signature ≡ some tx
    → fetch sv sig w ≡ fetched sv sig tx w
unfolding ◌>>=◌
fetch_found sv sig tx w e = rw e refl

fetched-Reached :
    (sv : IngestServices) (front : List ChainTx) (x : ChainTx) (w : Ingester)
    → All (λ y. y.info.signature ≢ x.info.signature) front
    → Reached sv front w.cursor.signature w.calls
    → let r = fetched sv x.info (some x.logs) w in
      Reached sv (front ++ (x ∷ [])) r.1.cursor.signature r.1.calls
unfolding dispatch
fetched-Reached sv front x w fresh h =
    let es = sv.decode_logs x.logs in
    advance_to-Reached sv front x (dispatch x.info poller es w) fresh
      (inr (dispatched-All x.info poller es w.calls))
      (dispatch-Reached sv front w.cursor.signature x.info poller es w.calls h)

pub process_signature-Stepped :
    (sv : IngestServices) (front : List ChainTx) (x : ChainTx) (w : Ingester)
    → All (λ y. y.info.signature ≢ x.info.signature) front
    → Answers sv x
    → Reached sv front w.cursor.signature w.calls
    → Stepped sv front x (process_signature sv x.info w)
unfolding process_signature
process_signature-Stepped sv front x w fresh answers h =
    let branch : Bool → Ended = λ b. (if b then advance_to sv x.info else fetch sv x.info) w in
    elim (Bool-cases x.info.failed) [
      | inl failed ↦
          subst (Stepped sv front x) (sym (ap branch failed))
            (inr (advance_to-Reached sv front x w fresh (inl failed) h))
      | inr fine ↦ subst (Stepped sv front x) (sym (ap branch fine)) (elim answers [
        | inl down ↦ subst (Stepped sv front x) (sym (fetch_down sv x.info w down)) (inl (refl, h))
        | inr found ↦
            subst (Stepped sv front x) (sym (fetch_found sv x.info (some x.logs) w found))
              (inr (fetched-Reached sv front x w fresh h))
      ])
    ]

pub down-ok : (a : Unit {0}) → ◌≡◌ {A = Reply IngestFailure (Unit {0})} (err rpc_down) (ok a) → ⊥
down-ok a h = cc

pub process_all-Complete :
    (sv : IngestServices) (c front todo : List ChainTx) (w : Ingester)
    → c ≡ front ++ todo
    → AreDistinct c
    → All (Answers sv) todo
    → Reached sv front w.cursor.signature w.calls
    → Complete sv c (process_all sv (infos todo) w).1
unfolding process_all
process_all-Complete sv c front [] w e distinct answers h = Reached-Complete sv c front [] w e h
process_all-Complete sv c front (x ∷ todo) w e distinct answers h =
    let fresh = AreDistinct-front front x todo (subst AreDistinct e distinct) in
    let step = process_signature-Stepped sv front x w fresh answers.0 h in
    let e' = e ∙ sym (append_snoc front x todo) in
    let w' = (process_signature sv x.info w).1 in
    elim (Reply-cases (process_signature sv x.info w).0) [
      | inl (a, went) ↦
          subst (λ (r : Ended). Complete sv c r.1)
            (sym
              (bind-value (process_signature sv x.info) (λ _. process_all sv (infos todo)) w went))
            (elim step [
              | inl (threw, _) ↦ absurd (down-ok a (sym threw ∙ went))
              | inr further ↦
                  process_all-Complete sv c (front ++ (x ∷ [])) todo w' e' distinct answers.1
                    further
            ])
      | inr (f, threw) ↦
          subst (λ (r : Ended). Complete sv c r.1)
            (sym
              (bind-throw (process_signature sv x.info) (λ _. process_all sv (infos todo)) w threw))
            (elim step [
              | inl (_, same) ↦ Reached-Complete sv c front (x ∷ todo) w' e same
              | inr further ↦ Reached-Complete sv c (front ++ (x ∷ [])) todo w' e' further
            ])
    ]
