-- ===== src/Ingest/Complete.antt =====
-- No fill is skipped: `Poller` of apps/hedger/ingest/poller.ts.
use highgarden.Base.{
  ℕ, ◌≡◌, ◌≢◌, refl, sym, ap, subst, ◌∙◌, inl, inr, Bool-cases, Option, some, List, [], ◌∷◌, ◌++◌,
  append_assoc, append-nil, if◌then◌else◌, All, All-append, All-left, All-mono, arith,
}
use highgarden.Call.{Reply}
use highgarden.Contract.{OrderFilledEvent}
use highgarden.Hedger.Cursor.{Cursor, is_behind, advance_cursor}
use highgarden.Ingest.{
  SignatureInfo, ChainTx, FillSource, FillCall, Ingester, IngestFailure, IngestServices, advance_to,
  dispatched,
}
use highgarden.Ingest.Chain.{CalledWith, IsHandled, StandsAfter, CalledWith-dispatched}

abbrev pub Ended : Type 0
Ended = Reply IngestFailure (Unit {0}) × Ingester

-- These transactions are handled, and the cursor stands behind some of them.
abbrev pub Reached : IngestServices → List ChainTx → Option ℕ → List FillCall → Type 0
Reached sv front at calls =
    (before : List ChainTx) × (mid : List ChainTx) × (front ≡ before ++ mid)
    × StandsAfter at before
    × All (IsHandled sv.decode_logs calls) front

-- Every transaction of the chain up to the cursor is handled.
abbrev pub Complete : IngestServices → List ChainTx → Ingester → Type 0
Complete sv c w =
    (before : List ChainTx) × (rest : List ChainTx) × (c ≡ before ++ rest)
    × StandsAfter w.cursor.signature before
    × All (IsHandled sv.decode_logs w.calls) before

pub Reached-Complete :
    (sv : IngestServices) (c front rest : List ChainTx) (w : Ingester)
    → c ≡ front ++ rest
    → Reached sv front w.cursor.signature w.calls
    → Complete sv c w
Reached-Complete sv c front rest w e (before, mid, whole, stands, handled) = (
  before,
  mid ++ rest,
  e ∙ ap (λ l. l ++ rest) whole ∙ append_assoc before mid rest,
  stands,
  All-left (IsHandled sv.decode_logs w.calls) before mid
      (subst (All (IsHandled sv.decode_logs w.calls)) whole handled),
)

IsHandled-dispatched :
    (decode : List (List ℕ) → List OrderFilledEvent) (sig : SignatureInfo) (source : FillSource)
    (es : List OrderFilledEvent) (cs : List FillCall) (x : ChainTx)
    → IsHandled decode cs x
    → IsHandled decode (dispatched sig source es cs) x
IsHandled-dispatched decode sig source es cs x (inl f) = inl f
IsHandled-dispatched decode sig source es cs x (inr h) = inr (
    All-mono {P = λ e. CalledWith e x.info.signature cs}
      {Q = λ e. CalledWith e x.info.signature (dispatched sig source es cs)}
      (λ e. CalledWith-dispatched e x.info.signature sig source es cs) (decode x.logs) h)

-- Where the cursor stands after `advance`.
abbrev moved : SignatureInfo → Cursor → Option ℕ
moved sig c = if is_behind sig.slot c.slot then c.signature else some sig.signature

advance_to_lem :
    (sv : IngestServices) (sig : SignatureInfo) (w : Ingester)
    → ((advance_to sv sig w).1.cursor.signature ≡ moved sig w.cursor)
      × ((advance_to sv sig w).1.calls ≡ w.calls)
unfolding advance_to advance_cursor
advance_to_lem sv sig w = (ground arith, ground arith)

-- The cursor moves behind a transaction that has just been handled, or stays.
moved-Reached :
    (sv : IngestServices) (front : List ChainTx) (x : ChainTx) (cursor : Cursor)
    (calls : List FillCall)
    → All (λ y. y.info.signature ≢ x.info.signature) front
    → IsHandled sv.decode_logs calls x
    → Reached sv front cursor.signature calls
    → Reached sv (front ++ (x ∷ [])) (moved x.info cursor) calls
moved-Reached sv front x cursor calls fresh done (before, mid, whole, stands, handled) =
    let all = All-append (IsHandled sv.decode_logs calls) front (x ∷ []) handled (done, tt) in
    elim (Bool-cases (is_behind x.info.slot cursor.slot)) [
      | inl stays ↦ rw stays (
        before,
        mid ++ (x ∷ []),
        ap (λ l. l ++ (x ∷ [])) whole ∙ append_assoc before mid (x ∷ []),
        stands,
        all,
      )
      | inr moves ↦ rw moves (
        front ++ (x ∷ []),
        [],
        sym (append-nil (front ++ (x ∷ []))),
        inr (front, x, refl, refl, fresh),
        all,
      )
    ]

pub advance_to-Reached :
    (sv : IngestServices) (front : List ChainTx) (x : ChainTx) (w : Ingester)
    → All (λ y. y.info.signature ≢ x.info.signature) front
    → IsHandled sv.decode_logs w.calls x
    → Reached sv front w.cursor.signature w.calls
    → Reached sv
        (front ++ (x ∷ []))
        (advance_to sv x.info w).1.cursor.signature
        (advance_to sv x.info w).1.calls
advance_to-Reached sv front x w fresh done h =
    let (at, calls) = advance_to_lem sv x.info w in
    rw (at, calls) (moved-Reached sv front x w.cursor w.calls fresh done h)

-- The calls grow, and the cursor stays.
pub dispatch-Reached :
    (sv : IngestServices) (front : List ChainTx) (at : Option ℕ) (sig : SignatureInfo)
    (source : FillSource) (es : List OrderFilledEvent) (calls : List FillCall)
    → Reached sv front at calls
    → Reached sv front at (dispatched sig source es calls)
dispatch-Reached sv front at sig source es calls (before, mid, whole, stands, handled) = (
  before,
  mid,
  whole,
  stands,
  All-mono {P = IsHandled sv.decode_logs calls}
      {Q = IsHandled sv.decode_logs (dispatched sig source es calls)}
      (λ x. IsHandled-dispatched sv.decode_logs sig source es calls x) front handled,
)
