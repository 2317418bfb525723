-- ===== src/Ingest/Chain.antt =====
-- The program's transactions in the order of the chain, and where the cursor of apps/hedger/ingest stands in them.
use highgarden.Base.{
  ℕ, ◌≡◌, ◌≢◌, refl, sym, ◌⊎◌, inl, inr, Bool, true, false, Option, none, some, List, [], ◌∷◌, ◌++◌,
  append_assoc, map, ◌==◌, ==_iff, any, if◌then◌else◌, take, All, All-right, arith,
}
use highgarden.Contract.{OrderFilledEvent}
use highgarden.Ingest.{SignatureInfo, ChainTx, FillSource, FillCall, dispatched, SolanaRpc, reverse}

-- What stands behind a signature, where it stands there.
abbrev pub behind : ℕ → List ChainTx → List ChainTx
behind s [] = []
behind s (x ∷ xs) = if x.info.signature == s then xs else behind s xs

abbrev pub on_chain : ℕ → List ChainTx → Bool
on_chain s = any (λ x. x.info.signature == s)

-- The transactions newer than a signature: all of them, where there is none or it is not known.
abbrev pub newer : Option ℕ → List ChainTx → List ChainTx
newer none c = c
newer (some s) c = if on_chain s c then behind s c else c

abbrev pub infos : List ChainTx → List SignatureInfo
infos = map (λ x. x.info)

-- `getSignaturesForAddress` throws, or gives the signatures newer than `until`, newest first, the newest so many;
-- `getTransaction` throws, or gives the transaction.
pub record Documented (rpc : SolanaRpc) (c : List ChainTx) : Type 0 where
  pub signatures :
      (until : Option ℕ) (limit : ℕ)
      → (rpc.get_signatures until limit ≡ none)
        ⊎ (rpc.get_signatures until limit ≡ some (take limit (reverse (infos (newer until c)))))
  pub transactions :
      All
        (λ x.
          (rpc.get_transaction x.info.signature ≡ none)
          ⊎ (rpc.get_transaction x.info.signature ≡ some (some x.logs)))
        c

-- No two transactions have one signature.
abbrev pub AreDistinct : List ChainTx → Type 0
AreDistinct [] = Unit
AreDistinct (x ∷ xs) = All (λ y. y.info.signature ≢ x.info.signature) xs × AreDistinct xs

-- The handler was called with this event of this transaction.
abbrev pub CalledWith : OrderFilledEvent → ℕ → List FillCall → Type 0
CalledWith e s [] = ⊥
CalledWith e s (c ∷ cs) = ((c.event ≡ e) × (c.signature ≡ s)) ⊎ CalledWith e s cs

-- The handler was called with each event of a transaction that went through.
abbrev pub IsHandled : (List (List ℕ) → List OrderFilledEvent) → List FillCall → ChainTx → Type 0
IsHandled decode cs x =
    (x.info.failed ≡ true) ⊎ All (λ e. CalledWith e x.info.signature cs) (decode x.logs)

-- The cursor stands behind these: at the last of them, or nowhere yet.
abbrev pub StandsAfter : Option ℕ → List ChainTx → Type 0
StandsAfter at front =
    ((at ≡ none) × (front ≡ []))
    ⊎ ((init : List ChainTx) × (x : ChainTx) × (front ≡ init ++ (x ∷ []))
        × (at ≡ some x.info.signature)
        × All (λ y. y.info.signature ≢ x.info.signature) init)

pub CalledWith-dispatched :
    (e : OrderFilledEvent) (s : ℕ) (sig : SignatureInfo) (source : FillSource)
    (es : List OrderFilledEvent) (cs : List FillCall)
    → CalledWith e s cs
    → CalledWith e s (dispatched sig source es cs)
CalledWith-dispatched e s sig source [] cs h = h
CalledWith-dispatched e s sig source (f ∷ es) cs h =
    CalledWith-dispatched e s sig source es _ (inr h)

pub dispatched-All :
    (sig : SignatureInfo) (source : FillSource) (es : List OrderFilledEvent) (cs : List FillCall)
    → All (λ e. CalledWith e sig.signature (dispatched sig source es cs)) es
dispatched-All sig source [] cs = tt
dispatched-All sig source (e ∷ es) cs = (
  CalledWith-dispatched e sig.signature sig source es _ (inl (refl, refl)),
  dispatched-All sig source es _,
)

apart_test : (a b : ℕ) → a ≢ b → (a == b) ≡ false
apart_test a b h = ground arith

behind-append :
    (init : List ChainTx) (x : ChainTx) (rest : List ChainTx)
    → All (λ y. y.info.signature ≢ x.info.signature) init
    → (behind x.info.signature (init ++ (x ∷ rest)) ≡ rest)
      × (on_chain x.info.signature (init ++ (x ∷ rest)) ≡ true)
behind-append [] x rest h = rw ((==_iff x.info.signature x.info.signature).1 refl) (refl, refl)
behind-append (y ∷ init) x rest h =
    rw (apart_test y.info.signature x.info.signature h.0) (behind-append init x rest h.1)

pub newer-StandsAfter :
    (at : Option ℕ) (front rest : List ChainTx)
    → StandsAfter at front
    → newer at (front ++ rest) ≡ rest
newer-StandsAfter at front rest (inl (e, none_yet)) = rw (e, none_yet) refl
newer-StandsAfter at front rest (inr (init, x, whole, e, fresh)) =
    let (found, there) = behind-append init x rest fresh in
    rw (e, whole, append_assoc init (x ∷ []) rest, there) found

pub AreDistinct-front :
    (front : List ChainTx) (x : ChainTx) (rest : List ChainTx)
    → AreDistinct (front ++ (x ∷ rest))
    → All (λ y. y.info.signature ≢ x.info.signature) front
AreDistinct-front [] x rest h = tt
AreDistinct-front (y ∷ front) x rest h = (
  λ e. (All-right (λ z. z.info.signature ≢ y.info.signature) front (x ∷ rest) h.0).0 (sym e),
  AreDistinct-front front x rest h.1,
)
