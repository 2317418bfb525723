-- ===== src/Idempotency/Given.antt =====
-- The results that the trades of a request id were answered with: apps/server/services/service.trade-idempotency.ts.
use highgarden.Base.{
  ℕ, zero, suc, ◌≡◌, refl, sym, subst, ◌⊎◌, inl, inr, Option, none, some, List, [], ◌∷◌,
}
use highgarden.Idempotency.{
  CachedTradeResult, Entry, pending_marker, unreadable, stored, in_flight, completed, Redis,
  Progress, claiming, reading, retrying, executing, released, answered, responded, advance, Request,
  turn_at,
}

-- A trade of this id was answered with this result.
abbrev pub Given : ℕ → CachedTradeResult → List Request → Type 0
Given k r [] = ⊥
Given k r (q ∷ qs) = ((q.request_id ≡ k) × (q.progress ≡ responded r)) ⊎ Given k r qs

-- A request turned away with a result was turned away with one that a trade of its id was answered with.
abbrev pub IsEcho : List Request → ℕ → Progress → Type 0
IsEcho qs k (answered (completed r)) = Given k r qs
IsEcho qs k _ = Unit

-- As a stored entry must be.
abbrev pub Backed : List Request → ℕ → Option Entry → Type 0
Backed qs k (some (stored r)) = Given k r qs
Backed qs k _ = Unit

abbrev pub Grows : List Request → List Request → Type 0
Grows qs rs = (k : ℕ) (r : CachedTradeResult) → Given k r qs → Given k r rs

pub IsEcho-mono :
    (qs rs : List Request) → Grows qs rs → (k : ℕ) (p : Progress) → IsEcho qs k p → IsEcho rs k p
IsEcho-mono qs rs g k (answered (completed r)) h = g k r h
IsEcho-mono qs rs g k (answered in_flight) h = tt
IsEcho-mono qs rs g k claiming h = tt
IsEcho-mono qs rs g k reading h = tt
IsEcho-mono qs rs g k retrying h = tt
IsEcho-mono qs rs g k executing h = tt
IsEcho-mono qs rs g k released h = tt
IsEcho-mono qs rs g k (responded r) h = tt

pub Backed-mono :
    (qs rs : List Request)
    → Grows qs rs
    → (k : ℕ) (e : Option Entry) → Backed qs k e
    → Backed rs k e
Backed-mono qs rs g k none h = tt
Backed-mono qs rs g k (some pending_marker) h = tt
Backed-mono qs rs g k (some unreadable) h = tt
Backed-mono qs rs g k (some (stored r)) h = g k r h

pub advance-Given :
    (k : ℕ) (v : Option CachedTradeResult) (p : Progress) (s : Redis) (r : CachedTradeResult)
    → p ≡ responded r
    → (advance k v p s).0 ≡ responded r
unfolding advance
advance-Given k v p s r h = subst (λ p. (advance k v p s).0 ≡ responded r) (sym h) refl

pub turn_at-Grows :
    (n : ℕ) (v : Option CachedTradeResult) (qs : List Request) (s : Redis)
    → Grows qs (turn_at n v qs s).0
unfolding turn_at
turn_at-Grows n v [] s k r h = h
turn_at-Grows zero v (q ∷ qs) s k r (inl h) =
    inl (h.0, advance-Given q.request_id v q.progress s r h.1)
turn_at-Grows zero v (q ∷ qs) s k r (inr h) = inr h
turn_at-Grows (suc n) v (q ∷ qs) s k r (inl h) = inl h
turn_at-Grows (suc n) v (q ∷ qs) s k r (inr h) = inr (turn_at-Grows n v qs s k r h)
