-- ===== src/Idempotency/Echo.antt =====
-- What a retry is answered with: apps/server/services/service.trade-idempotency.ts.
use highgarden.Base.{
  ℕ, zero, suc, ◌≡◌, refl, sym, subst, inl, inr, Bool-cases, ==_iff, Option, none, some, List, [],
  ◌∷◌, ◌==◌, All, All-mono,
}
use highgarden.Idempotency.{
  CachedTradeResult, Entry, pending_marker, unreadable, stored, Redis, set_key, is_absent, Progress,
  claiming, reading, retrying, executing, released, answered, responded, claim, read_existing,
  retry_claim, complete, release, finish, advance, Request, System, Event, arrive, expire, turn,
  turn_at, happen, run, parse_cached,
}
use highgarden.Idempotency.Given.{
  Given, IsEcho, Backed, Grows, IsEcho-mono, Backed-mono, turn_at-Grows,
}
use highgarden.Idempotency.Starts.{at_start}

set_key-Backed :
    (rs : List Request) (k : ℕ) (e : Option Entry) (s : Redis)
    → Backed rs k e
    → ((j : ℕ) → Backed rs j (s j))
    → (j : ℕ) → Backed rs j (set_key k e s j)
unfolding set_key
set_key-Backed rs k e s now was j = elim (Bool-cases (j == k)) [
  | inl t ↦ rw t (subst (λ i. Backed rs i e) (sym ((==_iff j k).0 t)) now)
  | inr f ↦ rw f (was j)
]

parse_cached-IsEcho :
    (rs : List Request) (k : ℕ) (e : Entry)
    → Backed rs k (some e)
    → IsEcho rs k (answered (parse_cached e))
unfolding parse_cached
parse_cached-IsEcho rs k pending_marker h = tt
parse_cached-IsEcho rs k unreadable h = tt
parse_cached-IsEcho rs k (stored r) h = h

-- One step, where the list holds what the request becomes.
abbrev Kept : List Request → ℕ → Progress × Redis → Type 0
Kept rs k r = IsEcho rs k r.0 × ((j : ℕ) → Backed rs j (r.1 j))

read_existing-Kept :
    (rs : List Request) (k : ℕ) (s : Redis)
    → ((j : ℕ) → Backed rs j (s j))
    → Kept rs k (read_existing k s)
unfolding read_existing
read_existing-Kept rs k s was = go (s k) (was k)
  where
    go :
        (e : Option Entry)
        → Backed rs k e
        → Kept rs k (elim e [ none ↦ (retrying, s) | some e ↦ (answered (parse_cached e), s) ])
    go none h = (tt, was)
    go (some e) h = (parse_cached-IsEcho rs k e h, was)

finish-Kept :
    (rs : List Request) (k : ℕ) (v : Option CachedTradeResult) (s : Redis)
    → ((j : ℕ) → Backed rs j (s j))
    → ((r : CachedTradeResult) → (finish k v s).0 ≡ responded r → Given k r rs)
    → Kept rs k (finish k v s)
unfolding finish complete release
finish-Kept rs k none s was self = (tt, set_key-Backed rs k none s tt was)
finish-Kept rs k (some r) s was self =
    (tt, set_key-Backed rs k (some (stored r)) s (self r refl) was)

claim-Kept :
    (rs : List Request) (k : ℕ) (s : Redis) → ((j : ℕ) → Backed rs j (s j)) → Kept rs k (claim k s)
unfolding claim
claim-Kept rs k s was = elim (Bool-cases (is_absent (s k))) [
  | inl t ↦ rw t (tt, set_key-Backed rs k (some pending_marker) s tt was)
  | inr f ↦ rw f (tt, was)
]

retry_claim-Kept :
    (rs : List Request) (k : ℕ) (s : Redis)
    → ((j : ℕ) → Backed rs j (s j))
    → Kept rs k (retry_claim k s)
unfolding retry_claim
retry_claim-Kept rs k s was = elim (Bool-cases (is_absent (s k))) [
  | inl t ↦ rw t (tt, set_key-Backed rs k (some pending_marker) s tt was)
  | inr f ↦ rw f (tt, was)
]

advance-Kept :
    (rs : List Request) (k : ℕ) (v : Option CachedTradeResult) (p : Progress) (s : Redis)
    → ((j : ℕ) → Backed rs j (s j))
    → IsEcho rs k p
    → ((r : CachedTradeResult) → (advance k v p s).0 ≡ responded r → Given k r rs)
    → Kept rs k (advance k v p s)
unfolding advance
advance-Kept rs k v claiming s was h self = claim-Kept rs k s was
advance-Kept rs k v reading s was h self = read_existing-Kept rs k s was
advance-Kept rs k v retrying s was h self = retry_claim-Kept rs k s was
advance-Kept rs k v executing s was h self = finish-Kept rs k v s was self
advance-Kept rs k v released s was h self = (h, was)
advance-Kept rs k v (answered o) s was h self = (h, was)
advance-Kept rs k v (responded r) s was h self = (h, was)

abbrev pub AllEcho : List Request → List Request → Type 0
AllEcho rs qs = All (λ q. IsEcho rs q.request_id q.progress) qs

turn_at-Kept :
    (rs : List Request) (n : ℕ) (v : Option CachedTradeResult) (qs : List Request) (s : Redis)
    → ((j : ℕ) → Backed rs j (s j))
    → AllEcho rs qs
    → Grows (turn_at n v qs s).0 rs
    → AllEcho rs (turn_at n v qs s).0 × ((j : ℕ) → Backed rs j ((turn_at n v qs s).1 j))
unfolding turn_at
turn_at-Kept rs n v [] s was h g = (tt, was)
turn_at-Kept rs zero v (q ∷ qs) s was h g =
    let here =
      advance-Kept rs q.request_id v q.progress s was h.0
        (λ r e. g q.request_id r (inl (refl, e))) in
    ((here.0, h.1), here.1)
turn_at-Kept rs (suc n) v (q ∷ qs) s was h g =
    let rest = turn_at-Kept rs n v qs s was h.1 (λ k r e. g k r (inr e)) in ((h.0, rest.0), rest.1)

abbrev Backs : System → Type 0
Backs w = AllEcho w.requests w.requests × ((j : ℕ) → Backed w.requests j (w.redis j))

happen-Backs : (e : Event) (w : System) → Backs w → Backs (happen e w)
unfolding happen
happen-Backs (arrive k) w h =
    let rs : List Request = record { request_id = k; progress = claiming } ∷ w.requests in
    let g : Grows w.requests rs = λ j r e. inr e in
    (
      (
        tt,
        All-mono {P = λ q. IsEcho w.requests q.request_id q.progress}
            {Q = λ q. IsEcho rs q.request_id q.progress}
            (λ q. IsEcho-mono w.requests rs g q.request_id q.progress) w.requests h.0,
      ),
      λ j. Backed-mono w.requests rs g j (w.redis j) (h.1 j),
    )
happen-Backs (expire k) w h = (h.0, set_key-Backed w.requests k none w.redis tt h.1)
happen-Backs (turn n v) w h =
    let rs = (turn_at n v w.requests w.redis).0 in
    let g = turn_at-Grows n v w.requests w.redis in
    turn_at-Kept rs n v w.requests w.redis (λ j. Backed-mono w.requests rs g j (w.redis j) (h.1 j))
      (All-mono {P = λ q. IsEcho w.requests q.request_id q.progress}
        {Q = λ q. IsEcho rs q.request_id q.progress}
        (λ q. IsEcho-mono w.requests rs g q.request_id q.progress) w.requests h.0)
      (λ k r e. e)

run-Backs : (es : List Event) (w : System) → Backs w → Backs (run es w)
unfolding run
run-Backs [] w h = h
run-Backs (e ∷ es) w h = run-Backs es (happen e w) (happen-Backs e w h)

-- However the requests of all clients interleave, a request that is turned away with a result, without running the
-- trade, gets one that a trade of its own request id was answered with.
pub run-AllEcho : (es : List Event) → AllEcho (run es at_start).requests (run es at_start).requests
run-AllEcho es = (run-Backs es at_start (tt, λ j. tt)).0
