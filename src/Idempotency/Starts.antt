-- ===== src/Idempotency/Starts.antt =====
-- How often the trade of one request id is started: apps/server/services/service.trade-idempotency.ts.
use highgarden.Base.{
  ℕ, zero, suc, ◌+◌, ◌≤◌, Bool, true, false, Option, none, List, [], ◌∷◌, ◌==◌, if◌then◌else◌,
  arith, sum_by,
}
use highgarden.Idempotency.{
  Redis, set_key, is_absent, Progress, executing, released, responded, claim, read_existing,
  retry_claim, complete, release, finish, advance, Request, System, Event, arrive, expire, turn,
  turn_at, happen, run, CachedTradeResult,
}

abbrev pub has_started : Progress → Bool
has_started executing = true
has_started released = true
has_started (responded r) = true
has_started _ = false

abbrev pub was_released : Progress → Bool
was_released released = true
was_released _ = false

abbrev pub one_if : Bool → ℕ
one_if b = if b then 1 else 0

-- How many of the requests with this id have started the trade, and have given the key up.
abbrev pub starts_of : ℕ → Request → ℕ
starts_of k q = if q.request_id == k then one_if (has_started q.progress) else 0

abbrev pub releases_of : ℕ → Request → ℕ
releases_of k q = if q.request_id == k then one_if (was_released q.progress) else 0

abbrev pub starts : ℕ → System → ℕ
starts k w = sum_by (starts_of k) w.requests

abbrev pub releases : ℕ → System → ℕ
releases k w = sum_by (releases_of k) w.requests

abbrev pub expiries : ℕ → System → ℕ
expiries k w = sum_by (λ j. one_if (j == k)) w.expired

advance-Bounded :
    (k : ℕ) (v : Option CachedTradeResult) (q : Request) (s : Redis)
    → let r = advance q.request_id v q.progress s in
      starts_of k (record q { progress = r.0 }) + one_if (is_absent (r.1 k)) + releases_of k q
      ≤ starts_of k q + one_if (is_absent (s k)) + releases_of k (record q { progress = r.0 })
unfolding advance claim read_existing retry_claim finish complete release set_key
advance-Bounded k v q s = ground arith

turn_at-Bounded :
    (k n : ℕ) (v : Option CachedTradeResult) (qs : List Request) (s : Redis)
    → let r = turn_at n v qs s in
      sum_by (starts_of k) r.0 + one_if (is_absent (r.1 k)) + sum_by (releases_of k) qs
      ≤ sum_by (starts_of k) qs + one_if (is_absent (s k)) + sum_by (releases_of k) r.0
unfolding turn_at
turn_at-Bounded k n v [] s = omega arith
turn_at-Bounded k zero v (q ∷ qs) s = let h = advance-Bounded k v q s in omega arith
turn_at-Bounded k (suc n) v (q ∷ qs) s = let h = turn_at-Bounded k n v qs s in omega arith

-- Once more for a free key, for each start that gave it up and each expiry.
abbrev Room : ℕ → System → Type 0
Room k w = starts k w + one_if (is_absent (w.redis k)) ≤ 1 + releases k w + expiries k w

happen-Room : (k : ℕ) (e : Event) (w : System) → Room k w → Room k (happen e w)
unfolding happen set_key
happen-Room k (arrive j) w h = ground arith
happen-Room k (expire j) w h = ground arith
happen-Room k (turn n v) w h = let h' = turn_at-Bounded k n v w.requests w.redis in omega arith

run-Room : (k : ℕ) (es : List Event) (w : System) → Room k w → Room k (run es w)
unfolding run
run-Room k [] w h = h
run-Room k (e ∷ es) w h = run-Room k es (happen e w) (happen-Room k e w h)

abbrev pub at_start : System
at_start = record { redis = λ k. none; requests = []; expired = [] }

-- However the requests of all clients interleave, the trade of a request id is started at most once, and once more
-- for each of its starts that released the key and each time that the key expired.
pub run-starts :
    (k : ℕ) (es : List Event)
    → starts k (run es at_start) ≤ 1 + releases k (run es at_start) + expiries k (run es at_start)
run-starts k es = let h = run-Room k es at_start (omega arith) in omega arith
