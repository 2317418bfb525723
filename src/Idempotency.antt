-- ===== src/Idempotency.antt =====
-- The request keys that keep a trade from running twice: apps/server/services/service.trade-idempotency.ts and its
-- use in `run_with_idempotency` of apps/server/controllers/markets/controller.trade.ts.
--
-- Each `await` on Redis is one step of a request, so that the requests of all clients interleave as a list of events
-- says. `set`, `get` and `del` are Redis's, on the entries by request id; an entry can expire between any two steps.
-- A request whose Redis command fails takes no further step, or goes on as after an unknown error.
use highgarden.Base.{
  ℕ, zero, suc, Bool, true, false, Option, none, some, List, [], ◌∷◌, ◌==◌, if◌then◌else◌,
}
pub mod Starts
mod Given
pub mod Echo

pub record CachedTradeResult : Type 0 where
  pub status : ℕ
  pub body : ℕ

-- The text of an entry: the marker, the JSON of a result, or a text that does not parse.
pub data Entry : Type 0 where
  pending_marker unreadable : Entry
  stored : CachedTradeResult → Entry

pub data ClaimOutcome : Type 0 where
  in_flight : ClaimOutcome
  completed : CachedTradeResult → ClaimOutcome

abbrev pub Redis : Type 0
Redis = ℕ → Option Entry

unfoldable pub set_key : ℕ → Option Entry → Redis → Redis
set_key k e s j = if j == k then e else s j

abbrev pub is_absent : Option Entry → Bool
is_absent none = true
is_absent (some e) = false

-- Where a request stands: before the SET NX of `claim`, the GET of `read_existing`, its second SET NX; with the claim,
-- running the trade; turned away with an outcome; done, with the result written or the key released.
pub data Progress : Type 0 where
  claiming reading retrying executing released : Progress
  answered : ClaimOutcome → Progress
  responded : CachedTradeResult → Progress

unfoldable pub parse_cached : Entry → ClaimOutcome
parse_cached (stored r) = completed r
parse_cached _ = in_flight

-- claim: `set(key, PENDING_MARKER, "EX", ttl, "NX")`
unfoldable pub claim : ℕ → Redis → Progress × Redis
claim k s = if is_absent (s k) then (executing, set_key k (some pending_marker) s) else (reading, s)

unfoldable pub read_existing : ℕ → Redis → Progress × Redis
read_existing k s = elim (s k) [ none ↦ (retrying, s) | some e ↦ (answered (parse_cached e), s) ]

-- The recursive retry inside `read_existing`.
unfoldable pub retry_claim : ℕ → Redis → Progress × Redis
retry_claim k s =
    if is_absent (s k)
    then (executing, set_key k (some pending_marker) s)
    else (answered in_flight, s)

unfoldable pub complete : ℕ → CachedTradeResult → Redis → Progress × Redis
complete k r s = (responded r, set_key k (some (stored r)) s)

unfoldable pub release : ℕ → Redis → Progress × Redis
release k s = (released, set_key k none s)

-- `execute_trade`: what the trade, or its TradeError, is answered with; none is any other error, one of `complete`
-- after a successful trade included.
unfoldable pub finish : ℕ → Option CachedTradeResult → Redis → Progress × Redis
finish k none s = release k s
finish k (some r) s = complete k r s

-- The next step of a request.
unfoldable pub advance : ℕ → Option CachedTradeResult → Progress → Redis → Progress × Redis
advance k v claiming s = claim k s
advance k v reading s = read_existing k s
advance k v retrying s = retry_claim k s
advance k v executing s = finish k v s
advance k v p s = (p, s)

pub record Request : Type 0 where
  pub request_id : ℕ
  pub progress : Progress

-- All requests, and the keys that have expired.
pub record System : Type 0 where
  pub redis : Redis
  pub requests : List Request
  pub expired : List ℕ

-- A new request, the next step of the nth one (with the trade's result, if it is the one), or an expiry.
pub data Event : Type 0 where
  arrive expire : ℕ → Event
  turn : ℕ → Option CachedTradeResult → Event

unfoldable pub turn_at : ℕ → Option CachedTradeResult → List Request → Redis → List Request × Redis
turn_at n v [] s = ([], s)
turn_at zero v (q ∷ qs) s =
    let (p, s') = advance q.request_id v q.progress s in (record q { progress = p } ∷ qs, s')
turn_at (suc n) v (q ∷ qs) s = let (qs', s') = turn_at n v qs s in (q ∷ qs', s')

unfoldable pub happen : Event → System → System
happen (arrive k) w = record w {
  requests = record { request_id = k; progress = claiming } ∷ w.requests;
}
happen (expire k) w = record w { redis = set_key k none w.redis; expired = k ∷ w.expired }
happen (turn n v) w =
    let (qs, s) = turn_at n v w.requests w.redis in record w { requests = qs; redis = s }

unfoldable pub run : List Event → System → System
run [] w = w
run (e ∷ es) w = run es (happen e w)
