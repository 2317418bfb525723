-- ===== src/Examples/Idempotency.antt =====
-- Four requests with one id: the second comes while the first runs, the third after it, the last after an expiry: apps/server/controllers/markets/
-- controller.trade.ts.
use highgarden.Base.{◌≡◌, refl, ◌+◌, ◌≤◌, some, none, List, [], ◌∷◌}
use highgarden.Idempotency.{
  CachedTradeResult, Event, arrive, turn, expire, run, happen, turn_at, advance, claim, finish,
  complete, read_existing, set_key, parse_cached,
}
use highgarden.Idempotency.Echo.{AllEcho, run-AllEcho}
use highgarden.Idempotency.Starts.{at_start, starts, releases, expiries, run-starts}

abbrev outcome : CachedTradeResult
outcome = record { status = 200; body = 5 }

abbrev events : List Event
events =
    arrive 3
    ∷ turn 0 none
    ∷ arrive 3
    ∷ turn 0 none
    ∷ turn 0 none
    ∷ turn 1 (some outcome)
    ∷ arrive 3
    ∷ turn 0 none
    ∷ turn 0 none
    ∷ expire 3
    ∷ arrive 3
    ∷ turn 0 none
    ∷ []

started_twice : starts 3 (run events at_start) ≡ 2
unfolding run happen turn_at advance claim finish complete read_existing set_key parse_cached
started_twice = refl

run-starts_example :
    starts 3 (run events at_start)
    ≤ 1 + releases 3 (run events at_start) + expiries 3 (run events at_start)
run-starts_example = run-starts 3 events

run-AllEcho_example : AllEcho (run events at_start).requests (run events at_start).requests
run-AllEcho_example = run-AllEcho events
