-- ===== src/Validation/Caches.antt =====
-- The caches of apps/server/services/service.pre-trade-validator.ts.
use highgarden.Base.{ltb, if◌then◌else◌, ℕ, ◌+◌, ◌≡◌, none, some, arith}
use highgarden.Trade.{◌>>=◌, World, Services, GammaStatus, Untouched, ok}
use highgarden.Validation.{
  get_status_cached, check_market_status, get_balance_cached, check_funder_balance, validate,
  ValidateInput, status_ttl_ms, cached_status, live_status,
}

get_status-Untouched :
    (sv : Services) (id : ℕ) (w : World) → Untouched w (get_status_cached sv id w).1
unfolding get_status_cached ◌>>=◌
get_status-Untouched sv id w = ground arith

get_balance-Untouched : (sv : Services) (w : World) → Untouched w (get_balance_cached sv w).1
unfolding get_balance_cached ◌>>=◌
get_balance-Untouched sv w = ground arith

pub validate-Untouched :
    (sv : Services) (input : ValidateInput) (w : World) → Untouched w (validate sv input w).1
unfolding validate check_market_status check_funder_balance ◌>>=◌
validate-Untouched sv input w = ground arith

-- When no live entry for the market is cached, the status that gamma gives is what every request gets
-- in the 30 seconds after, whatever gamma would say to it; a request after that asks gamma again.
pub get_status_cached_ttl :
    (sv later : Services) (id : ℕ) (s : GammaStatus) (w : World)
    → live_status sv.now (cached_status id w.status_cache) ≡ none
    → sv.gamma_status id ≡ some s
    → (get_status_cached later id (get_status_cached sv id w).1).0
      ≡ ok (if ltb later.now (sv.now + status_ttl_ms) then some s else later.gamma_status id)
unfolding get_status_cached ◌>>=◌
get_status_cached_ttl sv later id s w miss fresh = ground arith
