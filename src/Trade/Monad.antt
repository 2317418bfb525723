-- ===== src/Trade/Monad.antt =====
-- A call of the trade services (apps/server/services) as an `Action`.
unfoldable pub use highgarden.Call.{◌>>=◌, catch}
pub use highgarden.Call.{Reply, ok, err, Call, pure, throw, gets, or_throw, ◌>>◌, throw_if, modify}
pub use highgarden.Call.Frame.{
  Reply-cases, bind-frame, catch-frame, bind-ok, bind-value, bind-throw, ok-injective, on-ok,
  bind-frame_at, Returns, bind-Returns, catch-value, catch-throw, catch_rethrow,
}
use highgarden.Trade.State.{World, Failure}

abbrev pub Result : Type 0 → Type 0
Result A = Reply Failure A

abbrev pub Action : Type 0 → Type 0
Action A = Call World Failure A
