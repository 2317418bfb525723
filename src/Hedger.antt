-- ===== src/Hedger.antt =====
-- apps/hedger: hedge jobs, boot recovery and the cursor. Hedger/State and Hedger/Rows are the tables and their queries,
-- Hedger/Walk and Hedger/Processor the attempt, Hedger/Recovery the recovery at boot, Hedger/Cursor the cursor, the other modules what is
-- shown of them.
--
-- Log lines, the queue's own retries and the completion times are left out; `Number(event.size)` is taken as exact.
mod State
mod Rows
mod Walk
mod Processor
pub mod Cursor
pub mod Latest
mod Recovery
mod Owed
mod Drift
pub mod Recovered
pub mod WalkTurn
pub mod WalkBounds
pub mod WalkFill
pub mod Delta
pub mod Settling
pub mod Context
pub mod Conservation
pub mod Found
pub mod Tracked
pub mod Once
pub use State.*
unfoldable pub use Rows.*
unfoldable pub use Walk.*
unfoldable pub use Processor.*
unfoldable pub use Recovery.*
