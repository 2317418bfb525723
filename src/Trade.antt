-- ===== src/Trade.antt =====
-- What one trade request works on: the state that the server's trade services share, what the world
-- outside answers, and a call as state passing with exceptions.
-- apps/server/services: service.trade-errors.ts, the interfaces of service.trade-orchestrator.ts,
-- service.solana-trade.ts, service.quote-signer.ts and service.pre-trade-validator.ts;
-- packages/polymarket-client/src/types.ts.
--
-- Amounts of dollars are whole millionths (USDC and pUSD have six decimals), prices whole cents,
-- sizes whole shares. The settings are whole numbers, the spread not below zero. A request reads
-- the clock once. Log lines and message texts are left out.
mod State
mod Monad
mod Frame
pub use State.*
unfoldable pub use Monad.*
pub use Frame.*
