-- ===== src/Lib.antt =====
-- Highgarden: the trading core of a prediction market that hedges on Polymarket and settles on Solana.
--
-- A user's trade reaches the server (apps/server). The trade orchestrator checks the market and the
-- user, covers the trade from positions that the platform already holds, fills the rest on Polymarket,
-- signs a quote and submits it to the program on Solana, and writes the rows that go with it. The
-- hedger (apps/hedger) sees each fill on the chain and hedges those that are not hedged yet. Server and
-- hedger share the Postgres tables.
--
-- The files, and the code they model:
--   Base, Base/*     numbers, integers, lists, rounding: what the other files share.
--   Call, Call/Frame a call that reads and writes a state and may throw, and how to reason along it.
--   Database         the rows of packages/database/prisma/schema.
--   Netting, Netting/*
--                    apps/server/services/service.inventory-netter.ts: `net`, `find_candidates`,
--                    `try_claim_row`, with other requests running between its database calls.
--   Trade, Trade/*   the state of a trade request: the tables, the orders sent to Polymarket, the
--                    transactions gone through on Solana, the validator's caches; and the services.
--   Validation, Pretrade
--                    apps/server/services/service.pre-trade-validator.ts.
--   Pricing          the price arithmetic of apps/server/services/service.trade-orchestrator.ts.
--   Records          its row writes: `persist_quote`, `mark_quote_consumed`, `persist_fill_and_hedge`,
--                    `record_orphan_inventory`.
--   SolanaTrade      apps/server/services/service.solana-trade.ts.
--   Orchestrator, Orchestrator/*
--                    `execute`, `execute_no_hedge`, `execute_solana_only` and their steps.
--   Hedger, Hedger/* apps/hedger/hedger/processor.ts with its queries in apps/hedger/db: `handle` and
--                    `walk_book`; the boot recovery of apps/hedger/hedger/index.ts; and the
--                    cursor of apps/hedger/db/cursor.ts.
--   Idempotency, Idempotency/*
--                    apps/server/services/service.trade-idempotency.ts and `run_with_idempotency` of
--                    apps/server/controllers/markets/controller.trade.ts, as steps that interleave.
--   Liquidator, Liquidator/*
--                    apps/hedger/inventory/liquidator.ts, on the same table as Netting.
--   Ingest, Ingest/* apps/hedger/ingest: the poller's tick over the history of the program's transactions, and
--                    what the listener does with a notification.
--   Resolution, Resolution/*
--                    the table of apps/hedger/db/resolver.ts with the three loops on it: apps/hedger/resolver,
--                    apps/hedger/reconcile and apps/hedger/market-status, one tick at a time.
--   Contract, Contract/*
--                    packages/contract/src: serialize.ts, decode.ts and discriminator.ts, against the Rust
--                    structs of apps/solana/programs/contract/src.
--   Examples, Examples/*
--                    runs at a concrete market.
--
-- State and operations. A request is a function on the shared state that returns a value or an error
-- and keeps what it wrote before an error, as the code does outside of transactions. What the world
-- outside answers (the clock, random ids, Polymarket, Solana, gamma, which database calls fail) is a
-- record of arguments (`Services`, `HedgeServices`, `RecoveryServices`, `LiquidatorServices`,
-- `IngestServices`, `ResolutionServices`); a theorem that leans on an answer says so. Where two
-- processes can interleave, the other's writes are an argument too (`Interleaving`, `rival_fills`,
-- `rival_hedges`, `others`), or the run is a list of events of all of them (`Event`, `CursorEvent`,
-- `ResolutionTick`).
--
-- Numbers. Amounts of USDC are whole millionths, prices whole cents, sizes whole shares, times
-- milliseconds; JavaScript's numbers are exact in these ranges and are taken as naturals, or integers
-- where they can be negative. `Math.round` of a quotient is `round_div`. Texts that are only compared
-- are numbers; those of the accounts and events are kept as their UTF-8 bytes.
--
-- Transactions. Whether a transaction goes through on Solana and whether the client gives its signature are
-- two answers, in any combination: the client throws where the confirmation is lost, and it does not look
-- at the error of a confirmed one (`SendReply`, `lands` and `confirms`). In the same way an order of the
-- liquidator whose call throws may have been filled (`fills`).
--
-- Bounds and fuel. The walk over the book runs on fuel, one turn for each price of the slippage limit
-- and two more. All other loops are recursion on a list.
--
-- Not modelled: the Solana programs (Rust), the cryptography of signatures, the web application, the
-- mirror, routes, sockets and logging. The hedger's queue and the timers and subscriptions of its
-- loops are left out.
pub mod Base
pub mod Call
pub mod Database
pub mod Netting
pub mod Trade
pub mod Pricing
pub mod Validation
pub mod Pretrade
pub mod Records
pub mod SolanaTrade
pub mod Orchestrator
pub mod Hedger
pub mod Idempotency
pub mod Contract
pub mod Liquidator
pub mod Ingest
pub mod Resolution
mod Examples
