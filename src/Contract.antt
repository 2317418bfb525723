-- ===== src/Contract.antt =====
-- packages/contract: how instructions, accounts and events of the Solana program are written and read.
--
-- A `Buffer` is the list of its bytes, a text the list of its UTF-8 bytes, a `PublicKey` its 32 bytes; bigints are
-- numbers, signed ones integers. SHA-256 and base64 are parameters.
mod Bytes
mod Writer
mod Reader
mod Text
mod Accounts
mod LogLines
mod Events
pub mod Trace
mod Lines
pub mod Nested
pub mod Emitted
mod Reads
mod Layout
pub mod RoundTrip
pub mod Quote
unfoldable pub use Bytes.*
unfoldable pub use Writer.*
unfoldable pub use Reader.*
unfoldable pub use Accounts.*
pub use Text.*
unfoldable pub use LogLines.*
unfoldable pub use Events.*
