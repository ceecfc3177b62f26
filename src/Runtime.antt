-- ===== src/Runtime.antt =====
-- node/runtime: the parts of the runtime that are this repository's own code.
pub mod Constants
pub mod Author
pub mod Votes
pub mod Fees
pub mod Parameters
pub mod Pallets
pub mod Apis
pub mod Benchmarks
pub mod Transactions
pub mod Version
mod Tests
