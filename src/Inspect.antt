-- ===== src/Inspect.antt =====
-- node/inspect: the sub-command that looks up and prints blocks and extrinsics.
pub mod Address
pub mod Inspector
pub mod Printer
pub mod Command
mod Tests
