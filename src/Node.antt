-- ===== src/Node.antt =====
-- node/cli: the node.
pub mod Service
pub mod Handles
pub mod ChainSpec
pub mod Command
pub mod Rpc
pub mod Browser
pub mod Build
pub mod Primitives
mod Tests
