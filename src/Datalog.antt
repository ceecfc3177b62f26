-- ===== src/Datalog.antt =====
-- pallets/datalog: the datalog pallet.
pub mod RingBuffer
pub mod Storage
pub mod Pallet
pub mod Weight
pub mod Tests
