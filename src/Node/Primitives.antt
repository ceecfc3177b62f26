-- ===== src/Node/Primitives.antt =====
-- node/primitives/src/lib.rs: the machine integers behind the types of the chain, as the numbers that
-- each type holds.
use ipci_blockchain.Prelude.{ℕ, ◌^◌, ◌<◌}

-- `BlockNumber`
abbrev pub IsBlockNumber : ℕ → Type 0
IsBlockNumber n = n < 2 ^ 32

-- `AccountIndex`
abbrev pub IsAccountIndex : ℕ → Type 0
IsAccountIndex n = n < 2 ^ 32

-- `Balance`
abbrev pub IsBalance : ℕ → Type 0
IsBalance n = n < 2 ^ 128

-- `Moment`
abbrev pub IsMoment : ℕ → Type 0
IsMoment n = n < 2 ^ 64

-- `Index`
abbrev pub IsIndex : ℕ → Type 0
IsIndex n = n < 2 ^ 32

-- `Timestamp`
abbrev pub IsTimestamp : ℕ → Type 0
IsTimestamp n = n < 2 ^ 64
