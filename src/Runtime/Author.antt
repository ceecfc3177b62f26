-- ===== src/Runtime/Author.antt =====
-- node/runtime/src/impls.rs: `Author`, who is paid what is left over. The balances and the authorship
-- pallets are the framework's.
abbrev pub on_nonzero_unbalanced :
    {State AccountId Imbalance : Type 0}
    → (State → AccountId)
    → (AccountId → Imbalance → State → State)
    → Imbalance
    → State
    → State
on_nonzero_unbalanced author resolve_creating amount s = resolve_creating (author s) amount s
