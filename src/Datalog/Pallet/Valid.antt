-- ===== src/Datalog/Pallet/Valid.antt =====
-- The calls of pallets/datalog/src/lib.rs keep the index of every account valid.
use mathlib.Core.Path.{subst}
use ipci_blockchain.Prelude.{ℕ, ◌≢◌, List, arith}
use ipci_blockchain.Datalog.RingBuffer.{default_index}
use ipci_blockchain.Datalog.RingBuffer.Bounds.{IsValid, add-IsValid}
use ipci_blockchain.Datalog.Pallet.{Trait, Result, Event, Call}
use ipci_blockchain.Datalog.Pallet.Laws.{IsTrait}
use ipci_blockchain.Datalog.Pallet.Outcome.{recorded, cleared}
use ipci_blockchain.Datalog.Pallet.Recorded.{index-recorded_self, index-recorded_ne}
use ipci_blockchain.Datalog.Pallet.Cleared.{index-cleared_self, index-cleared_ne}
use ipci_blockchain.Datalog.Pallet.Effect.{Effect, too_big, unsigned, records, erases}

-- To show a property of every account, show it of one and of all others.
pub by_account :
    {AccountId : Type 0} (same : Discrete AccountId) (P : AccountId → Type 0) (a b : AccountId)
    → P a
    → (a ≢ b → P b)
    → P b
by_account same P a b here differ = elim (same a b) [ yes p ↦ subst P p here | no ne ↦ differ ne ]

module _ {State Origin AccountId Moment Record : Type 0}
    (t : Trait State Origin AccountId Moment Record) (laws : IsTrait t) where
  open t use {window_size, datalog_index}

  -- both pointers of every account are slots
  abbrev pub AllValid : State → Type 0
  AllValid s = (a : AccountId) → IsValid (datalog_index.get s a) window_size

  pub default-IsValid : IsValid default_index window_size
  default-IsValid = omega (arith, laws.window_pos, laws.window_u64)

  pub recorded-valid :
      (a : AccountId) (rec : Record) (s : State) → AllValid s → AllValid (recorded t a rec s)
  recorded-valid a rec s v b =
      by_account laws.account_discrete
        (λ b. IsValid (datalog_index.get (recorded t a rec s) b) window_size) a b
        (rw (index-recorded_self t laws a rec s) (add-IsValid window_size (v a)))
        (λ ne. rw (index-recorded_ne t laws a b rec s ne) (v b))

  pub cleared-valid :
      (a : AccountId) (l : List ℕ) (s : State) → AllValid s → AllValid (cleared t a l s)
  cleared-valid a l s v b =
      by_account laws.account_discrete
        (λ b. IsValid (datalog_index.get (cleared t a l s) b) window_size) a b
        (rw (index-cleared_self t laws a l s) default-IsValid)
        (λ ne. rw (index-cleared_ne t laws a b l s ne) (v b))

  pub Effect-valid :
      (origin : Origin) (c : Call Record) {s : State}
      {x : Result (Unit {0}) × State × List (Event AccountId Moment Record)}
      → AllValid s
      → Effect t origin c s x
      → AllValid (x.1)
  Effect-valid origin c v (too_big rec e big) = v
  Effect-valid origin c v (unsigned e bad) = v
  Effect-valid origin c {s} v (records a rec e signed small) = recorded-valid a rec s v
  Effect-valid origin c {s} v (erases a e signed) = cleared-valid a _ s v
