-- ===== src/Runtime/Tests/Logs.antt =====
-- The datalog pallet with the parameters of the runtime, on a chain with one record.
use native.Mathlib.Decide.{ℕ_discrete}
use ipci_blockchain.Prelude.{ℕ, Option, some, List, [], ◌∷◌, ◌≤◌, ◌≡◌, refl, length, arith}
use ipci_blockchain.Datalog.Pallet.{
  Trait, RingBufferItem, ok, new_record, record_call, record_data, dispatch, data_of,
}
use ipci_blockchain.Datalog.Pallet.Laws.{IsTrait}
use ipci_blockchain.Datalog.Pallet.History.{Reach, start, call}
use ipci_blockchain.Datalog.Tests.{new_chain, then_state}
use ipci_blockchain.Datalog.Tests.Fixture.{
  Account, Bytes, Chain, pallet, pallet-IsTrait, slot_discrete,
}
use ipci_blockchain.Runtime.Parameters.{datalog_maximum_message_size}
use ipci_blockchain.Runtime.Parameters.Logs.{total_size, runtime_log_fits}

abbrev runtime_pallet : Trait Chain (Option Account) Account ℕ Bytes
runtime_pallet = record (pallet 128) { maximum_message_size = datalog_maximum_message_size }

runtime_laws : IsTrait runtime_pallet
runtime_laws =
    let laws = pallet-IsTrait 128 (omega arith) (omega arith) in
    record {
      account_discrete = laws.account_discrete;
      window_pos = laws.window_pos;
      window_u64 = laws.window_u64;
      old_map = laws.old_map;
      index_map = laws.index_map;
      item_map = laws.item_map;
      old_index = laws.old_index;
      old_item = laws.old_item;
      index_old = laws.index_old;
      index_item = laws.index_item;
      item_old = laws.item_old;
      item_index = laws.item_index;
      now-remove = laws.now-remove;
    }

abbrev with_record : Chain
with_record =
    then_state new_chain (dispatch runtime_pallet 128 (some 7) (record_call (1 ∷ [])) new_chain)

one_sent : Reach runtime_pallet 128 new_chain with_record (new_record 7 5 (1 ∷ []) ∷ [])
unfolding dispatch record_data slot_discrete ℕ_discrete
one_sent = call (some 7) (record_call (1 ∷ [])) (ok tt) start refl

runtime_log_fits_example :
    (items : List (RingBufferItem ℕ Bytes)) × (data_of runtime_pallet 128 7 with_record
      ≡ some items)
    × (length items ≤ 127)
    × (total_size runtime_pallet items ≤ 65024)
runtime_log_fits_example =
    runtime_log_fits runtime_pallet runtime_laws refl refl new_chain 7 (λ b. refl) one_sent
