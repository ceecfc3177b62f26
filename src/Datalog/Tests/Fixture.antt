-- ===== src/Datalog/Tests/Fixture.antt =====
-- A chain with the framework's storage as functions, and the pallet on it.
use mathlib.Core.Logic.{ite, if_pos, if_neg}
use native.Mathlib.Decide.{ℕ_discrete}
use ipci_blockchain.Prelude.{ℕ, ◌<◌, ◌^◌, ◌≡◌, ◌≢◌, refl, Option, none, some, List, [], length}
use ipci_blockchain.Datalog.RingBuffer.{RingBufferIndex, default_index}
use ipci_blockchain.Datalog.Storage.{StorageMap, IsStorageMap}
use ipci_blockchain.Datalog.Pallet.{Trait, Result, ok, err, bad_origin, RingBufferItem}
use ipci_blockchain.Datalog.Pallet.Laws.{IsTrait}
use ipci_blockchain.Datalog.RingBuffer.Window.{window}

-- A map inside a state, by a function that reads it and one that replaces it.
module _ {State K V : Type 0} (same : Discrete K) (default : V) (look : State → K → V)
    (put : (K → V) → State → State) where
  abbrev written : K → V → State → State
  written k v s = put (λ j. ite (same k j) v (look s j)) s

  abbrev pub function_map : StorageMap State K V
  function_map = record {
    get = look;
    insert = written;
    remove = λ k s. written k default s;
    take = λ k s. (look s k, written k default s);
    mutate = λ k f s. let (v, s') = f (look s k) s in written k v s';
  }

  module _ (put_look : (f : K → V) (s : State) → look (put f s) ≡ f) where
    look-written_self : (k : K) (v : V) (s : State) → look (written k v s) k ≡ v
    look-written_self k v s = rw put_look (if_pos (same k k) refl _ _)

    look-written_ne : (k j : K) (v : V) (s : State) → k ≢ j → look (written k v s) j ≡ look s j
    look-written_ne k j v s ne = rw put_look (if_neg (same k j) ne _ _)

    function_map-IsStorageMap : IsStorageMap function_map default
    function_map-IsStorageMap = record {
      get-insert_self = look-written_self;
      get-insert_ne = look-written_ne;
      get-remove_self = λ k s. look-written_self k default s;
      get-remove_ne = λ k j s ne. look-written_ne k j default s ne;
      take_lem = λ k s. refl;
      mutate_lem = λ k f s. refl;
    }

abbrev pub Account : Type 0
Account = ℕ

abbrev pub Bytes : Type 0
Bytes = List ℕ

pub record Chain : Type 0 where
  pub clock : ℕ
  pub old : Account → List (ℕ × Bytes)
  pub index : Account → RingBufferIndex
  pub item : Account × ℕ → RingBufferItem ℕ Bytes

unfoldable pub slot_discrete : Discrete (Account × ℕ)
slot_discrete = hlevel ℕ_discrete

abbrev pub empty_item : RingBufferItem ℕ Bytes
empty_item = record { 0 = 0; 1 = [] }

abbrev signed_by : Option Account → Result Account
signed_by none = err bad_origin
signed_by (some a) = ok a

-- a pallet with `window` slots for each account and records of at most four bytes
abbrev pub pallet : ℕ → Trait Chain (Option Account) Account ℕ Bytes
pallet window = record {
  ensure_signed = signed_by;
  now = λ s. s.clock;
  size_hint = length;
  default_record = [];
  default_moment = 0;
  window_size = window;
  maximum_message_size = 4;
  store = record {
    datalog = function_map ℕ_discrete [] (λ s. s.old) (λ f s. record s { old = f });
    datalog_index =
        function_map ℕ_discrete default_index (λ s. s.index) (λ f s. record s { index = f });
    datalog_item =
        function_map slot_discrete empty_item (λ s. s.item) (λ f s. record s { item = f });
  };
}

pub pallet-IsTrait : (window : ℕ) → 0 < window → window < 2 ^ 64 → IsTrait (pallet window)
pallet-IsTrait window pos small = record {
  account_discrete = ℕ_discrete;
  window_pos = pos;
  window_u64 = small;
  old_map =
      function_map-IsStorageMap ℕ_discrete [] (λ s. s.old) (λ f s. record s { old = f })
        (λ f s. refl);
  index_map =
      function_map-IsStorageMap ℕ_discrete default_index (λ s. s.index)
        (λ f s. record s { index = f }) (λ f s. refl);
  item_map =
      function_map-IsStorageMap slot_discrete empty_item (λ s. s.item)
        (λ f s. record s { item = f }) (λ f s. refl);
  old_index = record { get-insert = λ k v s j. refl; get-remove = λ k s j. refl };
  old_item = record { get-insert = λ k v s j. refl; get-remove = λ k s j. refl };
  index_old = record { get-insert = λ k v s j. refl; get-remove = λ k s j. refl };
  index_item = record { get-insert = λ k v s j. refl; get-remove = λ k s j. refl };
  item_old = record { get-insert = λ k v s j. refl; get-remove = λ k s j. refl };
  item_index = record { get-insert = λ k v s j. refl; get-remove = λ k s j. refl };
  now-remove = λ a s. refl;
}
