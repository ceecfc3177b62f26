-- ===== src/Datalog/Storage.antt =====
-- The storage maps of the framework (`StorageMap` of frame_support), which the pallet only calls:
-- their operations on a state of the chain, and the documented laws that the pallet relies on.
use ipci_blockchain.Prelude.{◌≡◌, ◌≢◌}

pub record StorageMap (State Key Value : Type 0) : Type 0 where
  pub get : State → Key → Value
  pub insert : Key → Value → State → State
  pub remove : Key → State → State
  pub take : Key → State → Value × State
  -- the closure gets the value, may itself write to the state, and leaves a new value
  pub mutate : Key → (Value → State → Value × State) → State → State

-- A read gives the last write of its key, and the default where there is none.
pub record IsStorageMap {State Key Value : Type 0} (m : StorageMap State Key Value)
    (default : Value) : Type 0 where
  pub get-insert_self : (k : Key) (v : Value) (s : State) → m.get (m.insert k v s) k ≡ v
  pub get-insert_ne :
      (k j : Key) (v : Value) (s : State) → k ≢ j → m.get (m.insert k v s) j ≡ m.get s j
  pub get-remove_self : (k : Key) (s : State) → m.get (m.remove k s) k ≡ default
  pub get-remove_ne : (k j : Key) (s : State) → k ≢ j → m.get (m.remove k s) j ≡ m.get s j
  pub take_lem : (k : Key) (s : State) → m.take k s ≡ (m.get s k, m.remove k s)
  pub mutate_lem :
      (k : Key) (f : Value → State → Value × State) (s : State)
      → m.mutate k f s ≡ m.insert k (f (m.get s k) s).0 (f (m.get s k) s).1

-- Writes to the map `m` leave what another map `n` reads alone.
pub record IsSeparate {State Key Value Key' Value' : Type 0} (m : StorageMap State Key Value)
    (n : StorageMap State Key' Value') : Type 0 where
  pub get-insert :
      (k : Key) (v : Value) (s : State) (j : Key') → n.get (m.insert k v s) j ≡ n.get s j
  pub get-remove : (k : Key) (s : State) (j : Key') → n.get (m.remove k s) j ≡ n.get s j
