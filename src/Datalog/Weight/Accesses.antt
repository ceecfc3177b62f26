-- ===== src/Datalog/Weight/Accesses.antt =====
-- How often the calls of pallets/datalog/src/lib.rs access the storage, against the weights that
-- pallets/datalog/src/default_weight.rs declares: the calls run on storage maps that count.
use ipci_blockchain.Prelude.{
  ℕ, Option, none, ◌+◌, ◌-◌, ◌^◌, min, ◌≤◌, ◌≡◌, refl, ap₂, some, List, [], ◌∷◌, foldl, leb, true,
  length, arith,
}
use ipci_blockchain.Datalog.Storage.{StorageMap}
use ipci_blockchain.Datalog.Weight.{DbWeight, record_weight}
use ipci_blockchain.Datalog.RingBuffer.Bounds.{IsValid}
use ipci_blockchain.Datalog.RingBuffer.Window.{size, slots, length-window, size-lt}
use ipci_blockchain.Datalog.RingBuffer.Slots.{fold_iter-slots}
use ipci_blockchain.Datalog.Pallet.{Trait, Result, Event, ok, record_data, erase, ◌>>=◌}
use ipci_blockchain.Datalog.Pallet.Laws.{IsTrait}

-- a state of the chain, with the reads and the writes of storage so far
pub record Counted (State : Type 0) : Type 0 where
  pub state : State
  pub reads : ℕ
  pub writes : ℕ

abbrev pub fresh : {State : Type 0} → State → Counted State
fresh s = record { state = s; reads = 0; writes = 0 }

-- A storage map on such states. A `mutate` and a `take` read and write; `get` is not counted, since it
-- leaves the state as it is.
abbrev pub counting_map :
    {State Key Value : Type 0} → StorageMap State Key Value → StorageMap (Counted State) Key Value
counting_map m = record {
  get = λ c k. m.get c.state k;
  insert = λ k v c. record c { state = m.insert k v c.state; writes = c.writes + 1 };
  remove = λ k c. record c { state = m.remove k c.state; writes = c.writes + 1 };
  take = λ k c. (
    (m.take k c.state).0,
    record { state = (m.take k c.state).1; reads = c.reads + 1; writes = c.writes + 1 },
  );
  mutate = λ k f c.
      let (v, c') = f (m.get c.state k) (record c { reads = c.reads + 1 }) in
      record c' { state = m.insert k v c'.state; writes = c'.writes + 1 };
}

module _ {State Origin AccountId Moment Record : Type 0}
    (t : Trait State Origin AccountId Moment Record) where
  -- the pallet on counting maps
  abbrev pub counting : Trait (Counted State) Origin AccountId Moment Record
  counting = record {
    ensure_signed = t.ensure_signed;
    now = λ c. t.now c.state;
    size_hint = t.size_hint;
    default_record = t.default_record;
    default_moment = t.default_moment;
    window_size = t.window_size;
    maximum_message_size = t.maximum_message_size;
    store = record {
      datalog = counting_map t.datalog;
      datalog_index = counting_map t.datalog_index;
      datalog_item = counting_map t.datalog_item;
    };
  }

  -- the accesses of a call that returned
  abbrev pub accesses :
      Option (Result (Unit {0}) × Counted State × List (Event AccountId Moment Record))
      → Option (ℕ × ℕ)
  accesses none = none
  accesses (some (r, c, es)) = some (c.reads, c.writes)

  abbrev remove_counted : AccountId → Counted State → ℕ → Counted State
  remove_counted a c i = (counting_map t.datalog_item).remove (a, i) c

  removes-writes :
      (a : AccountId) (l : List ℕ) (c : Counted State)
      → ((foldl (remove_counted a) c l).reads ≡ c.reads)
        × ((foldl (remove_counted a) c l).writes ≡ c.writes + length l)
  removes-writes a [] c = (refl, omega arith)
  removes-writes a (i ∷ l) c =
      let (same, more) = removes-writes a l (remove_counted a c i) in (same, omega (arith, more))

  -- `record` returns at once. When the record is small enough and the origin is signed, its weight
  -- declares a read for each read of the pallet's storage and one more, a write for each write of the
  -- pallet's storage, and nothing else but the base of 500_000.
  pub record_data-accesses :
      (origin : Origin) (a : AccountId) (rec : Record) (s : State)
      → leb (t.size_hint rec) t.maximum_message_size ≡ true
      → t.ensure_signed origin ≡ ok a
      → (reads : ℕ) × (writes : ℕ) × (accesses (record_data counting origin rec (fresh s))
          ≡ some (reads, writes))
        × ((db : DbWeight)
            → record_weight db
              ≡ min
                  (min (500_000 + db.reads (reads + 1)) (2 ^ 64 - 1) + db.writes writes)
                  (2 ^ 64 - 1))
  unfolding record_data record_weight
  record_data-accesses origin a rec s small signed = (1, 3, rw (small, signed) refl, λ db. refl)

  erase-counted :
      (laws : IsTrait t) (fuel : ℕ) (origin : Origin) (a : AccountId) (s : State)
      → t.window_size ≤ fuel
      → IsValid (t.datalog_index.get s a) t.window_size
      → t.ensure_signed origin ≡ ok a
      → accesses (erase counting fuel origin (fresh s))
        ≡ some (1, 2 + length (slots (t.datalog_index.get s a) t.window_size))
  unfolding erase
  erase-counted laws fuel origin a s enough v signed =
      let begun : Counted State = record {
        state = t.datalog_index.remove a (t.datalog.remove a s);
        reads = 1;
        writes = 2;
      } in
      let counts = removes-writes a (slots (t.datalog_index.get s a) t.window_size) begun in
      rw (signed, laws.index_map.take_lem, laws.old_index.get-remove)
        (rw (fold_iter-slots fuel (remove_counted a) begun v enough, ◌>>=◌)
          (ap₂ (λ r w. some (r, w)) counts.0 counts.1))

  -- A signed `erase` of a valid index returns within `window_size` rounds, and makes the one declared
  -- read and at most the `1 + window_size` declared writes.
  pub erase-accesses :
      (laws : IsTrait t) (fuel : ℕ) (origin : Origin) (a : AccountId) (s : State)
      → t.window_size ≤ fuel
      → IsValid (t.datalog_index.get s a) t.window_size
      → t.ensure_signed origin ≡ ok a
      → (n : ℕ) × (accesses (erase counting fuel origin (fresh s)) ≡ some (1, n))
        × (n ≤ 1 + t.window_size)
  erase-accesses laws fuel origin a s enough v signed =
      let idx = t.datalog_index.get s a in
      let visited : length (slots idx t.window_size) ≡ size idx t.window_size =
        length-window t.window_size idx.start (size idx t.window_size) in
      (
        2 + length (slots idx t.window_size),
        erase-counted laws fuel origin a s enough v signed,
        omega (arith, size-lt v, visited),
      )
