-- ===== src/Storage/Memory/Statistics.antt =====
-- The cached statistics of the in-memory backend against its entries.
use oaa_s_io_t.Prelude.{
  ◌+◌, ◌%◌, ◌≡◌, refl, ap, List, [], ◌∷◌, Bool, false, ◌&&◌, none, some, arith, length, Bool-cases,
  inl, inr, All,
}
use oaa_s_io_t.Std.Bytes.{Bytes, bytes_ord}
use oaa_s_io_t.Std.BTreeMap
use oaa_s_io_t.Std.BTreeMap.{BTreeMap, Bound, insert, remove, range, retain_keys}
use oaa_s_io_t.Std.BTreeMap.Sorted.{
  IsSorted, insert-IsSorted, remove-IsSorted, retain_keys-IsSorted, extend_self,
}
use oaa_s_io_t.Std.BTreeMap.Count.{
  total, total-insert, total-remove, total-retain_keys, length-insert, length-remove,
  length-retain_keys, total-no_entries,
}
use oaa_s_io_t.Storage.Stats.{u64_mod}
use oaa_s_io_t.Storage.Memory
use oaa_s_io_t.Storage.Memory.{MemoryStorage, Entries, new, entry_size}
use oaa_s_io_t.Storage.Memory.Range.{entries-delete_range, delete_range-panics}

-- The entry counter is the number of entries, as a `u64`.
pub record IsCounted (s : MemoryStorage) : Type 0 where
  pub sorted : IsSorted s.entries
  pub counted : s.stats.entries_count ≡ length s.entries % u64_mod

-- The size counter is the size of all keys and values, as a `u64`.
pub record IsSized (s : MemoryStorage) : Type 0 where
  pub sorted : IsSorted s.entries
  pub sized : s.stats.total_size_bytes ≡ total entry_size s.entries % u64_mod

module _ (s : MemoryStorage) (k v : Bytes) where
  pub put-IsCounted : IsCounted s → IsCounted (Memory.put s k v).0
  unfolding Memory.put
  put-IsCounted h = record {
    sorted = insert-IsSorted s.entries k v h.sorted;
    counted = ground (arith, length-insert s.entries k v h.sorted, h.counted);
  }

  pub put_with_return-IsCounted : IsCounted s → IsCounted (Memory.put_with_return s k v).0
  unfolding Memory.put_with_return
  put_with_return-IsCounted h = record {
    sorted = insert-IsSorted s.entries k v h.sorted;
    counted = ground (arith, length-insert s.entries k v h.sorted, h.counted);
  }

  pub put_with_return-IsSized : IsSized s → IsSized (Memory.put_with_return s k v).0
  unfolding Memory.put_with_return
  put_with_return-IsSized h = record {
    sorted = insert-IsSorted s.entries k v h.sorted;
    sized = ground (arith, total-insert entry_size s.entries k v h.sorted, h.sized);
  }

  -- `put` adds the size of the new entry and does not take off the size of the one that it replaces.
  pub put_overcounts :
      {old : Bytes}
      → IsSized s
      → BTreeMap.get s.entries k ≡ some old
      → (Memory.put s k v).0.stats.total_size_bytes
        ≡ (total entry_size (Memory.put s k v).0.entries + entry_size k old) % u64_mod
  unfolding Memory.put
  put_overcounts h e = ground (arith, total-insert entry_size s.entries k v h.sorted, h.sized)

  put_fresh-IsSized : IsSized s → BTreeMap.get s.entries k ≡ none → IsSized (Memory.put s k v).0
  unfolding Memory.put
  put_fresh-IsSized h e = record {
    sorted = insert-IsSorted s.entries k v h.sorted;
    sized = ground (arith, total-insert entry_size s.entries k v h.sorted, h.sized);
  }

module _ (s : MemoryStorage) (k : Bytes) where
  pub delete-IsCounted : IsCounted s → IsCounted (Memory.delete s k).0
  unfolding Memory.delete
  delete-IsCounted h =
      ground
        (arith, length-remove s.entries k h.sorted, h.counted, remove-IsSorted s.entries k h.sorted)

  pub delete-IsSized : IsSized s → IsSized (Memory.delete s k).0
  unfolding Memory.delete
  delete-IsSized h = ground (
    arith,
    total-remove entry_size s.entries k h.sorted,
    h.sized,
    remove-IsSorted s.entries k h.sorted,
  )

module _ (s : MemoryStorage) (lo hi : Bound Bytes) where
  abbrev within : Bytes → Bool
  within k = BTreeMap.above lo k && BTreeMap.below hi k

  delete_range-IsSorted :
      BTreeMap.range_panics lo hi ≡ false
      → IsSorted s.entries
      → IsSorted (Memory.delete_range s lo hi).0.entries
  delete_range-IsSorted e h =
      rw (entries-delete_range s lo hi e) (retain_keys-IsSorted _ s.entries h)

  delete_range_runs-IsCounted :
      BTreeMap.range_panics lo hi ≡ false → IsCounted s → IsCounted (Memory.delete_range s lo hi).0
  delete_range_runs-IsCounted e h = record {
    sorted = delete_range-IsSorted e h.sorted;
    counted = rw (entries-delete_range s lo hi e) (
        unfold Memory.delete_range range in
        ground (arith, e, h.counted, length-retain_keys within s.entries));
  }

  delete_range_runs-IsSized :
      BTreeMap.range_panics lo hi ≡ false → IsSized s → IsSized (Memory.delete_range s lo hi).0
  delete_range_runs-IsSized e h = record {
    sorted = delete_range-IsSorted e h.sorted;
    sized = rw (entries-delete_range s lo hi e) (
        unfold Memory.delete_range range in
        ground (
          arith,
          e,
          h.sized,
          total-retain_keys entry_size within s.entries,
          total-no_entries entry_size (retain_keys within s.entries),
        ));
  }

  pub delete_range-IsCounted : IsCounted s → IsCounted (Memory.delete_range s lo hi).0
  delete_range-IsCounted h = elim (Bool-cases (BTreeMap.range_panics lo hi)) [
    | inl e ↦ rw (delete_range-panics s lo hi e) h
    | inr e ↦ delete_range_runs-IsCounted e h
  ]

  pub delete_range-IsSized : IsSized s → IsSized (Memory.delete_range s lo hi).0
  delete_range-IsSized h = elim (Bool-cases (BTreeMap.range_panics lo hi)) [
    | inl e ↦ rw (delete_range-panics s lo hi e) h
    | inr e ↦ delete_range_runs-IsSized e h
  ]

-- A call of the backend that changes its entries and keeps the statistics.
pub data Call : Type 0 where
  put put_with_return : Bytes → Bytes → Call
  delete : Bytes → Call
  delete_range : Bound Bytes → Bound Bytes → Call
  compact : Call

abbrev pub step : MemoryStorage → Call → MemoryStorage
step s (put k v) = (Memory.put s k v).0
step s (put_with_return k v) = (Memory.put_with_return s k v).0
step s (delete k) = (Memory.delete s k).0
step s (delete_range lo hi) = (Memory.delete_range s lo hi).0
step s compact = (Memory.compact s).0

abbrev pub run : MemoryStorage → List Call → MemoryStorage
run s [] = s
run s (c ∷ calls) = run (step s c) calls

compact_lem : (s : MemoryStorage) → IsSorted s.entries → (Memory.compact s).0 ≡ s
unfolding Memory.compact
compact_lem s h = ap (λ (m : Entries). record s { entries = m }) (extend_self s.entries h)

step-IsCounted : (s : MemoryStorage) (c : Call) → IsCounted s → IsCounted (step s c)
step-IsCounted s (put k v) h = put-IsCounted s k v h
step-IsCounted s (put_with_return k v) h = put_with_return-IsCounted s k v h
step-IsCounted s (delete k) h = delete-IsCounted s k h
step-IsCounted s (delete_range lo hi) h = delete_range-IsCounted s lo hi h
step-IsCounted s compact h = rw (compact_lem s h.sorted) h

-- A `put` may replace an entry, and then it overcounts.
abbrev pub IsNoPut : Call → Type 0
IsNoPut (put k v) = ⊥
IsNoPut _ = Unit

step-IsSized : (s : MemoryStorage) (c : Call) → IsNoPut c → IsSized s → IsSized (step s c)
step-IsSized s (put_with_return k v) n h = put_with_return-IsSized s k v h
step-IsSized s (delete k) n h = delete-IsSized s k h
step-IsSized s (delete_range lo hi) n h = delete_range-IsSized s lo hi h
step-IsSized s compact n h = rw (compact_lem s h.sorted) h
step-IsSized s (put k v) n h = absurd n

run-IsCounted : (s : MemoryStorage) (calls : List Call) → IsCounted s → IsCounted (run s calls)
run-IsCounted s [] h = h
run-IsCounted s (c ∷ calls) h = run-IsCounted (step s c) calls (step-IsCounted s c h)

run-IsSized :
    (s : MemoryStorage) (calls : List Call) → All IsNoPut calls → IsSized s → IsSized (run s calls)
run-IsSized s [] n h = h
run-IsSized s (c ∷ calls) n h = run-IsSized (step s c) calls n.1 (step-IsSized s c n.0 h)

-- From a new storage, after any sequence of put, put_with_return, delete, delete_range and compact,
-- the entries are in strict key order and the entry counter is their number, modulo 2^64.
pub statistics_count : (calls : List Call) → IsCounted (run new calls)
statistics_count calls =
    run-IsCounted new calls (unfold new in record { sorted = tt; counted = refl })

-- From a new storage, after any such calls that write by `put_with_return` alone, the size counter
-- is the total size of the keys and values, modulo 2^64.
pub statistics_size : (calls : List Call) → All IsNoPut calls → IsSized (run new calls)
statistics_size calls n =
    run-IsSized new calls n (unfold new total in record { sorted = tt; sized = refl })
