-- ===== src/Storage/Contract/InMemory.antt =====
-- The in-memory backend as an implementation of the contract.
use oaa_s_io_t.Prelude.{◌≡◌, refl, ap, [], ◌∷◌, arith, inl, inr, Bool-cases}
use oaa_s_io_t.Std.Bytes.{Bytes, bytes_ord}
use oaa_s_io_t.Std.BTreeMap
use oaa_s_io_t.Std.BTreeMap.{BTreeMap, Bound, included, unbounded, retain_keys}
use oaa_s_io_t.Std.BTreeMap.Retain.{remove-absent}
use oaa_s_io_t.Std.BTreeMap.Sorted.{
  IsSorted, insert-IsSorted, remove-IsSorted, retain_keys-IsSorted,
}
use oaa_s_io_t.Storage.Outcome.{ok}
use oaa_s_io_t.Storage.Memory
use oaa_s_io_t.Storage.Memory.{MemoryStorage}
use oaa_s_io_t.Storage.Memory.Range.{entries-delete_range, delete_range-panics}
use oaa_s_io_t.Storage.Contract.{StorageBackend, IsReliable}

unfoldable pub memory_backend : StorageBackend
memory_backend = record {
  State = MemoryStorage;
  get = Memory.get;
  put = Memory.put;
  delete = Memory.delete;
  delete_range = Memory.delete_range;
  scan = Memory.scan;
  scan_range = Memory.scan_range;
  get_last = Memory.get_last;
  flush = Memory.flush;
}

abbrev pub IsValid : MemoryStorage → Type 0
IsValid s = IsSorted s.entries

pub put-result :
    (s : MemoryStorage) (k v : Bytes)
    → (Memory.put s k v).1 ≡ ok (BTreeMap.contains_key s.entries k)
unfolding Memory.put BTreeMap.contains_key
put-result s k v = ground arith

pub delete-IsValid : (s : MemoryStorage) (k : Bytes) → IsValid s → IsValid (Memory.delete s k).0
unfolding Memory.delete
delete-IsValid s k h = ground (arith, remove-IsSorted s.entries k h)

pub entries-delete :
    (s : MemoryStorage) (k : Bytes) → (Memory.delete s k).0.entries ≡ BTreeMap.remove s.entries k
unfolding Memory.delete
entries-delete s k = ground (arith, remove-absent s.entries k)

pub delete-result : (s : MemoryStorage) (k : Bytes) → (Memory.delete s k).1 ≡ ok tt
unfolding Memory.delete
delete-result s k = ground arith

pub delete_range-IsValid :
    (s : MemoryStorage) (lo hi : Bound Bytes) → IsValid s → IsValid (Memory.delete_range s lo hi).0
delete_range-IsValid s lo hi h = elim (Bool-cases (BTreeMap.range_panics lo hi)) [
  | inl e ↦ rw (delete_range-panics s lo hi e) h
  | inr e ↦ rw (entries-delete_range s lo hi e) (retain_keys-IsSorted _ s.entries h)
]

all_from_nil : (m : BTreeMap Bytes Bytes) → BTreeMap.range (included []) unbounded m ≡ m
unfolding BTreeMap.range BTreeMap.above BTreeMap.below retain_keys bytes_ord
all_from_nil [] = refl
all_from_nil (([], v) ∷ m) = ap (λ r. ([], v) ∷ r) (all_from_nil m)
all_from_nil ((c ∷ k, v) ∷ m) = ap (λ r. (c ∷ k, v) ∷ r) (all_from_nil m)

pub scan_all : (s : MemoryStorage) → Memory.scan s [] ≡ ok s.entries
unfolding Memory.scan BTreeMap.range_panics Memory.last_byte
scan_all s = ap ok (all_from_nil s.entries)

-- The in-memory backend does not fail, and each method does to its entries what the contract says.
unfoldable pub memory_reliable : IsReliable memory_backend
unfolding memory_backend Memory.get Memory.put Memory.delete_range Memory.scan_range Memory.get_last
    Memory.flush
memory_reliable = record {
  entries = λ s. s.entries;
  Valid = IsValid;
  sorted = λ s h. h;
  get_lem = λ s k h. refl;
  put-Valid = λ s k v h. insert-IsSorted s.entries k v h;
  put_entries = λ s k v h. refl;
  put_ok = λ s k v h. put-result s k v;
  delete-Valid = delete-IsValid;
  delete_entries = λ s k h. entries-delete s k;
  delete_ok = λ s k h. delete-result s k;
  delete_range-Valid = delete_range-IsValid;
  delete_range_entries = λ s lo hi h e. entries-delete_range s lo hi e;
  delete_range_ok = λ s lo hi h e. rw e refl;
  scan_lem = λ s h. scan_all s;
  scan_range_lem = λ s lo hi h e. rw e refl;
  get_last_lem = λ s h. refl;
  flush_ok = λ s h. refl;
}
