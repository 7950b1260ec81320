-- ===== src/Storage/Contract.antt =====
-- The trait `StorageBackend` of commons/oprc-dp-storage/src/traits/storage_backend.rs as an
-- interface: the methods that the modelled clients call, and the contract of a backend that does
-- not fail. A contract speaks of the map that a state stands for.
pub mod InMemory
pub mod Application
use oaa_s_io_t.Prelude.{ℕ, [], ◌≡◌, Option, false, not, ◌&&◌, Bool, length}
use oaa_s_io_t.Std.Bytes.{Bytes, bytes_ord}
use oaa_s_io_t.Std.BTreeMap
use oaa_s_io_t.Std.BTreeMap.{BTreeMap, Bound}
use oaa_s_io_t.Std.BTreeMap.Sorted.{IsSorted}
use oaa_s_io_t.Storage.Outcome.{Outcome, ok}

abbrev pub Entries : Type 0
Entries = BTreeMap Bytes Bytes

pub record StorageBackend : Type 1 where
  pub State : Type 0
  pub get : State → Bytes → Outcome (Option Bytes)
  pub put : State → Bytes → Bytes → State × Outcome Bool
  pub delete : State → Bytes → State × Outcome (Unit {0})
  pub delete_range : State → Bound Bytes → Bound Bytes → State × Outcome ℕ
  pub scan : State → Bytes → Outcome Entries
  pub scan_range : State → Bound Bytes → Bound Bytes → Outcome Entries
  pub get_last : State → Outcome (Option (Bytes × Bytes))
  pub flush : State → Outcome (Unit {0})

pub record IsReliable (b : StorageBackend) : Type 1 where
  pub entries : b.State → Entries
  pub Valid : b.State → Type 0
  pub sorted : (s : b.State) → Valid s → IsSorted (entries s)
  pub get_lem : (s : b.State) (k : Bytes) → Valid s → b.get s k ≡ ok (BTreeMap.get (entries s) k)
  pub put-Valid : (s : b.State) (k v : Bytes) → Valid s → Valid (b.put s k v).0
  pub put_entries :
      (s : b.State) (k v : Bytes)
      → Valid s
      → entries (b.put s k v).0 ≡ BTreeMap.insert (entries s) k v
  pub put_ok :
      (s : b.State) (k v : Bytes)
      → Valid s
      → (b.put s k v).1 ≡ ok (BTreeMap.contains_key (entries s) k)
  pub delete-Valid : (s : b.State) (k : Bytes) → Valid s → Valid (b.delete s k).0
  pub delete_entries :
      (s : b.State) (k : Bytes) → Valid s → entries (b.delete s k).0 ≡ BTreeMap.remove (entries s) k
  pub delete_ok : (s : b.State) (k : Bytes) → Valid s → (b.delete s k).1 ≡ ok tt
  pub delete_range-Valid :
      (s : b.State) (lo hi : Bound Bytes) → Valid s → Valid (b.delete_range s lo hi).0
  pub delete_range_entries :
      (s : b.State) (lo hi : Bound Bytes)
      → Valid s
      → BTreeMap.range_panics lo hi ≡ false
      → entries (b.delete_range s lo hi).0
        ≡ BTreeMap.retain_keys (λ k. not (BTreeMap.above lo k && BTreeMap.below hi k)) (entries s)
  pub delete_range_ok :
      (s : b.State) (lo hi : Bound Bytes)
      → Valid s
      → BTreeMap.range_panics lo hi ≡ false
      → (b.delete_range s lo hi).1 ≡ ok (length (BTreeMap.range lo hi (entries s)))
  pub scan_lem : (s : b.State) → Valid s → b.scan s [] ≡ ok (entries s)
  pub scan_range_lem :
      (s : b.State) (lo hi : Bound Bytes)
      → Valid s
      → BTreeMap.range_panics lo hi ≡ false
      → b.scan_range s lo hi ≡ ok (BTreeMap.range lo hi (entries s))
  pub get_last_lem :
      (s : b.State) → Valid s → b.get_last s ≡ ok (BTreeMap.last_key_value (entries s))
  pub flush_ok : (s : b.State) → Valid s → b.flush s ≡ ok tt
