-- ===== src/Storage/Contract/Application.antt =====
-- `ApplicationDataStorage` of commons/oprc-dp-storage/src/traits/application_storage.rs as an
-- interface over a backend: the further methods that the shards call, and their contract.
use oaa_s_io_t.Prelude.{ℕ, ◌≡◌, refl, Bool, false, Option}
use oaa_s_io_t.Std.Bytes.{Bytes, bytes_ord}
use oaa_s_io_t.Std.BTreeMap
use oaa_s_io_t.Std.BTreeMap.{included, excluded}
use oaa_s_io_t.Storage.Outcome.{Outcome, ok}
use oaa_s_io_t.Storage.Memory
use oaa_s_io_t.Storage.Memory.Application
use oaa_s_io_t.Storage.Memory.Application.{page_loop}
use oaa_s_io_t.Storage.Contract.{StorageBackend, IsReliable, Entries}
use oaa_s_io_t.Storage.Contract.InMemory.{memory_backend, memory_reliable, IsValid}
use oaa_s_io_t.Std.BTreeMap.Sorted.{insert-IsSorted}

pub record ApplicationDataStorage : Type 1 where
  pub backend : StorageBackend
  pub exists : backend.State → Bytes → Outcome Bool
  pub put_with_return : backend.State → Bytes → Bytes → backend.State × Outcome (Option Bytes)
  pub scan_range_paginated :
      backend.State → Bytes → Bytes → Option ℕ → Outcome (Entries × Option Bytes)

pub record IsReliableApplication (a : ApplicationDataStorage) : Type 1 where
  pub base : IsReliable a.backend
  pub exists_lem :
      (s : a.backend.State) (k : Bytes)
      → base.Valid s
      → a.exists s k ≡ ok (BTreeMap.contains_key (base.entries s) k)
  pub put_with_return_entries :
      (s : a.backend.State) (k v : Bytes)
      → base.Valid s
      → base.entries (a.put_with_return s k v).0 ≡ BTreeMap.insert (base.entries s) k v
  pub put_with_return-Valid :
      (s : a.backend.State) (k v : Bytes) → base.Valid s → base.Valid (a.put_with_return s k v).0
  pub put_with_return_ok :
      (s : a.backend.State) (k v : Bytes)
      → base.Valid s
      → (a.put_with_return s k v).1 ≡ ok (BTreeMap.get (base.entries s) k)
  pub scan_range_paginated_lem :
      (s : a.backend.State) (start end : Bytes) (limit : Option ℕ)
      → base.Valid s
      → BTreeMap.range_panics (included start) (excluded end) ≡ false
      → a.scan_range_paginated s start end limit
        ≡ ok (page_loop 0 limit (BTreeMap.range (included start) (excluded end) (base.entries s)))

unfoldable pub memory_application : ApplicationDataStorage
unfolding memory_backend
memory_application = record {
  backend = memory_backend;
  exists = Memory.exists;
  put_with_return = Memory.put_with_return;
  scan_range_paginated = Application.scan_range_paginated;
}

pub put_with_return-IsValid :
    (s : Memory.MemoryStorage) (k v : Bytes) → IsValid s → IsValid (Memory.put_with_return s k v).0
unfolding Memory.put_with_return
put_with_return-IsValid s k v h = insert-IsSorted s.entries k v h

-- The in-memory backend meets this contract too.
unfoldable pub memory_application_reliable : IsReliableApplication memory_application
unfolding memory_application memory_reliable Memory.exists Memory.put_with_return
    Application.scan_range_paginated
memory_application_reliable = record {
  base = memory_reliable;
  exists_lem = λ s k h. refl;
  put_with_return_entries = λ s k v h. refl;
  put_with_return-Valid = put_with_return-IsValid;
  put_with_return_ok = λ s k v h. refl;
  scan_range_paginated_lem = λ s start end limit h e. rw e refl;
}
