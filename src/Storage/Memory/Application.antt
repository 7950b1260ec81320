-- ===== src/Storage/Memory/Application.antt =====
-- `ApplicationDataStorage` for the in-memory backend: the second half of
-- commons/oprc-dp-storage/src/backends/memory.rs. An `i64` is the 64 bits of its two's complement.
pub mod Swap
pub mod Pages
pub mod Counter
use oaa_s_io_t.Prelude.{
  ℕ, ◌+◌, ◌%◌, List, [], ◌∷◌, Bool, true, false, ◌==◌, leb, Option, none, some, if◌then◌else◌,
  length,
}
use oaa_s_io_t.Std.Bytes.{Bytes, bytes_ord}
use oaa_s_io_t.Std.Bytes.Words.{to_le_bytes, from_le_bytes}
use oaa_s_io_t.Std.Order.{key_eq}
use oaa_s_io_t.Std.BTreeMap
use oaa_s_io_t.Std.BTreeMap.{included, excluded}
use oaa_s_io_t.Storage.Outcome.{Outcome, ok, err, panicked, serialization, ◌>>=◌}
use oaa_s_io_t.Storage.Stats
use oaa_s_io_t.Storage.Stats.{u64_mod}
use oaa_s_io_t.Storage.Memory
use oaa_s_io_t.Storage.Memory.{MemoryStorage, Entries, option_len}

abbrev pub reached : ℕ → Option ℕ → Bool
reached idx none = false
reached idx (some max) = leb max idx

-- The loop over the enumerated range: the results, and the key to go on from.
unfoldable pub page_loop : ℕ → Option ℕ → Entries → Entries × Option Bytes
page_loop idx limit [] = ([], none)
page_loop idx limit ((key, value) ∷ items) =
    let rest = page_loop (idx + 1) limit items in
    if reached idx limit then ([], some key) else ((key, value) ∷ rest.0, rest.1)

unfoldable pub scan_range_paginated :
    MemoryStorage → Bytes → Bytes → Option ℕ → Outcome (Entries × Option Bytes)
unfolding page_loop
scan_range_paginated s start end limit =
    if BTreeMap.range_panics (included start) (excluded end)
    then panicked
    else ok (page_loop 0 limit (BTreeMap.range (included start) (excluded end) s.entries))

unfoldable pub multi_get : MemoryStorage → List Bytes → Outcome (List (Option Bytes))
unfolding Memory.get
multi_get s [] = ok []
multi_get s (key ∷ keys) = do
  found ← Memory.get s key
  others ← multi_get s keys
  ok (found ∷ others)

abbrev pub current_matches : Option Bytes → Option Bytes → Bool
current_matches none none = true
current_matches (some current) (some expected) = key_eq current expected
current_matches _ _ = false

-- The removal of a key that was there is counted.
abbrev pub count_removed : Bytes → Option Bytes → Stats.AtomicStats → Stats.AtomicStats
count_removed key none stats = stats
count_removed key (some old) stats = Stats.record_delete (length key) (length old) stats

unfoldable pub compare_and_swap :
    MemoryStorage → Bytes → Option Bytes → Option Bytes → MemoryStorage × Outcome Bool
unfolding Stats.record_put_with_old_size
compare_and_swap s key expected new_value =
    let current = BTreeMap.get s.entries key in
    if current_matches current expected
    then elim new_value [
      | some value ↦ (
        record {
          entries = BTreeMap.insert s.entries key value;
          stats =
              Stats.record_put_with_old_size (length key) (length value) (option_len current)
                s.stats;
        },
        ok true,
      )
      | none ↦ (
        record {
          entries = BTreeMap.remove s.entries key;
          stats = count_removed key current s.stats;
        },
        ok true,
      )
    ]
    else (s, ok false)

-- A missing key counts as 0; the sum wraps around.
unfoldable pub current_value : Option Bytes → Outcome ℕ
unfolding from_le_bytes
current_value none = ok 0
current_value (some bytes) =
    if length bytes == 8
    then ok (from_le_bytes bytes)
    else err (serialization "Value is not an i64")

abbrev pub store_sum : MemoryStorage → Bytes → ℕ → Outcome ℕ → MemoryStorage × Outcome ℕ
store_sum s key delta (ok value) =
    let new_value = (value + delta) % u64_mod in
    (
      record {
        entries = BTreeMap.insert s.entries key (to_le_bytes 8 new_value);
        stats = Stats.record_put (length key) 8 (BTreeMap.contains_key s.entries key) s.stats;
      },
      ok new_value,
    )
store_sum s key delta failed = (s, failed)

unfoldable pub increment : MemoryStorage → Bytes → ℕ → MemoryStorage × Outcome ℕ
unfolding current_value
increment s key delta = store_sum s key delta (current_value (BTreeMap.get s.entries key))

-- The time to live is not used.
unfoldable pub put_with_ttl : MemoryStorage → Bytes → Bytes → ℕ → MemoryStorage × Outcome Bool
unfolding Memory.put
put_with_ttl s key value ttl = Memory.put s key value
