-- ===== src/Storage/Memory.antt =====
-- `MemoryStorage` of commons/oprc-dp-storage/src/backends/memory.rs. Keys and values are the bytes
-- of their `StorageValue`s. Each method is one step; the configuration is stored and never read.
pub mod Range
pub mod Statistics
pub mod Snapshot
pub mod Transaction
pub mod Application
pub mod Merge
mod Examples
use oaa_s_io_t.Prelude.{
  ℕ, ◌+◌, ◌≡◌, refl, List, [], ◌∷◌, ◌++◌, Bool, true, false, ◌==◌, ltb, Option, none, some,
  if◌then◌else◌, length, map,
}
use mathlib.Core.List.{reverse}
use oaa_s_io_t.Std.Bytes.{Bytes, bytes_ord}
use oaa_s_io_t.Std.BTreeMap
use oaa_s_io_t.Std.BTreeMap.{BTreeMap, Bound, included, excluded, unbounded}
use oaa_s_io_t.Std.BTreeMap.Count.{total}
use oaa_s_io_t.Std.BTreeMap.Retain.{remove_all}
use oaa_s_io_t.Storage.Outcome.{Outcome, ok, err, panicked}
use oaa_s_io_t.Storage.Stats
use oaa_s_io_t.Storage.Stats.{AtomicStats}

pub record MemoryStorage : Type 0 where
  pub entries : BTreeMap Bytes Bytes
  pub stats : AtomicStats

abbrev pub Entries : Type 0
Entries = BTreeMap Bytes Bytes

-- `key.len() + value.len()`
abbrev pub entry_size : Bytes → Bytes → ℕ
entry_size k v = length k + length v

abbrev pub is_some {ℓ} : {A : Type ℓ} → Option A → Bool
is_some none = false
is_some (some _) = true

unfoldable pub new : MemoryStorage
unfolding Stats.new
new = record { entries = []; stats = Stats.new }

unfoldable pub get : MemoryStorage → Bytes → Outcome (Option Bytes)
get s key = ok (BTreeMap.get s.entries key)

unfoldable pub put : MemoryStorage → Bytes → Bytes → MemoryStorage × Outcome Bool
unfolding Stats.record_put
put s key value =
    let existing = BTreeMap.get s.entries key in
    (
      record {
        entries = BTreeMap.insert s.entries key value;
        stats = Stats.record_put (length key) (length value) (is_some existing) s.stats;
      },
      ok (is_some existing),
    )

abbrev pub option_len : Option Bytes → Option ℕ
option_len none = none
option_len (some v) = some (length v)

unfoldable pub put_with_return :
    MemoryStorage → Bytes → Bytes → MemoryStorage × Outcome (Option Bytes)
unfolding Stats.record_put_with_old_size
put_with_return s key value =
    let previous = BTreeMap.get s.entries key in
    (
      record {
        entries = BTreeMap.insert s.entries key value;
        stats =
            Stats.record_put_with_old_size (length key) (length value) (option_len previous)
              s.stats;
      },
      ok previous,
    )

unfoldable pub delete : MemoryStorage → Bytes → MemoryStorage × Outcome (Unit {0})
unfolding Stats.record_delete
delete s key = elim (BTreeMap.get s.entries key) [
  | none ↦ (s, ok tt)
  | some removed ↦ (
    record {
      entries = BTreeMap.remove s.entries key;
      stats = Stats.record_delete (length key) (length removed) s.stats;
    },
    ok tt,
  )
]

unfoldable pub delete_range : MemoryStorage → Bound Bytes → Bound Bytes → MemoryStorage × Outcome ℕ
unfolding remove_all Stats.record_delete_batch total
delete_range s lo hi =
    if BTreeMap.range_panics lo hi
    then (s, panicked)
    else let items = BTreeMap.range lo hi s.entries in
      let deleted = length items in
      (
        record {
          entries = remove_all s.entries items;
          stats =
              if ltb 0 deleted
              then Stats.record_delete_batch deleted (total entry_size items) s.stats
              else s.stats;
        },
        ok deleted,
      )

unfoldable pub exists : MemoryStorage → Bytes → Outcome Bool
exists s key = ok (BTreeMap.contains_key s.entries key)

-- `*end_prefix.last_mut().unwrap() += 1`
unfoldable pub increment_last : Bytes → Bytes
increment_last [] = []
increment_last (b ∷ []) = (b + 1) ∷ []
increment_last (b ∷ c ∷ p) = b ∷ increment_last (c ∷ p)

unfoldable pub last_byte : Bytes → Option ℕ
last_byte [] = none
last_byte (b ∷ []) = some b
last_byte (b ∷ c ∷ p) = last_byte (c ∷ p)

unfoldable pub scan_end : Bytes → Bound Bytes
unfolding increment_last last_byte
scan_end prefix = elim (last_byte prefix) [
  | none ↦ unbounded
  | some b ↦ if b == 255 then excluded (prefix ++ 0 ∷ []) else excluded (increment_last prefix)
]

-- Inverted bounds panic, as the standard library documents `BTreeMap::range`. A map that was never
-- filled has no root there, and the current implementation answers with an empty range.
unfoldable pub scan_range : MemoryStorage → Bound Bytes → Bound Bytes → Outcome Entries
scan_range s lo hi =
    if BTreeMap.range_panics lo hi then panicked else ok (BTreeMap.range lo hi s.entries)

unfoldable pub scan : MemoryStorage → Bytes → Outcome Entries
unfolding scan_end scan_range
scan s prefix = scan_range s (included prefix) (scan_end prefix)

unfoldable pub scan_range_reverse : MemoryStorage → Bound Bytes → Bound Bytes → Outcome Entries
scan_range_reverse s lo hi =
    if BTreeMap.range_panics lo hi then panicked else ok (reverse (BTreeMap.range lo hi s.entries))

unfoldable pub get_last : MemoryStorage → Outcome (Option (Bytes × Bytes))
get_last s = ok (BTreeMap.last_key_value s.entries)

unfoldable pub get_first : MemoryStorage → Outcome (Option (Bytes × Bytes))
get_first s = ok (BTreeMap.first_key_value s.entries)

unfoldable pub count : MemoryStorage → Outcome ℕ
count s = ok (length s.entries)

unfoldable pub flush : MemoryStorage → Outcome (Unit {0})
flush s = ok tt

unfoldable pub close : MemoryStorage → MemoryStorage × Outcome (Unit {0})
close s = (record s { entries = [] }, ok tt)

-- `into_iter().collect()` inserts the entries, in order, into an empty map.
unfoldable pub compact : MemoryStorage → MemoryStorage × Outcome (Unit {0})
compact s = (record s { entries = BTreeMap.extend [] s.entries }, ok tt)
