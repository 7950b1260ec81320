-- ===== src/Storage/Memory/Snapshot.antt =====
-- Snapshots of the in-memory backend: commons/oprc-dp-storage/src/backends/memory.rs and
-- src/snapshot.rs. A stream is the list of the items that it yields.
use oaa_s_io_t.Prelude.{
  ℕ, ◌+◌, ◌%◌, ◌<◌, ◌≡◌, refl, List, [], ◌∷◌, ◌++◌, Option, some, arith, length, map,
}
use native.Mathlib.Nat.{zero-add}
use oaa_s_io_t.Std.Bytes.{Bytes, bytes_ord}
use oaa_s_io_t.Std.BTreeMap
use oaa_s_io_t.Std.BTreeMap.Sorted.{IsSorted, extend_self}
use oaa_s_io_t.Std.BTreeMap.Count.{total}
use oaa_s_io_t.Storage.Outcome.{Outcome, ok, err, panicked, StorageError}
use oaa_s_io_t.Storage.Stats
use oaa_s_io_t.Storage.Stats.{AtomicStats, u64_mod}
use oaa_s_io_t.Storage.Memory.{MemoryStorage, Entries, entry_size}
use oaa_s_io_t.Storage.Memory.Statistics.{IsCounted, IsSized}

pub data CompressionType : Type 0 where
  none_type gzip lz4 zstd : CompressionType

-- The time of creation, in nanoseconds, stands for the identifier that is made from it.
pub record Snapshot : Type 0 where
  pub created_at : ℕ
  pub sequence_number : ℕ
  pub snapshot_data : Entries
  pub entry_count : ℕ
  pub total_size_bytes : ℕ
  pub compression : CompressionType

unfoldable pub create_snapshot : ℕ → MemoryStorage → Outcome Snapshot
unfolding total
create_snapshot now s = ok (record {
  created_at = now;
  sequence_number = length s.entries % u64_mod;
  snapshot_data = s.entries;
  entry_count = length s.entries % u64_mod;
  total_size_bytes = total entry_size s.entries % u64_mod;
  compression = none_type;
})

unfoldable pub restore_from_snapshot : MemoryStorage → Snapshot → MemoryStorage × Outcome (Unit {0})
unfolding Stats.set_counts
restore_from_snapshot s snapshot = (
  record {
    entries = BTreeMap.extend [] snapshot.snapshot_data;
    stats = Stats.set_counts snapshot.entry_count snapshot.total_size_bytes s.stats;
  },
  ok tt,
)

unfoldable pub latest_snapshot : ℕ → MemoryStorage → Outcome (Option Snapshot)
unfolding create_snapshot
latest_snapshot now s = elim (create_snapshot now s) [
  | ok snapshot ↦ ok (some snapshot)
  | err e ↦ err e
  | panicked ↦ panicked
]

unfoldable pub estimate_snapshot_size : Entries → Outcome ℕ
unfolding total
estimate_snapshot_size entries = ok (total entry_size entries % u64_mod)

abbrev pub Item : Type 0
Item = Outcome (Bytes × Bytes)

unfoldable pub create_kv_snapshot_stream : Snapshot → List Item
create_kv_snapshot_stream snapshot = map (λ e. ok e) snapshot.snapshot_data

-- The loop's variables: the map and the two totals.
pub record Progress : Type 0 where
  pub entries : Entries
  pub total_entries : ℕ
  pub total_size : ℕ

abbrev pub add_item : Progress → Bytes → Bytes → Progress
add_item p key value = record {
  entries = BTreeMap.insert p.entries key value;
  total_entries = (p.total_entries + 1) % u64_mod;
  total_size = (p.total_size + entry_size key value) % u64_mod;
}

unfoldable pub install_loop : Progress → List Item → Progress × Outcome (Unit {0})
install_loop p [] = (p, ok tt)
install_loop p (ok (key, value) ∷ stream) = install_loop (add_item p key value) stream
install_loop p (err e ∷ stream) = (p, err e)
install_loop p (panicked ∷ stream) = (p, panicked)

-- The totals are stored only if the stream ends without an error.
abbrev finish : AtomicStats → Progress × Outcome (Unit {0}) → MemoryStorage × Outcome (Unit {0})
finish stats (p, ok u) = (
  record { entries = p.entries; stats = Stats.set_counts p.total_entries p.total_size stats },
  ok u,
)
finish stats (p, err e) = (record { entries = p.entries; stats = stats }, err e)
finish stats (p, panicked) = (record { entries = p.entries; stats = stats }, panicked)

unfoldable pub install_kv_snapshot_from_stream :
    MemoryStorage → List Item → MemoryStorage × Outcome (Unit {0})
unfolding install_loop Stats.reset Stats.set_counts
install_kv_snapshot_from_stream s stream =
    finish (Stats.reset s.stats)
      (install_loop (record { entries = []; total_entries = 0; total_size = 0 }) stream)

-- Entries and statistics that are exactly those of a map.
pub record Holds (m : Entries) (s : MemoryStorage) : Type 0 where
  pub entries : s.entries ≡ m
  pub counted : IsCounted s
  pub sized : IsSized s

-- What either way of installing a map leaves behind.
Holds-extend :
    (m : Entries)
    → IsSorted m
    → Holds m (record {
      entries = BTreeMap.extend [] m;
      stats = record {
        entries_count = length m % u64_mod;
        total_size_bytes = total entry_size m % u64_mod;
      };
    })
Holds-extend m h = rw (extend_self m h) (record {
  entries = refl;
  counted = record { sorted = h; counted = refl };
  sized = record { sorted = h; sized = refl };
})

-- Taking a snapshot succeeds; restoring it into any storage gives the entries of its source, and
-- statistics that are exact for them.
pub restore-create :
    (now : ℕ) (s target : MemoryStorage)
    → IsSorted s.entries
    → (snapshot : Snapshot) × (create_snapshot now s ≡ ok snapshot)
      × Holds s.entries (restore_from_snapshot target snapshot).0
      × ((restore_from_snapshot target snapshot).1 ≡ ok tt)
unfolding create_snapshot restore_from_snapshot
restore-create now s target h = (_, refl, Holds-extend s.entries h, refl)

-- The items of a stream without an error are inserted in order, and counted.
install_loop-ok :
    (p : Progress) (items : Entries)
    → p.total_entries < u64_mod
    → p.total_size < u64_mod
    → install_loop p (map (λ e. ok e) items) ≡ (
      record {
        entries = BTreeMap.extend p.entries items;
        total_entries = (p.total_entries + length items) % u64_mod;
        total_size = (p.total_size + total entry_size items) % u64_mod;
      },
      ok tt,
    )
unfolding install_loop total BTreeMap.extend
install_loop-ok p [] n z = ground arith
install_loop-ok p ((k, v) ∷ items) n z =
    ground (arith, install_loop-ok (add_item p k v) items (omega arith) (omega arith))

-- Streaming a snapshot into any storage gives the entries of its source, and statistics that are
-- exact for them.
pub install-stream :
    (now : ℕ) (s target : MemoryStorage)
    → IsSorted s.entries
    → (snapshot : Snapshot) × (create_snapshot now s ≡ ok snapshot)
      × Holds s.entries
          (install_kv_snapshot_from_stream target (create_kv_snapshot_stream snapshot)).0
      × ((install_kv_snapshot_from_stream target (create_kv_snapshot_stream snapshot)).1 ≡ ok tt)
unfolding create_snapshot create_kv_snapshot_stream install_kv_snapshot_from_stream
install-stream now s target h =
    let done =
      install_loop-ok (record { entries = []; total_entries = 0; total_size = 0 }) s.entries
        (omega arith) (omega arith) in
    (_, refl, rw done (simp zero-add (Holds-extend s.entries h)), rw done refl)

install_loop-err :
    (p : Progress) (items : Entries) (e : StorageError) (rest : List Item)
    → ((install_loop p (map (λ x. ok x) items ++ err e ∷ rest)).0.entries
        ≡ BTreeMap.extend p.entries items)
      × ((install_loop p (map (λ x. ok x) items ++ err e ∷ rest)).1 ≡ err e)
unfolding install_loop BTreeMap.extend
install_loop-err p [] e rest = (refl, refl)
install_loop-err p ((k, v) ∷ items) e rest = install_loop-err (add_item p k v) items e rest

finish-err :
    (stats : AtomicStats) (done : Progress × Outcome (Unit {0})) (e : StorageError)
    → done.1 ≡ err e
    → finish stats done ≡ (record { entries = done.0.entries; stats = stats }, err e)
finish-err stats (p, ok u) e h = ground arith
finish-err stats (p, err f) e h = ground arith
finish-err stats (p, panicked) e h = ground arith

-- A stream that fails leaves the items before the failure in the storage, in place of what was
-- there, and both counters at 0; the error is passed on.
pub install_fails :
    (s : MemoryStorage) (items : Entries) (e : StorageError) (rest : List Item)
    → install_kv_snapshot_from_stream s (map (λ x. ok x) items ++ err e ∷ rest) ≡ (
      record {
        entries = BTreeMap.extend [] items;
        stats = record { entries_count = 0; total_size_bytes = 0 };
      },
      err e,
    )
unfolding install_kv_snapshot_from_stream
install_fails s items e rest =
    let p : Progress = record { entries = []; total_entries = 0; total_size = 0 } in
    ground (
      arith,
      install_loop-err p items e rest,
      finish-err (Stats.reset s.stats) (install_loop p (map (λ x. ok x) items ++ err e ∷ rest)) e,
    )
