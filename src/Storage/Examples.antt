-- ===== src/Storage/Examples.antt =====
-- The storage theorems at concrete storages.
use oaa_s_io_t.Prelude.{
  ◌≡◌, refl, List, [], ◌∷◌, false, none, if◌then◌else◌, ◌+◌, ◌&&◌, ℕ, length, arith,
}
use oaa_s_io_t.Std.Bytes.{Bytes, bytes_ord}
use oaa_s_io_t.Std.BTreeMap
use oaa_s_io_t.Std.BTreeMap.{included, excluded, retain_keys, above, below}
use oaa_s_io_t.Std.BTreeMap.Count.{total}
use oaa_s_io_t.Std.BTreeMap.Sorted.{IsSorted}
use oaa_s_io_t.Storage.Outcome.{ok}
use oaa_s_io_t.Storage.Memory
use oaa_s_io_t.Storage.Memory.{MemoryStorage, new, scan, delete_range}
use oaa_s_io_t.Storage.Memory.Range.{delete_range_exact, scan_exact, starts_with}
use oaa_s_io_t.Storage.Memory.Statistics
use oaa_s_io_t.Storage.Memory.Statistics.{
  IsCounted, IsSized, Call, run, statistics_count, statistics_size, put_overcounts,
}
use oaa_s_io_t.Storage.Memory.Transaction
use oaa_s_io_t.Storage.Memory.Transaction.{
  MemoryTransaction, put_op, delete_op, begin_transaction, commit, get-commit, commit_undercounts,
  already_committed, rollback,
}
use oaa_s_io_t.Storage.Memory.Snapshot
use oaa_s_io_t.Storage.Memory.Snapshot.{restore-create, install-stream, install_fails}

abbrev two : MemoryStorage
two = record {
  entries = (1 ∷ 2 ∷ [], 9 ∷ []) ∷ (1 ∷ 255 ∷ 7 ∷ [], 8 ∷ []) ∷ [];
  stats = record { entries_count = 2; total_size_bytes = 7 };
}

two-IsSorted : IsSorted two.entries
unfolding bytes_ord
two-IsSorted = ((refl, tt), (tt, tt))

two-IsCounted : IsCounted two
two-IsCounted = record { sorted = two-IsSorted; counted = refl }

two-IsSized : IsSized two
unfolding total
two-IsSized = record { sorted = two-IsSorted; sized = refl }

abbrev calls : List Call
calls =
    Statistics.put_with_return (1 ∷ []) (5 ∷ [])
    ∷ Statistics.delete (2 ∷ [])
    ∷ Statistics.compact
    ∷ []

statistics_count_example : IsCounted (run new calls)
statistics_count_example = statistics_count calls

delete_range_exact_example :
    ((k : Bytes)
      → BTreeMap.get (delete_range two (included (1 ∷ [])) (excluded (1 ∷ 3 ∷ []))).0.entries k ≡ (
          if above (included (1 ∷ [])) k && below (excluded (1 ∷ 3 ∷ [])) k
          then none
          else BTreeMap.get two.entries k))
    × ((n : ℕ) × ((delete_range two (included (1 ∷ [])) (excluded (1 ∷ 3 ∷ []))).1 ≡ ok n)
        × (n + length (delete_range two (included (1 ∷ [])) (excluded (1 ∷ 3 ∷ []))).0.entries ≡ 2))
delete_range_exact_example =
    delete_range_exact two (included (1 ∷ [])) (excluded (1 ∷ 3 ∷ []))
      (unfold BTreeMap.range_panics bytes_ord in refl)

scan_exact_example : scan two (1 ∷ []) ≡ ok (retain_keys (starts_with (1 ∷ [])) two.entries)
scan_exact_example = scan_exact two (1 ∷ []) (unfold Memory.last_byte in ground arith)

abbrev open_transaction : MemoryTransaction
open_transaction = record {
  operations = put_op (1 ∷ 2 ∷ []) (3 ∷ []) ∷ delete_op (1 ∷ 2 ∷ []) ∷ [];
  committed = false;
}

get-commit_example :
    Transaction.get two open_transaction (1 ∷ 2 ∷ [])
    ≡ ok (BTreeMap.get (commit two open_transaction).0.entries (1 ∷ 2 ∷ []))
get-commit_example = get-commit two open_transaction (1 ∷ 2 ∷ []) refl

abbrev one_write : MemoryTransaction
one_write = record { operations = put_op (4 ∷ []) (3 ∷ []) ∷ []; committed = false }

install-stream_example :
    (snapshot : Snapshot.Snapshot) × (Snapshot.create_snapshot 5 two ≡ ok snapshot)
    × Snapshot.Holds two.entries
        (Snapshot.install_kv_snapshot_from_stream new
          (Snapshot.create_kv_snapshot_stream snapshot)).0
    × ((Snapshot.install_kv_snapshot_from_stream new
          (Snapshot.create_kv_snapshot_stream snapshot)).1
        ≡ ok tt)
install-stream_example = install-stream 5 two new two-IsSorted
