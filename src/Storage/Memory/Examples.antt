-- ===== src/Storage/Memory/Examples.antt =====
-- The theorems on the application methods of the in-memory backend at concrete storages.
use oaa_s_io_t.Prelude.{
  ◌≢◌, ◌⊎◌, true, false, ◌≡◌, refl, [], ◌∷◌, Bool, false, none, some, if◌then◌else◌, take, drop,
}
use oaa_s_io_t.Std.Bytes.{Bytes, bytes_ord}
use oaa_s_io_t.Std.Order.{key_eq}
use oaa_s_io_t.Std.BTreeMap
use oaa_s_io_t.Std.BTreeMap.{included, excluded, range}
use oaa_s_io_t.Std.BTreeMap.Count.{total}
use oaa_s_io_t.Std.BTreeMap.Sorted.{IsSorted}
use oaa_s_io_t.Storage.Outcome.{ok}
use oaa_s_io_t.Storage.Memory.{MemoryStorage}
use oaa_s_io_t.Storage.Memory.Statistics.{IsCounted, IsSized}
use oaa_s_io_t.Storage.Memory.Transaction.{MemoryTransaction, put_op, commit}
use oaa_s_io_t.Storage.Memory.Application.{scan_range_paginated, compare_and_swap}
use oaa_s_io_t.Storage.Memory.Application.Pages.{Resumes, first_key, pages_resume}
use oaa_s_io_t.Storage.Memory.Application.Swap.{compare_and_swap_lem}
use oaa_s_io_t.Storage.Memory.Merge.{
  scan_range_stale, swap-commit, two_operations, multi_get_lem, lookups,
}
use oaa_s_io_t.Storage.Memory.Merge

abbrev two : MemoryStorage
two = record {
  entries = (1 ∷ 2 ∷ [], 9 ∷ []) ∷ (1 ∷ 5 ∷ [], 8 ∷ []) ∷ [];
  stats = record { entries_count = 2; total_size_bytes = 6 };
}

two-IsSorted : IsSorted two.entries
unfolding bytes_ord
two-IsSorted = ((refl, tt), (tt, tt))

pages_resume_example :
    (scan_range_paginated two (1 ∷ []) (2 ∷ []) (some 1)
      ≡ ok (
        take 1 (range (included (1 ∷ [])) (excluded (2 ∷ [])) two.entries),
        first_key (drop 1 (range (included (1 ∷ [])) (excluded (2 ∷ [])) two.entries)),
      ))
    × Resumes two
        (1 ∷ [])
        (2 ∷ [])
        1
        (first_key (drop 1 (range (included (1 ∷ [])) (excluded (2 ∷ [])) two.entries)))
pages_resume_example =
    pages_resume two (1 ∷ []) (2 ∷ []) 1 two-IsSorted
      (unfold BTreeMap.range_panics bytes_ord in refl)

compare_and_swap_lem_example :
    ((BTreeMap.get two.entries (1 ∷ 2 ∷ []) ≡ some (9 ∷ []))
        × ((compare_and_swap two (1 ∷ 2 ∷ []) (some (9 ∷ [])) none).1 ≡ ok true)
        × ((j : Bytes)
            → BTreeMap.get (compare_and_swap two (1 ∷ 2 ∷ []) (some (9 ∷ [])) none).0.entries j
              ≡ (if key_eq (1 ∷ 2 ∷ []) j then none else BTreeMap.get two.entries j))
      ⊎ (BTreeMap.get two.entries (1 ∷ 2 ∷ []) ≢ some (9 ∷ []))
        × (compare_and_swap two (1 ∷ 2 ∷ []) (some (9 ∷ [])) none ≡ (two, ok false)))
    × IsCounted (compare_and_swap two (1 ∷ 2 ∷ []) (some (9 ∷ [])) none).0
    × IsSized (compare_and_swap two (1 ∷ 2 ∷ []) (some (9 ∷ [])) none).0
compare_and_swap_lem_example =
    compare_and_swap_lem two (1 ∷ 2 ∷ []) (some (9 ∷ [])) none
      (record { sorted = two-IsSorted; counted = refl })
      (unfold total in record { sorted = two-IsSorted; sized = refl })

abbrev one_put : MemoryTransaction
one_put = record { operations = put_op (4 ∷ []) (1 ∷ []) ∷ []; committed = false }

swap-commit_example :
    (t' : MemoryTransaction) × (b : Bool) × (Merge.compare_and_swap two one_put
        (4 ∷ [])
        (some (1 ∷ []))
        none
      ≡ ok (t', b))
    × ((compare_and_swap (commit two one_put).0 (4 ∷ []) (some (1 ∷ [])) none).1 ≡ ok b)
    × ((commit two t').0.entries
        ≡ (compare_and_swap (commit two one_put).0 (4 ∷ []) (some (1 ∷ [])) none).0.entries)
swap-commit_example = swap-commit two one_put (4 ∷ []) (some (1 ∷ [])) none refl
