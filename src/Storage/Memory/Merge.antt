-- ===== src/Storage/Memory/Merge.antt =====
-- `ApplicationReadTransaction` and `ApplicationWriteTransaction` for the in-memory transaction:
-- commons/oprc-dp-storage/src/backends/memory.rs. The methods that only pass on are those of
-- `StorageTransaction`.
use oaa_s_io_t.Prelude.{
  ◌≡◌, refl, ap, ◌∙◌, sym, List, [], ◌∷◌, ◌++◌, Bool, true, false, not, ◌&&◌, Option, none, some,
  if◌then◌else◌, arith, any_of,
}
use mathlib.Core.List.{reverse}
use oaa_s_io_t.Std.Bytes.{Bytes, bytes_ord}
use oaa_s_io_t.Std.Order.{key_eq, key_le, key_lt, key_eq_refl}
use oaa_s_io_t.Std.BTreeMap
use oaa_s_io_t.Std.BTreeMap.{included, excluded}
use oaa_s_io_t.Storage.Outcome.{Outcome, ok, err, panicked, ◌>>=◌}
use oaa_s_io_t.Storage.Memory.{MemoryStorage, Entries}
use oaa_s_io_t.Storage.Memory.Application
use oaa_s_io_t.Storage.Memory.Application.{current_matches}
use oaa_s_io_t.Storage.Memory.Application.Swap.{agrees, swap_result, swap_refused}
use oaa_s_io_t.Storage.Memory.Transaction
use oaa_s_io_t.Storage.Memory.Transaction.{
  TransactionOperation, put_op, delete_op, MemoryTransaction, pending, already_committed, apply,
  apply_all, commit, get-commit,
}

unfoldable pub multi_get :
    MemoryStorage → MemoryTransaction → List Bytes → Outcome (List (Option Bytes))
unfolding Transaction.get
multi_get s t [] = ok []
multi_get s t (key ∷ keys) = do
  found ← Transaction.get s t key
  others ← multi_get s t keys
  ok (found ∷ others)

-- The first loop: each stored entry of the range, as the latest operation on its key leaves it.
unfoldable pub stored_entries : List TransactionOperation → Entries → Entries
unfolding pending
stored_entries latest_first [] = []
stored_entries latest_first ((key, value) ∷ items) =
    let rest = stored_entries latest_first items in
    elim (pending latest_first key) [
      | none ↦ (key, value) ∷ rest
      | some none ↦ rest
      | some (some written) ↦ (key, written) ∷ rest
    ]

-- The second loop: pending puts on keys of the range that are not in the results yet.
unfoldable pub add_pending : Bytes → Bytes → List TransactionOperation → Entries → Entries
add_pending start end [] results = results
add_pending start end (put_op key value ∷ ops) results =
    let within = key_le start key && key_lt key end in
    let present = any_of (λ (e : Bytes × Bytes). key_eq e.0 key) results in
    add_pending start end ops
      (if within && not present then results ++ (key, value) ∷ [] else results)
add_pending start end (delete_op key ∷ ops) results = add_pending start end ops results

-- `sort_by` on the keys: a stable sort, here by insertion.
unfoldable pub insert_sorted : Bytes × Bytes → Entries → Entries
insert_sorted e [] = e ∷ []
insert_sorted e (f ∷ items) =
    let rest = insert_sorted e items in if key_le e.0 f.0 then e ∷ f ∷ items else f ∷ rest

unfoldable pub sort_by_key : Entries → Entries
unfolding insert_sorted
sort_by_key [] = []
sort_by_key (e ∷ items) = insert_sorted e (sort_by_key items)

unfoldable pub scan_range : MemoryStorage → MemoryTransaction → Bytes → Bytes → Outcome Entries
unfolding stored_entries add_pending sort_by_key
scan_range s t start end =
    if BTreeMap.range_panics (included start) (excluded end)
    then panicked
    else ok (
        sort_by_key (
          add_pending start end t.operations (
            stored_entries (reverse t.operations)
              (BTreeMap.range (included start) (excluded end) s.entries))))

abbrev pub write_of : Bytes → Option Bytes → TransactionOperation
write_of key none = delete_op key
write_of key (some value) = put_op key value

unfoldable pub compare_and_swap :
    MemoryStorage
    → MemoryTransaction
    → Bytes
    → Option Bytes
    → Option Bytes
    → Outcome (MemoryTransaction × Bool)
unfolding Transaction.get
compare_and_swap s t key expected new_value = if t.committed then err already_committed else do
  current ← Transaction.get s t key
  ok (
      if current_matches current expected
      then (record t { operations = t.operations ++ write_of key new_value ∷ [] }, true)
      else (t, false))

abbrev pub lookups : Entries → List Bytes → List (Option Bytes)
lookups m [] = []
lookups m (key ∷ keys) = BTreeMap.get m key ∷ lookups m keys

-- Many reads of an open transaction are what the storage holds once the transaction commits.
pub multi_get_lem :
    (s : MemoryStorage) (t : MemoryTransaction) (keys : List Bytes)
    → t.committed ≡ false
    → multi_get s t keys ≡ ok (lookups (commit s t).0.entries keys)
unfolding multi_get
multi_get_lem s t [] h = refl
multi_get_lem s t (key ∷ keys) h = rw (get-commit s t key h, multi_get_lem s t keys h) refl

abbrev pub two_operations : TransactionOperation → TransactionOperation → MemoryTransaction
two_operations a b = record { operations = a ∷ b ∷ []; committed = false }

-- A range scan of a transaction that writes a key of the range twice, where the storage holds no key
-- of the range, gives the first of the two values, where a read of the key gives the second; and
-- if the second operation deletes the key, the scan still gives the value, where a read gives nothing.
pub scan_range_stale :
    (s : MemoryStorage) (start end key first second : Bytes)
    → BTreeMap.range_panics (included start) (excluded end) ≡ false
    → BTreeMap.range (included start) (excluded end) s.entries ≡ []
    → (key_le start key && key_lt key end) ≡ true
    → (scan_range s (two_operations (put_op key first) (put_op key second)) start end
        ≡ ok ((key, first) ∷ []))
      × (Transaction.get s (two_operations (put_op key first) (put_op key second)) key
          ≡ ok (some second))
      × (scan_range s (two_operations (put_op key first) (delete_op key)) start end
          ≡ ok ((key, first) ∷ []))
      × (Transaction.get s (two_operations (put_op key first) (delete_op key)) key ≡ ok none)
unfolding scan_range Transaction.get
scan_range_stale s start end key first second h e within =
    rw (h, e)
      (
        ground (arith, key_eq_refl key),
        ground (arith, key_eq_refl key),
        ground (arith, key_eq_refl key),
        ground (arith, key_eq_refl key),
      )

apply_all-append :
    (ops : List TransactionOperation) (op : TransactionOperation) (m : Entries)
    → apply_all m (ops ++ op ∷ []) ≡ apply (apply_all m ops) op
unfolding apply_all
apply_all-append [] op m = refl
apply_all-append (o ∷ ops) op m = apply_all-append ops op (apply m o)

swap-write :
    (u : MemoryStorage) (key : Bytes) (expected new_value : Option Bytes)
    → agrees u key expected ≡ true
    → (Application.compare_and_swap u key expected new_value).0.entries
      ≡ apply u.entries (write_of key new_value)
unfolding Application.compare_and_swap apply
swap-write u key expected none h = rw h refl
swap-write u key expected (some value) h = rw h refl

module _ (s : MemoryStorage) (t : MemoryTransaction) (key : Bytes)
    (expected new_value : Option Bytes) (open_t : t.committed ≡ false) where
  abbrev committed_state : MemoryStorage
  committed_state = (commit s t).0

  abbrev swapped : Bool → MemoryTransaction
  swapped true = record t { operations = t.operations ++ write_of key new_value ∷ [] }
  swapped false = t

  swap_runs :
      compare_and_swap s t key expected new_value
      ≡ ok (swapped (agrees committed_state key expected), agrees committed_state key expected)
  unfolding compare_and_swap
  swap_runs = ground (arith, get-commit s t key open_t)

  entries-commit :
      (u : MemoryTransaction)
      → u.committed ≡ false
      → (commit s u).0.entries ≡ apply_all s.entries u.operations
  unfolding commit
  entries-commit u h = rw h refl

  swap_entries :
      (b : Bool)
      → agrees committed_state key expected ≡ b
      → (commit s (swapped b)).0.entries
        ≡ (Application.compare_and_swap committed_state key expected new_value).0.entries
  swap_entries false h = rw (swap_refused committed_state key expected new_value h) refl
  swap_entries true h =
      entries-commit (swapped true) open_t
      ∙ apply_all-append t.operations (write_of key new_value) s.entries
      ∙ ap (λ (m : Entries). apply m (write_of key new_value)) (sym (entries-commit t open_t))
      ∙ sym (swap-write committed_state key expected new_value h)

  -- A compare-and-swap inside an open transaction decides as one on the storage would after the
  -- commit, and once the transaction commits the entries are those of that one.
  pub swap-commit :
      (t' : MemoryTransaction) × (b : Bool) × (compare_and_swap s t key expected new_value
        ≡ ok (t', b))
      × ((Application.compare_and_swap committed_state key expected new_value).1 ≡ ok b)
      × ((commit s t').0.entries
          ≡ (Application.compare_and_swap committed_state key expected new_value).0.entries)
  swap-commit = (
    swapped (agrees committed_state key expected),
    agrees committed_state key expected,
    swap_runs,
    swap_result committed_state key expected new_value,
    swap_entries _ refl,
  )
