-- ===== src/Storage/Memory/Transaction.antt =====
-- `MemoryTransaction` of commons/oprc-dp-storage/src/backends/memory.rs, and the default batch
-- methods of `StorageTransaction`. The shared map is passed as the storage.
use oaa_s_io_t.Prelude.{
  ◌+◌, ◌<◌, ◌≡◌, refl, ap, ◌∙◌, sym, List, [], ◌∷◌, ◌++◌, Bool, false, Option, none, some, arith,
  if◌then◌else◌, length,
}
use mathlib.Core.List.{reverse, reverse-append}
use oaa_s_io_t.Std.Bytes.{Bytes, bytes_ord}
use oaa_s_io_t.Std.Order.{key_eq}
use oaa_s_io_t.Std.BTreeMap
use oaa_s_io_t.Std.BTreeMap.Laws.{get-insert, get-remove}
use oaa_s_io_t.Std.BTreeMap.Count.{length-insert}
use oaa_s_io_t.Storage.Outcome.{Outcome, ok, err, panicked, StorageError, transaction, ◌>>=◌}
use oaa_s_io_t.Storage.Stats.{u64_mod}
use oaa_s_io_t.Storage.Memory.{MemoryStorage, Entries, is_some}
use oaa_s_io_t.Storage.Memory.Statistics.{IsCounted}

pub data TransactionOperation : Type 0 where
  put_op : Bytes → Bytes → TransactionOperation
  delete_op : Bytes → TransactionOperation

pub record MemoryTransaction : Type 0 where
  pub operations : List TransactionOperation
  pub committed : Bool

-- `MemoryTransaction::new`, which `begin_transaction` calls.
unfoldable pub begin_transaction : MemoryTransaction
begin_transaction = record { operations = []; committed = false }

-- The loop of `get` over the operations, the latest first: what the first that fits says.
unfoldable pub pending : List TransactionOperation → Bytes → Option (Option Bytes)
pending [] key = none
pending (put_op k v ∷ ops) key = if key_eq k key then some (some v) else pending ops key
pending (delete_op k ∷ ops) key = if key_eq k key then some none else pending ops key

unfoldable pub get : MemoryStorage → MemoryTransaction → Bytes → Outcome (Option Bytes)
unfolding pending
get s t key = elim (pending (reverse t.operations) key) [
  | some found ↦ ok found
  | none ↦ ok (BTreeMap.get s.entries key)
]

abbrev pub already_committed : StorageError
already_committed = transaction "Transaction already committed"

unfoldable pub put : MemoryTransaction → Bytes → Bytes → Outcome MemoryTransaction
put t key value =
    if t.committed
    then err already_committed
    else ok (record t { operations = t.operations ++ put_op key value ∷ [] })

unfoldable pub delete : MemoryTransaction → Bytes → Outcome MemoryTransaction
delete t key =
    if t.committed
    then err already_committed
    else ok (record t { operations = t.operations ++ delete_op key ∷ [] })

unfoldable pub exists : MemoryStorage → MemoryTransaction → Bytes → Outcome Bool
unfolding get
exists s t key = do found ← get s t key; ok (is_some found)

unfoldable pub batch_put : MemoryTransaction → List (Bytes × Bytes) → Outcome MemoryTransaction
unfolding put
batch_put t [] = ok t
batch_put t ((k, v) ∷ items) = elim (put t k v) [
  | ok t' ↦ batch_put t' items
  | err e ↦ err e
  | panicked ↦ panicked
]

unfoldable pub batch_delete : MemoryTransaction → List Bytes → Outcome MemoryTransaction
unfolding delete
batch_delete t [] = ok t
batch_delete t (k ∷ keys) = elim (delete t k) [
  | ok t' ↦ batch_delete t' keys
  | err e ↦ err e
  | panicked ↦ panicked
]

unfoldable pub apply : Entries → TransactionOperation → Entries
apply m (put_op k v) = BTreeMap.insert m k v
apply m (delete_op k) = BTreeMap.remove m k

unfoldable pub apply_all : Entries → List TransactionOperation → Entries
unfolding apply
apply_all m [] = m
apply_all m (op ∷ ops) = apply_all (apply m op) ops

-- The statistics are not touched.
unfoldable pub commit : MemoryStorage → MemoryTransaction → MemoryStorage × Outcome (Unit {0})
unfolding apply_all
commit s t =
    if t.committed
    then (s, err already_committed)
    else (record s { entries = apply_all s.entries t.operations }, ok tt)

unfoldable pub rollback : MemoryStorage → MemoryTransaction → MemoryStorage × Outcome (Unit {0})
rollback s t = (s, ok tt)

abbrev or_stored : Option (Option Bytes) → Option Bytes → Option Bytes
or_stored none stored = stored
or_stored (some found) stored = found

pending-append :
    (ops : List TransactionOperation) (op : TransactionOperation) (key : Bytes)
    (stored : Option Bytes)
    → or_stored (pending (ops ++ op ∷ []) key) stored
      ≡ or_stored (pending ops key) (or_stored (pending (op ∷ []) key) stored)
unfolding pending
pending-append [] op key stored = refl
pending-append (put_op k v ∷ ops) op key stored = ground (arith, pending-append ops op key stored)
pending-append (delete_op k ∷ ops) op key stored = ground (arith, pending-append ops op key stored)

get-apply :
    (m : Entries) (op : TransactionOperation) (key : Bytes)
    → BTreeMap.get (apply m op) key ≡ or_stored (pending (op ∷ []) key) (BTreeMap.get m key)
unfolding apply pending
get-apply m (put_op k v) key = ground (arith, get-insert m k key v)
get-apply m (delete_op k) key = ground (arith, get-remove m k key)

get-apply_all :
    (ops : List TransactionOperation) (m : Entries) (key : Bytes)
    → BTreeMap.get (apply_all m ops) key
      ≡ or_stored (pending (reverse ops) key) (BTreeMap.get m key)
unfolding apply_all
get-apply_all [] m key = unfold pending in refl
get-apply_all (op ∷ ops) m key =
    get-apply_all ops (apply m op) key
    ∙ ap (or_stored (pending (reverse ops) key)) (get-apply m op key)
    ∙ sym (pending-append (reverse ops) op key (BTreeMap.get m key))
    ∙ ap (λ (xs : List TransactionOperation). or_stored (pending xs key) (BTreeMap.get m key))
        (sym (reverse-append (op ∷ []) ops))

-- Every read inside an open transaction is what the storage holds once the transaction commits.
pub get-commit :
    (s : MemoryStorage) (t : MemoryTransaction) (key : Bytes)
    → t.committed ≡ false
    → get s t key ≡ ok (BTreeMap.get (commit s t).0.entries key)
unfolding get commit
get-commit s t key h = ground (arith, get-apply_all t.operations s.entries key)

-- A commit does not update the statistics: after one that writes a new key, the entry counter no
-- longer is the number of entries.
pub commit_undercounts :
    (s : MemoryStorage) (key value : Bytes)
    → IsCounted s
    → BTreeMap.get s.entries key ≡ none
    → length s.entries + 1 < u64_mod
    → (t : MemoryTransaction) → put begin_transaction key value ≡ ok t
    → ¬ IsCounted (commit s t).0
unfolding put begin_transaction commit apply_all
commit_undercounts s key value h absent fits t e bad =
    ground (arith, length-insert s.entries key value h.sorted, h.counted, bad.counted)
