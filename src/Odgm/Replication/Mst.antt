-- ===== src/Odgm/Replication/Mst.antt =====
-- The layer that replicates by exchange: data-plane/oprc-odgm/src/replication/mst, with the local
-- operations of mst_layer.rs. The Merkle search tree of the crate merkle_search_tree, its digests
-- and its comparison of pages are a parameter. The exchange between replicas stands in Sync.
pub mod Sync
pub mod Reads
pub mod Merging
pub mod Pages
pub mod Peer
pub mod Exchange
pub mod Crossing
mod Examples
use Prim.Native.String.{String}
use Prim.Native.Nat.Ordering.{lt, eq, gt}
use oaa_s_io_t.Prelude.{
  ℕ, ◌%◌, ◌==◌, ◌⊎◌, inl, inr, List, [], ◌∷◌, Bool, Option, none, some, compare, Ordering,
  if◌then◌else◌,
}
use oaa_s_io_t.Std.Bytes.{Bytes}
use oaa_s_io_t.Storage.Outcome.{Outcome, ok, err, panicked, StorageError, invalid_operation}
use oaa_s_io_t.Storage.Contract.{StorageBackend, Entries}
use oaa_s_io_t.Odgm.Fallible.{Fallible, done, failed, unwound, Exec, pure, raise, ◌>>=◌, ◌>>◌}
use oaa_s_io_t.Odgm.Events.{EventDispatcher}
use oaa_s_io_t.Odgm.Replication.{
  Operation, write, read, delete, batch, Operations, nil, cons, WriteOperation, ReplicationError,
  storage_error, ReplicationResponse, applied_with, no_extra,
}

pub record GenericPageQuery : Type 0 where
  pub start_bounds : Bytes
  pub end_bounds : Bytes

pub record GenericNetworkPage : Type 0 where
  pub start_bounds : Bytes
  pub end_bounds : Bytes
  pub hash : Bytes

-- The four functions of a configuration.
pub record MstConfig (T : Type 0) : Type 0 where
  pub extract_timestamp : T → ℕ
  pub merge_function : T → T → ℕ → T
  pub serialize : T → StorageError ⊎ Bytes
  pub deserialize : Bytes → StorageError ⊎ T

-- The crate's tree, and `diff` of the local and the remote pages.
pub record MerkleSearchTree (T : Type 0) : Type 1 where
  pub Tree : Type 0
  pub empty : Tree
  pub upsert : Tree → Bytes → T → Tree
  pub serialise_page_ranges : Tree → List GenericNetworkPage
  pub diff : List GenericNetworkPage → List GenericNetworkPage → List GenericPageQuery

-- What a replica is made of. `decode_payload` is the payload of `postcard::from_bytes::<ObjectVal>`,
-- `error_text` is `to_string` of an error, and `Target` is the generated type of a trigger's target.
pub record Setting : Type 1 where
  pub T : Type 0
  pub Target : Type 0
  pub storage : StorageBackend
  pub tree : MerkleSearchTree T
  pub config : MstConfig T
  pub shard_id : ℕ
  pub cls_id : Bytes
  pub partition_id : ℕ
  pub include_entry_values : Bool
  pub decode_payload : Bytes → Option Bytes
  pub error_text : StorageError → String

pub record MstReplicationLayer (c : Setting) : Type 0 where
  pub storage : c.storage.State
  pub mst : c.tree.Tree
  pub v2_dispatcher : Option (EventDispatcher c.Target)

-- The merge function of `simple_lww`: the later of two values, and on equal timestamps the one that
-- the parity of the node's number picks.
abbrev pub pick : {T : Type 0} → Ordering → T → T → ℕ → T
pick gt local remote node_id = remote
pick lt local remote node_id = local
pick eq local remote node_id = if node_id % 2 == 0 then remote else local

abbrev pub lww : {T : Type 0} → (T → ℕ) → T → T → ℕ → T
lww extract_timestamp local remote node_id =
    pick (compare (extract_timestamp remote) (extract_timestamp local)) local remote node_id

-- `simple_lww`, over the two functions of the JSON crate.
unfoldable pub simple_lww :
    {T : Type 0} → (T → StorageError ⊎ Bytes) → (Bytes → StorageError ⊎ T) → (T → ℕ) → MstConfig T
simple_lww to_vec from_slice extract_timestamp = record {
  extract_timestamp = extract_timestamp;
  merge_function = lww extract_timestamp;
  serialize = to_vec;
  deserialize = from_slice;
}

-- The merge function of `default_mst_config`.
abbrev pub take_remote : {T : Type 0} → T → T → ℕ → T
take_remote local remote node_id = remote

-- `default_mst_config`: the values are the stored bytes.
unfoldable pub default_mst_config : MstConfig Bytes
default_mst_config = record {
  extract_timestamp = λ v. 0;
  merge_function = take_remote;
  serialize = λ v. inr v;
  deserialize = λ bytes. inr bytes;
}

abbrev pub of_result {ℓ} : {A : Type ℓ} → StorageError ⊎ A → Fallible StorageError A
of_result (inl e) = failed e
of_result (inr a) = done a

abbrev pub of_outcome {ℓ} : {A : Type ℓ} → Outcome A → Fallible StorageError A
of_outcome (ok a) = done a
of_outcome (err e) = failed e
of_outcome panicked = unwound

abbrev pub map_result : {A B : Type 0} → (A → B) → StorageError ⊎ A → StorageError ⊎ B
map_result f (inl e) = inl e
map_result f (inr a) = inr (f a)

module _ (c : Setting) where
  abbrev pub MstExec : Type 0 → Type 0
  MstExec A = Exec (MstReplicationLayer c) StorageError A

  abbrev pub stored : Bytes → MstExec (Option Bytes)
  stored key s = (s, of_outcome (c.storage.get s.storage key))

  abbrev pub decoded : Option Bytes → StorageError ⊎ Option c.T
  decoded none = inr none
  decoded (some bytes) = map_result some (c.config.deserialize bytes)

  unfoldable pub get_raw : Bytes → MstExec (Option c.T)
  get_raw key = do found ← stored key; λ s. (s, of_result (decoded found))

  -- The value to store: the new one, merged with the existing one.
  abbrev pub resolve : Option Bytes → c.T → StorageError ⊎ c.T
  resolve none entry = inr entry
  resolve (some bytes) entry =
      map_result (λ existing. c.config.merge_function existing entry c.shard_id)
        (c.config.deserialize bytes)

  abbrev pub put : Bytes → Bytes → MstExec Bool
  put key value s = (
    record s { storage = (c.storage.put s.storage key value).0 },
    of_outcome (c.storage.put s.storage key value).1,
  )

  abbrev pub upsert : Bytes → c.T → MstExec (Unit {0})
  upsert key value s = (record s { mst = c.tree.upsert s.mst key value }, done tt)

  unfoldable pub set_with_return_old_raw : Bytes → c.T → MstExec (Option Bytes)
  set_with_return_old_raw key entry = do
    existing_bytes ← stored key
    final_entry ← (λ s. (s, of_result (resolve existing_bytes entry)))
    value_bytes ← (λ s. (s, of_result (c.config.serialize final_entry)))
    _ ← put key value_bytes
    upsert key final_entry
    pure existing_bytes

  unfoldable pub set_raw : Bytes → c.T → MstExec (Unit {0})
  set_raw key entry = do
    existing_bytes ← stored key
    final_entry ← (λ s. (s, of_result (resolve existing_bytes entry)))
    value_bytes ← (λ s. (s, of_result (c.config.serialize final_entry)))
    _ ← put key value_bytes
    upsert key final_entry

  -- The tree keeps the key.
  unfoldable pub delete_raw : Bytes → MstExec (Unit {0})
  delete_raw key s = (
    record s { storage = (c.storage.delete s.storage key).0 },
    of_outcome (c.storage.delete s.storage key).1,
  )

  -- The loop of `rebuild_mst_from_storage`: a value that does not decode is passed over.
  abbrev pub upsert_decoded : c.tree.Tree → Bytes → StorageError ⊎ c.T → c.tree.Tree
  upsert_decoded mst key (inl e) = mst
  upsert_decoded mst key (inr entry) = c.tree.upsert mst key entry

  unfoldable pub rebuild_loop : Entries → c.tree.Tree → c.tree.Tree
  rebuild_loop [] mst = mst
  rebuild_loop ((key, value) ∷ entries) mst =
      rebuild_loop entries (upsert_decoded mst key (c.config.deserialize value))

  unfoldable pub rebuild_mst_from_storage : MstExec (Unit {0})
  unfolding rebuild_loop
  rebuild_mst_from_storage = do
    entries ← (λ s. (s, of_outcome (c.storage.scan s.storage [])))
    λ s. (record s { mst = rebuild_loop entries s.mst }, done tt)

  -- `?` from a storage error to a replication error.
  abbrev pub to_replication : {A : Type 0} → Fallible StorageError A → Fallible ReplicationError A
  to_replication (done a) = done a
  to_replication (failed e) = failed (storage_error e)
  to_replication unwound = unwound

  abbrev pub ReplicationExec : Type 0 → Type 0
  ReplicationExec A = Exec (MstReplicationLayer c) ReplicationError A

  abbrev pub lifted : {A : Type 0} → MstExec A → ReplicationExec A
  lifted m s = ((m s).0, to_replication (m s).1)

  abbrev pub no_old : MstExec (Unit {0}) → MstExec (Option Bytes)
  no_old m = do m; pure none

  unfoldable mutual
    pub replicate_write : Operation → ReplicationExec ReplicationResponse
    replicate_write (write w) = do
      value ← lifted (λ s. (s, of_result (c.config.deserialize w.value)))
      old_value ← lifted (
          if w.return_old
          then set_with_return_old_raw w.key value
          else no_old (set_raw w.key value))
      pure (applied_with old_value no_extra)
    replicate_write (delete key) = do lifted (delete_raw key); pure (applied_with none no_extra)
    replicate_write (batch operations) = do
      replicate_all operations
      pure (applied_with none no_extra)
    replicate_write (read key) =
        raise (storage_error (invalid_operation "Expected write or delete operation"))

    pub replicate_all : Operations → ReplicationExec (Unit {0})
    replicate_all nil = pure tt
    replicate_all (cons operation operations) = do
      _ ← replicate_write operation
      replicate_all operations

  -- A value that is read is serialized again.
  abbrev pub serialized : Option c.T → StorageError ⊎ Option Bytes
  serialized none = inr none
  serialized (some value) = map_result some (c.config.serialize value)

  unfoldable pub replicate_read : Operation → ReplicationExec ReplicationResponse
  unfolding get_raw
  replicate_read (read key) = do
    value ← lifted (get_raw key)
    data_ ← lifted (λ s. (s, of_result (serialized value)))
    pure (applied_with data_ no_extra)
  replicate_read _ = raise (storage_error (invalid_operation "Expected read operation"))
