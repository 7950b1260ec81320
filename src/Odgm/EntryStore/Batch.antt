-- ===== src/Odgm/EntryStore/Batch.antt =====
-- `batch_set_entries` and `batch_delete_entries`. The values, a `HashMap`, are the list of its entries
-- in the order of its iteration.
use oaa_s_io_t.Prelude.{
  ℕ, ◌+◌, ◌%◌, ◌==◌, List, [], ◌∷◌, Bool, false, Option, none, some, if◌then◌else◌, length, map,
}
use oaa_s_io_t.Std.Bytes.{Bytes}
use oaa_s_io_t.Storage.Stats.{u64_mod}
use oaa_s_io_t.Storage.Memory.{is_some}
use oaa_s_io_t.Odgm.Fallible.{and_then, Fallible, done, failed, pure, ◌>>=◌, ◌>>◌}
use oaa_s_io_t.Odgm.GranularKey.{build_entry_key, build_metadata_key}
use oaa_s_io_t.Odgm.ObjectMetadata
use oaa_s_io_t.Odgm.ObjectMetadata.{ObjectMetadata}
use oaa_s_io_t.Odgm.Replication.{
  Operation, write, delete, batch, Operations, nil, cons, plain_write,
}
use oaa_s_io_t.Odgm.Events.{ChangedKey, MutAction}
use oaa_s_io_t.Odgm.EntryStore.Types.{
  Setting, ShardError, version_mismatch, ShardExec, Val, of_encoding,
}
use oaa_s_io_t.Odgm.EntryStore.Operations.{
  app_exists, replicate, get_metadata, bump_version, notify, count_delete, unwrap_or_default,
  written_action,
}

-- `expected_version` against the version that was read.
abbrev pub version_matches : Option ℕ → ℕ → Fallible ShardError (Unit {0})
version_matches none version = done tt
version_matches (some expected) version =
    if version == expected then done tt else failed (version_mismatch expected version)

-- The answer for the first key, and those for the others.
abbrev pub first_or_false : List Bool → Bool
first_or_false [] = false
first_or_false (e ∷ es) = e

abbrev pub others : List Bool → List Bool
others [] = []
others (e ∷ es) = es

module _ (c : Setting) where
  abbrev pub Values : Type 0
  Values = List (Bytes × Val c)

  -- `pre_exist`, asked for only where there is a dispatcher.
  unfoldable pub existing : Bytes → List Bytes → ShardExec c (List Bool)
  existing id [] = pure []
  existing id (k ∷ keys) = do
    exists ← app_exists c (build_entry_key id k)
    rest ← existing id keys
    pure (exists ∷ rest)

  unfoldable pub pre_exist : Bytes → List Bytes → ShardExec c (List Bool)
  unfolding existing
  pre_exist id keys s = if is_some s.v2_dispatcher then existing id keys s else (s, done [])

  -- The writes of the batch, and the metadata's at the end.
  unfoldable pub write_operations : Bytes → Values → Operation → Fallible ShardError Operations
  write_operations id [] last = done (cons last nil)
  write_operations id ((key, value) ∷ values) last =
      and_then (of_encoding (c.formats.to_allocvec value)) λ value_bytes.
        and_then (write_operations id values last)
          λ rest. done (cons (write (plain_write (build_entry_key id key) value_bytes)) rest)

  -- `unwrap_or(&false)` for a key that was not asked about.
  unfoldable pub changed_keys : Values → List Bool → List ChangedKey
  changed_keys [] existed = []
  changed_keys ((key, value) ∷ values) existed =
      record {
        key_canonical = key;
        action = written_action (first_or_false existed);
        value = if c.include_values then some value.payload else none;
      }
      ∷ changed_keys values (others existed)

  abbrev pub count_writes : ℕ → ShardExec c (Unit {0})
  count_writes n s = (record s { entry_writes = (s.entry_writes + n) % u64_mod }, done tt)

  abbrev pub key_of : Bytes × Val c → Bytes
  key_of (k, v) = k

  unfoldable pub batch_set_entries : Bytes → Values → Option ℕ → ShardExec c ℕ
  unfolding pre_exist write_operations changed_keys
  batch_set_entries id [] expected = do
    found ← get_metadata c id
    pure (unwrap_or_default found).object_version
  batch_set_entries id (value ∷ values) expected = do
    found ← get_metadata c id
    (λ s. (s, version_matches expected (unwrap_or_default found).object_version))
    existed ← pre_exist id (map key_of (value ∷ values))
    operations ← (λ s. (
      s,
      write_operations id (value ∷ values) (
          write (
            plain_write (build_metadata_key id) (
              ObjectMetadata.to_bytes
                (ObjectMetadata.increment_version (unwrap_or_default found))))),
    ))
    replicate c (batch operations)
    count_writes (length (value ∷ values))
    notify c id (unwrap_or_default found).object_version
        (ObjectMetadata.increment_version (unwrap_or_default found)).object_version
        (changed_keys (value ∷ values) existed)
    pure (ObjectMetadata.increment_version (unwrap_or_default found)).object_version

  -- The loop over the keys: the keys that were there are deleted one by one.
  unfoldable pub delete_loop : Bytes → List Bytes → ShardExec c (List Bytes)
  delete_loop id [] = pure []
  delete_loop id (key ∷ keys) = do
    exists ← app_exists c (build_entry_key id key)
    (if exists then (do replicate c (delete (build_entry_key id key)); count_delete c) else pure tt)
    rest ← delete_loop id keys
    pure (if exists then key ∷ rest else rest)

  abbrev pub deleted_key : Bytes → ChangedKey
  deleted_key k = record { key_canonical = k; action = MutAction.delete; value = none }

  abbrev pub finish_delete : Bytes → List Bytes → ShardExec c (Unit {0})
  finish_delete id [] = pure tt
  finish_delete id (k ∷ deleted) = do
    versions ← bump_version c id
    notify c id versions.0 versions.1 (map deleted_key (k ∷ deleted))

  unfoldable pub batch_delete_entries : Bytes → List Bytes → ShardExec c (Unit {0})
  unfolding delete_loop
  batch_delete_entries id keys = do deleted ← delete_loop id keys; finish_delete id deleted
