-- ===== src/Odgm/EntryStore/Operations.antt =====
-- The operations of data-plane/oprc-odgm/src/shard/entry_store_impl.rs on metadata, single entries and
-- whole objects.
use oaa_s_io_t.Prelude.{
  ℕ, ◌+◌, ◌%◌, List, [], ◌∷◌, Bool, false, Option, none, some, if◌then◌else◌, ltb,
}
use oaa_s_io_t.Std.Bytes.{Bytes}
use oaa_s_io_t.Std.BTreeMap.{included, excluded}
use oaa_s_io_t.Storage.Outcome.{Outcome, ok, err, panicked}
use oaa_s_io_t.Storage.Stats.{u64_mod}
use oaa_s_io_t.Storage.Memory.{is_some}
use oaa_s_io_t.Odgm.Fallible.{Fallible, done, failed, unwound, pure, continue, ◌>>=◌, ◌>>◌}
use oaa_s_io_t.Odgm.StorageKey.{string_object_event_config_key}
use oaa_s_io_t.Odgm.GranularKey.{build_entry_key, build_metadata_key, build_object_prefix}
use oaa_s_io_t.Odgm.ObjectMetadata
use oaa_s_io_t.Odgm.ObjectMetadata.{ObjectMetadata}
use oaa_s_io_t.Odgm.Replication.{Operation, write, delete, plain_write}
use oaa_s_io_t.Odgm.Events
use oaa_s_io_t.Odgm.Events.{
  ObjectEvent, ChangedKey, MutAction, EventDispatcher, new_context, MutationContext,
}
use oaa_s_io_t.Odgm.EntryStore.Types.{
  ShardError, Setting, Val, ShardExec, of_outcome, of_replication, of_encoding, invalid_metadata,
  deserialization_error,
}

abbrev pub unwrap_or_default : Option ObjectMetadata → ObjectMetadata
unwrap_or_default none = ObjectMetadata.new
unwrap_or_default (some m) = m

abbrev pub written_action : Bool → MutAction
written_action existed = if existed then MutAction.update else MutAction.create

-- `saturating_add(1)` on the last byte.
unfoldable pub increment_saturating : Bytes → Bytes
increment_saturating [] = 1 ∷ []
increment_saturating (b ∷ []) = (if ltb b 255 then b + 1 else b) ∷ []
increment_saturating (b ∷ x ∷ p) = b ∷ increment_saturating (x ∷ p)

module _ (c : Setting) where
  abbrev pub app_get : Bytes → ShardExec c (Option Bytes)
  app_get key s = (s, of_outcome (c.app_storage.backend.get s.storage key))

  abbrev pub app_exists : Bytes → ShardExec c Bool
  app_exists key s = (s, of_outcome (c.app_storage.exists s.storage key))

  -- `replicate_write(..).await.map_err(ShardError::from)?`: the response is dropped.
  abbrev pub replicate : Operation → ShardExec c (Unit {0})
  replicate operation s =
      let (storage', result) = c.replication.replicate_write operation s.storage in
      (record s { storage = storage' }, of_replication result)

  abbrev pub decode_metadata : Option Bytes → Fallible ShardError (Option ObjectMetadata)
  decode_metadata none = done none
  decode_metadata (some value) = elim (ObjectMetadata.from_bytes value) [
    | none ↦ failed invalid_metadata
    | some meta ↦ done (some meta)
  ]

  unfoldable pub get_metadata : Bytes → ShardExec c (Option ObjectMetadata)
  get_metadata id = do found ← app_get (build_metadata_key id); λ s. (s, decode_metadata found)

  unfoldable pub set_metadata : Bytes → ObjectMetadata → ShardExec c (Unit {0})
  set_metadata id meta =
      replicate (write (plain_write (build_metadata_key id) (ObjectMetadata.to_bytes meta)))

  abbrev pub decode_entry : Option Bytes → ShardExec c (Option (Val c))
  decode_entry none s = (s, done none)
  decode_entry (some value) s = elim (c.formats.from_bytes value) [
    | none ↦ (s, failed deserialization_error)
    | some val ↦ (record s { entry_reads = (s.entry_reads + 1) % u64_mod }, done (some val))
  ]

  unfoldable pub get_entry : Bytes → Bytes → ShardExec c (Option (Val c))
  get_entry id key = do found ← app_get (build_entry_key id key); decode_entry found

  -- Read the metadata or take the default, increment the version, and store it: the versions before
  -- and after.
  unfoldable pub bump_version : Bytes → ShardExec c (ℕ × ℕ)
  unfolding get_metadata set_metadata
  bump_version id = do
    found ← get_metadata id
    let meta = unwrap_or_default found
    set_metadata id (ObjectMetadata.increment_version meta)
    pure (meta.object_version, (ObjectMetadata.increment_version meta).object_version)

  -- Every failure to read or decode the configuration reads as no configuration.
  abbrev pub event_of :
      Outcome (Option Bytes) → Fallible ShardError (Option (ObjectEvent c.formats.Target))
  event_of (ok (some value)) = done (c.formats.decode_event value)
  event_of (ok none) = done none
  event_of (err e) = done none
  event_of panicked = unwound

  abbrev pub event_config : Bytes → ShardExec c (Option (ObjectEvent c.formats.Target))
  event_config id s =
      (s, event_of (c.app_storage.backend.get s.storage (string_object_event_config_key id)))

  abbrev sent :
      MutationContext c.formats.Target
      → Option (EventDispatcher c.formats.Target)
      → Option (EventDispatcher c.formats.Target)
  sent ctx none = none
  sent ctx (some d) = some (Events.try_send ctx d).0

  abbrev pub send :
      Bytes
      → ℕ
      → ℕ
      → List ChangedKey
      → Option (ObjectEvent c.formats.Target)
      → ShardExec c (Unit {0})
  send id before after changed config s = (
    record s {
      v2_dispatcher =
          sent (new_context id c.class_id c.partition_id before after changed config)
            s.v2_dispatcher;
    },
    done tt,
  )

  -- Behind `if v2_mode`.
  unfoldable pub notify : Bytes → ℕ → ℕ → List ChangedKey → ShardExec c (Unit {0})
  notify id before after changed s =
      if is_some s.v2_dispatcher
      then (event_config id >>= λ config. send id before after changed config) s
      else (s, done tt)

  abbrev pub count_write : ShardExec c (Unit {0})
  count_write s = (record s { entry_writes = (s.entry_writes + 1) % u64_mod }, done tt)

  abbrev pub count_delete : ShardExec c (Unit {0})
  count_delete s = (record s { entry_deletes = (s.entry_deletes + 1) % u64_mod }, done tt)

  -- Whether the key exists, where there is a dispatcher to tell.
  abbrev pub existed : Bytes → ShardExec c Bool
  existed key s = if is_some s.v2_dispatcher then app_exists key s else (s, done false)

  unfoldable pub set_entry : Bytes → Bytes → Val c → ShardExec c (Unit {0})
  unfolding bump_version notify
  set_entry id key value = do
    value_bytes ← (λ s. (s, of_encoding (c.formats.to_allocvec value)))
    existed_before ← existed (build_entry_key id key)
    replicate (write (plain_write (build_entry_key id key) value_bytes))
    versions ← bump_version id
    count_write
    notify id versions.0 versions.1 (
        record {
          key_canonical = key;
          action = written_action existed_before;
          value = if c.include_values then some value.payload else none;
        }
        ∷ [])

  -- A delete is announced without the configuration of events.
  unfoldable pub delete_entry : Bytes → Bytes → ShardExec c (Unit {0})
  unfolding bump_version
  delete_entry id key = do
    exists ← app_exists (build_entry_key id key)
    if exists
        then (do
          replicate (delete (build_entry_key id key))
          versions ← bump_version id
          send id versions.0 versions.1
              (record { key_canonical = key; action = MutAction.delete; value = none } ∷ []) none
          count_delete)
        else pure tt

  -- The range is deleted in the storage itself, past the replication layer.
  unfoldable pub delete_object_granular : Bytes → ShardExec c (Unit {0})
  unfolding increment_saturating
  delete_object_granular id s =
      let prefix = build_object_prefix id in
      let (storage', result) =
        c.app_storage.backend.delete_range s.storage (included prefix)
          (excluded (increment_saturating prefix)) in
      (continue (of_outcome result) (λ _. pure tt)) (record s { storage = storage' })
