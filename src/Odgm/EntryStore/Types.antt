-- ===== src/Odgm/EntryStore/Types.antt =====
-- The types of the entry store of an object shard: data-plane/oprc-odgm/src/shard/entry_store_impl.rs. The shard's
-- storage and its replication layer share one state; postcard and prost are parameters, and so is
-- the generated type of a value's kind. `None` for the dispatcher is a shard without events.
use Prim.Native.String.{String}
use oaa_s_io_t.Prelude.{ℕ, List, Bool, Option}
use oaa_s_io_t.Std.Bytes.{Bytes}
use oaa_s_io_t.Storage.Outcome.{Outcome, ok, err, panicked, StorageError}
use oaa_s_io_t.Storage.Contract.Application.{ApplicationDataStorage}
use oaa_s_io_t.Odgm.Fallible.{Fallible, done, failed, unwound, Exec}
use oaa_s_io_t.Odgm.Replication.{ReplicationError, ReplicationLayer, ReplicationResponse}
use oaa_s_io_t.Odgm.Events.{ObjectEvent, EventDispatcher}

pub data ShardError : Type 0 where
  storage_error : StorageError → ShardError
  replication_error : ReplicationError → ShardError
  serialization_error configuration_error transaction_error : String → ShardError
  no_shards_found : List ℕ → ShardError
  invalid_key not_ready not_leader invalid_metadata deserialization_error : ShardError
  odgm_error : String → ShardError
  version_mismatch : ℕ → ℕ → ShardError

pub record ObjectVal (ValType : Type 0) : Type 0 where
  pub payload : Bytes
  pub val_type : ValType

-- `postcard::to_allocvec`, `postcard::from_bytes` and `ObjectEvent::decode`.
pub record Formats : Type 1 where
  pub ValType : Type 0
  pub Target : Type 0
  pub to_allocvec : ObjectVal ValType → Fallible String Bytes
  pub from_bytes : Bytes → Option (ObjectVal ValType)
  pub decode_event : Bytes → Option (ObjectEvent Target)

-- What a shard is made of; `include_values` tells whether the option `ws_event_include_values` is
-- "true".
pub record Setting : Type 1 where
  pub formats : Formats
  pub app_storage : ApplicationDataStorage
  pub replication : ReplicationLayer app_storage.backend.State
  pub class_id : Bytes
  pub partition_id : ℕ
  pub include_values : Bool

abbrev pub Val : Setting → Type 0
Val c = ObjectVal c.formats.ValType

pub record Shard (c : Setting) : Type 0 where
  pub storage : c.app_storage.backend.State
  pub entry_reads : ℕ
  pub entry_writes : ℕ
  pub entry_deletes : ℕ
  pub v2_dispatcher : Option (EventDispatcher c.formats.Target)

abbrev pub ShardExec : Setting → Type 0 → Type 0
ShardExec c A = Exec (Shard c) ShardError A

abbrev pub of_outcome {ℓ} : {A : Type ℓ} → Outcome A → Fallible ShardError A
of_outcome (ok a) = done a
of_outcome (err e) = failed (storage_error e)
of_outcome panicked = unwound

abbrev pub of_replication :
    Fallible ReplicationError ReplicationResponse → Fallible ShardError (Unit {0})
of_replication (done response) = done tt
of_replication (failed e) = failed (replication_error e)
of_replication unwound = unwound

abbrev pub of_encoding : Fallible String Bytes → Fallible ShardError Bytes
of_encoding (done bytes) = done bytes
of_encoding (failed e) = failed (serialization_error e)
of_encoding unwound = unwound
