-- ===== src/Odgm/EntryStore/Direct.antt =====
-- A shard without replication over any storage of the contract: the layer of
-- data-plane/oprc-odgm/src/replication/no_replication.rs under the entry store.
use oaa_s_io_t.Prelude.{ℕ, Bool}
use oaa_s_io_t.Std.Bytes.{Bytes}
use oaa_s_io_t.Storage.Contract.Application.{ApplicationDataStorage, IsReliableApplication}
use oaa_s_io_t.Odgm.Replication.Direct.{replicate_write}
use oaa_s_io_t.Odgm.Replication.Performs.{direct-Performs}
use oaa_s_io_t.Odgm.EntryStore.Types.{Setting, Formats}
use oaa_s_io_t.Odgm.EntryStore.Ends.{IsReliableShard}

module _ (formats : Formats) (a : ApplicationDataStorage) (class_id : Bytes) (partition_id : ℕ)
    (include_values : Bool) where
  abbrev pub direct_setting : Setting
  direct_setting = record {
    formats = formats;
    app_storage = a;
    replication = record { replicate_write = replicate_write a };
    class_id = class_id;
    partition_id = partition_id;
    include_values = include_values;
  }

  abbrev pub direct_reliable : IsReliableApplication a → IsReliableShard direct_setting
  direct_reliable h = record { app = h; performs = direct-Performs h }
