-- ===== src/Odgm/MetaManager/Examples.antt =====
-- The theorems on collections at a concrete manager.
use oaa_s_io_t.Prelude.{ℕ, ◌≡◌, refl, [], ◌∷◌, some, arith}
use oaa_s_io_t.Std.Bytes.{bytes_ord}
use oaa_s_io_t.Std.Order.{nat_ord}
use oaa_s_io_t.Std.BTreeMap
use oaa_s_io_t.Odgm.MetaManager.Types.{ShardMetadata, CreateCollectionRequest, OprcMetaManager}
use oaa_s_io_t.Odgm.MetaManager.Create.{create_collection}
use oaa_s_io_t.Odgm.MetaManager.Default.{default_keeps}

-- The settings of these shards are a number.
abbrev shard_four : ShardMetadata ℕ
shard_four = record {
  id = 4;
  collection = b'a' ∷ [];
  partition_id = 0;
  owner = some 1;
  primary = some 4;
  replica = 4 ∷ [];
  replica_owner = 1 ∷ [];
  settings = 7;
}

abbrev manager : OprcMetaManager ℕ
manager = record {
  collections = [];
  shards = (4, shard_four) ∷ [];
  local_shards = (4, shard_four) ∷ [];
  node_id = 1;
  members = 1 ∷ 2 ∷ [];
  version = 1;
}

abbrev request : CreateCollectionRequest ℕ
request = record {
  name = b'b' ∷ [];
  partition_count = 3;
  replica_count = 2;
  shard_assignments = [];
  settings = 9;
}

default_keeps_example :
    BTreeMap.get (create_collection manager request).0.shards 4 ≡ some shard_four
default_keeps_example =
    default_keeps manager request 4 shard_four (tt, tt) refl
      (unfold BTreeMap.last_key_value in ground arith) (unfold BTreeMap.get nat_ord in refl)
