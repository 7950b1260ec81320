-- ===== src/Odgm/MetaManager/Types.antt =====
-- The state and the requests of data-plane/oprc-odgm/src/metadata/mod.rs. `Settings` stands for what a
-- shard copies from the request unread (shard type, options, invocations). The counts are those of an
-- `i32` that is not negative. A failed index is a panic.
use oaa_s_io_t.Prelude.{ℕ, List, Option}
use oaa_s_io_t.Std.Bytes.{Bytes, bytes_ord}
use oaa_s_io_t.Std.Order.{nat_ord}
use oaa_s_io_t.Std.BTreeMap.{BTreeMap}

pub record ShardMetadata (Settings : Type 0) : Type 0 where
  pub id : ℕ
  pub collection : Bytes
  pub partition_id : ℕ
  pub owner : Option ℕ
  pub primary : Option ℕ
  pub replica : List ℕ
  pub replica_owner : List ℕ
  pub settings : Settings

pub record ShardAssignment : Type 0 where
  pub primary : Option ℕ
  pub replica : List ℕ
  pub shard_ids : List ℕ

pub record CreateCollectionRequest (Settings : Type 0) : Type 0 where
  pub name : Bytes
  pub partition_count : ℕ
  pub replica_count : ℕ
  pub shard_assignments : List ShardAssignment
  pub settings : Settings

-- `CollectionMetadataState`; a `ShardReplicaGroup` is its shard identifiers.
pub record CollectionMetadataState : Type 0 where
  pub name : Bytes
  pub shards : List (List ℕ)
  pub seed : ℕ
  pub replication : ℕ

-- `version` is the number in the watch channel.
pub record OprcMetaManager (Settings : Type 0) : Type 0 where
  pub collections : BTreeMap Bytes CollectionMetadataState
  pub shards : BTreeMap ℕ (ShardMetadata Settings)
  pub local_shards : BTreeMap ℕ (ShardMetadata Settings)
  pub node_id : ℕ
  pub members : List ℕ
  pub version : ℕ

pub data MetaResult {ℓ} (A : Type ℓ) : Type ℓ where
  done : A → MetaResult A
  invalid_argument : MetaResult A
  unwound : MetaResult A

infixl 5 ◌>>=◌
abbrev pub ◌>>=◌ {ℓ κ} :
    {A : Type ℓ} {B : Type κ} → MetaResult A → (A → MetaResult B) → MetaResult B
done a >>= f = f a
invalid_argument >>= f = invalid_argument
unwound >>= f = unwound
