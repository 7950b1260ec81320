-- ===== src/Odgm/MetaManager/Assign.antt =====
-- `generate_default_assignments` of data-plane/oprc-odgm/src/metadata/mod.rs.
use oaa_s_io_t.Prelude.{ℕ, zero, suc, ◌+◌, ◌%◌, List, [], ◌∷◌, none, some, length, get_elem?}
use oaa_s_io_t.Std.Bytes.{bytes_ord}
use oaa_s_io_t.Std.Order.{nat_ord}
use oaa_s_io_t.Std.BTreeMap
use oaa_s_io_t.Std.BTreeMap.{BTreeMap}
use oaa_s_io_t.Storage.Stats.{u64_mod}
use oaa_s_io_t.Odgm.MetaManager.Types.{
  ShardMetadata, ShardAssignment, CreateCollectionRequest, OprcMetaManager, MetaResult, done,
  unwound, ◌>>=◌,
}

abbrev pub index_or_panic : List ℕ → ℕ → MetaResult ℕ
index_or_panic xs i = elim (get_elem? xs (i % length xs)) [ some x ↦ done x | none ↦ unwound ]

-- The owners of a partition: `replica_count` members in turn, from the one at the partition's number.
unfoldable pub default_replicas : List ℕ → ℕ → ℕ → MetaResult (List ℕ)
default_replicas members zero j = done []
default_replicas members (suc count) j = do
  owner ← index_or_panic members j
  others ← default_replicas members count (j + 1)
  done (owner ∷ others)

-- `shard_id_counter`, taken `count` times.
unfoldable pub counted_ids : ℕ → ℕ → List ℕ
counted_ids zero counter = []
counted_ids (suc count) counter = counter ∷ counted_ids count ((counter + 1) % u64_mod)

abbrev pub first_or_panic : List ℕ → MetaResult ℕ
first_or_panic [] = unwound
first_or_panic (x ∷ xs) = done x

-- The loop over `left` partitions from number `i` on.
unfoldable pub default_loop : List ℕ → ℕ → ℕ → ℕ → ℕ → MetaResult (List ShardAssignment)
unfolding default_replicas counted_ids
default_loop members replica_count zero i counter = done []
default_loop members replica_count (suc left) i counter = do
  replica ← default_replicas members replica_count i
  primary ← first_or_panic (counted_ids replica_count counter)
  others ← default_loop members replica_count left (i + 1) ((counter + replica_count) % u64_mod)
  done (
      record {
        primary = some primary;
        replica = replica;
        shard_ids = counted_ids replica_count counter;
      }
      ∷ others)

module _ {Settings : Type 0} where
  abbrev pub last_id : ℕ → BTreeMap ℕ (ShardMetadata Settings) → ℕ
  last_id default shards = elim (BTreeMap.last_key_value shards) [ none ↦ default | some e ↦ e.0 ]

  unfoldable pub generate_default_assignments :
      OprcMetaManager Settings
      → CreateCollectionRequest Settings
      → MetaResult (List ShardAssignment)
  unfolding default_loop BTreeMap.last_key_value
  generate_default_assignments m request =
      default_loop m.members request.replica_count request.partition_count 0
        ((last_id 0 m.shards + 1) % u64_mod)
