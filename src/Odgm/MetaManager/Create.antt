-- ===== src/Odgm/MetaManager/Create.antt =====
-- `create_collection` of data-plane/oprc-odgm/src/metadata/mod.rs, and what it calls. What was written
-- before an error or a panic stays.
use oaa_s_io_t.Prelude.{
  ℕ, zero, suc, ◌+◌, ◌%◌, ◌^◌, List, [], ◌∷◌, ◌++◌, Bool, false, ◌==◌, Option, none, some,
  if◌then◌else◌, get_elem?,
}
use oaa_s_io_t.Std.Bytes.{Bytes, bytes_ord}
use oaa_s_io_t.Std.Order.{nat_ord}
use oaa_s_io_t.Std.BTreeMap
use oaa_s_io_t.Std.BTreeMap.{BTreeMap}
use oaa_s_io_t.Storage.Stats.{u64_mod}
use oaa_s_io_t.Odgm.MetaManager.Types.{
  ShardMetadata, ShardAssignment, CreateCollectionRequest, CollectionMetadataState, OprcMetaManager,
  MetaResult, done, invalid_argument, unwound,
}
use oaa_s_io_t.Odgm.MetaManager.Assign.{index_or_panic, last_id, generate_default_assignments}

-- Nothing is inserted between the rounds of the loop, so that each gives the same identifier.
unfoldable pub same_ids : ℕ → ℕ → List ℕ
same_ids zero id = []
same_ids (suc count) id = id ∷ same_ids count id

abbrev pub is_owner : ℕ → Option ℕ → Bool
is_owner node none = false
is_owner node (some owner) = owner == node

abbrev pub collection_of : Bytes → List (List ℕ) → CollectionMetadataState
collection_of name groups = record { name = name; shards = groups; seed = 0; replication = 1 }

module _ {Settings : Type 0} where
  unfoldable pub replica_shard_ids :
      CreateCollectionRequest Settings
      → ShardAssignment
      → BTreeMap ℕ (ShardMetadata Settings)
      → List ℕ
  unfolding same_ids BTreeMap.last_key_value
  replica_shard_ids request assignment shards = elim assignment.shard_ids [
    | [] ↦ same_ids request.replica_count (last_id 1 shards)
    | (id ∷ ids) ↦ id ∷ ids
  ]

  -- The shards of one partition, from the replica number `i` on.
  unfoldable pub add_shards :
      CreateCollectionRequest Settings
      → ShardAssignment
      → List ℕ
      → ℕ
      → List ℕ
      → ℕ
      → BTreeMap ℕ (ShardMetadata Settings)
      → BTreeMap ℕ (ShardMetadata Settings) × MetaResult (Unit {0})
  unfolding BTreeMap.insert
  add_shards request a all_ids partition [] i shards = (shards, done tt)
  add_shards request a all_ids partition (id ∷ ids) i shards = elim (index_or_panic a.replica i) [
    | done owner ↦ add_shards request a all_ids partition ids (i + 1) (
        BTreeMap.insert shards id (record {
          id = id;
          collection = request.name;
          partition_id = partition % 2 ^ 16;
          owner = some owner;
          primary = a.primary;
          replica = all_ids;
          replica_owner = a.replica;
          settings = request.settings;
        }))
    | invalid_argument ↦ (shards, invalid_argument)
    | unwound ↦ (shards, unwound)
  ]

  -- The loop over `left` partitions from number `partition` on.
  unfoldable pub create_loop :
      CreateCollectionRequest Settings
      → List ShardAssignment
      → ℕ
      → ℕ
      → List (List ℕ)
      → BTreeMap ℕ (ShardMetadata Settings)
      → BTreeMap ℕ (ShardMetadata Settings) × MetaResult (List (List ℕ))
  unfolding replica_shard_ids add_shards
  create_loop request assignments zero partition groups shards = (shards, done groups)
  create_loop request assignments (suc left) partition groups shards =
      elim (get_elem? assignments partition) [
        | none ↦ (shards, invalid_argument)
        | some a ↦
            let ids = replica_shard_ids request a shards in
            let added = add_shards request a ids partition ids 0 shards in
            elim added.1 [
              | done _ ↦
                  create_loop request assignments left (partition + 1) (groups ++ ids ∷ []) added.0
              | invalid_argument ↦ (added.0, invalid_argument)
              | unwound ↦ (added.0, unwound)
            ]
      ]

  unfoldable pub update_local_shards :
      ℕ
      → BTreeMap ℕ (ShardMetadata Settings)
      → BTreeMap ℕ (ShardMetadata Settings)
      → BTreeMap ℕ (ShardMetadata Settings)
  unfolding BTreeMap.insert
  update_local_shards node_id [] local_shards = local_shards
  update_local_shards node_id ((_, shard) ∷ shards) local_shards =
      update_local_shards node_id shards (
        if is_owner node_id shard.owner
        then BTreeMap.insert local_shards shard.id shard
        else local_shards)

  abbrev pub register :
      OprcMetaManager Settings
      → Bytes
      → BTreeMap ℕ (ShardMetadata Settings) × MetaResult (List (List ℕ))
      → OprcMetaManager Settings × MetaResult Bytes
  register m name (shards', done groups) = (
    record m {
      collections = BTreeMap.insert m.collections name (collection_of name groups);
      shards = shards';
      local_shards = update_local_shards m.node_id shards' m.local_shards;
      version = (m.version + 1) % u64_mod;
    },
    done name,
  )
  register m name (shards', invalid_argument) = (record m { shards = shards' }, invalid_argument)
  register m name (shards', unwound) = (record m { shards = shards' }, unwound)

  abbrev pub assignments_of :
      OprcMetaManager Settings
      → CreateCollectionRequest Settings
      → MetaResult (List ShardAssignment)
  assignments_of m request = elim request.shard_assignments [
    | [] ↦ generate_default_assignments m request
    | (a ∷ others) ↦ done (a ∷ others)
  ]

  unfoldable pub create_collection :
      OprcMetaManager Settings
      → CreateCollectionRequest Settings
      → OprcMetaManager Settings × MetaResult Bytes
  unfolding create_loop update_local_shards generate_default_assignments
  create_collection m request =
      if BTreeMap.contains_key m.collections request.name
      then (m, invalid_argument)
      else elim (assignments_of m request) [
        | done assignments ↦
            register m request.name
              (create_loop request assignments request.partition_count 0 [] m.shards)
        | invalid_argument ↦ (m, invalid_argument)
        | unwound ↦ (m, unwound)
      ]

  unfoldable pub get_shard_ids : OprcMetaManager Settings → Bytes → Option (List (List ℕ))
  unfolding BTreeMap.get
  get_shard_ids m name = elim (BTreeMap.get m.collections name) [
    | none ↦ none
    | some collection ↦ some collection.shards
  ]
