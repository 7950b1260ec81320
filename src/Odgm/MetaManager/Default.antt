-- ===== src/Odgm/MetaManager/Default.antt =====
-- Collections with the default assignment, and with an assignment that names no shards:
-- data-plane/oprc-odgm/src/metadata/mod.rs.
use oaa_s_io_t.Prelude.{
  ℕ, ◌+◌, ◌*◌, ◌%◌, ◌≤◌, ◌<◌, ◌≡◌, refl, ◌∙◌, [], ◌∷◌, false, none, some, arith,
}
use oaa_s_io_t.Std.Bytes.{Bytes, bytes_ord}
use oaa_s_io_t.Std.Order.{nat_ord, key_eq_refl}
use oaa_s_io_t.Std.BTreeMap
use oaa_s_io_t.Std.BTreeMap.{BTreeMap}
use oaa_s_io_t.Std.BTreeMap.Laws.{get-insert}
use oaa_s_io_t.Std.BTreeMap.Sorted.{IsSorted}
use oaa_s_io_t.Storage.Stats.{u64_mod}
use oaa_s_io_t.Odgm.MetaManager.Types.{ShardMetadata, CreateCollectionRequest, OprcMetaManager}
use oaa_s_io_t.Odgm.MetaManager.Assign.{last_id, generate_default_assignments}
use oaa_s_io_t.Odgm.MetaManager.Create.{
  create_collection, create_loop, replica_shard_ids, same_ids, add_shards,
}
use oaa_s_io_t.Odgm.MetaManager.Shards.{AllFrom, default_loop-from, create-get}

module _ {Settings : Type 0} where
  -- No shard has an identifier beyond the last one.
  last_id-greatest :
      (default k : ℕ) (shards : BTreeMap ℕ (ShardMetadata Settings))
      (shard : ShardMetadata Settings)
      → IsSorted shards
      → BTreeMap.get shards k ≡ some shard
      → k ≤ last_id default shards
  unfolding BTreeMap.get BTreeMap.last_key_value nat_ord
  last_id-greatest default k [] shard s e = ground arith
  last_id-greatest default k ((j, v) ∷ []) shard s e = ground arith
  last_id-greatest default k ((j, v) ∷ (i, w) ∷ shards) shard s e = ground (
    arith,
    last_id-greatest default k ((i, w) ∷ shards) shard s.1,
    last_id-greatest default i ((i, w) ∷ shards) w s.1 (ground arith),
    s.0.0,
  )

  default_from :
      (m : OprcMetaManager Settings) (request : CreateCollectionRequest Settings)
      → last_id 0 m.shards + 1 + request.partition_count * request.replica_count < u64_mod
      → AllFrom (last_id 0 m.shards + 1) (generate_default_assignments m request)
  unfolding generate_default_assignments
  default_from m request fits =
      let next : (last_id 0 m.shards + 1) % u64_mod ≡ last_id 0 m.shards + 1 = omega arith in
      rw next (
        default_loop-from m.members request.replica_count request.partition_count 0
          (last_id 0 m.shards + 1) (last_id 0 m.shards + 1) (omega arith) fits)

  -- Creating a collection with the default assignment leaves every shard that exists as it is,
  -- whatever the outcome, where the new identifiers stay below 2^64.
  pub default_keeps :
      (m : OprcMetaManager Settings) (request : CreateCollectionRequest Settings) (k : ℕ)
      (shard : ShardMetadata Settings)
      → IsSorted m.shards
      → request.shard_assignments ≡ []
      → last_id 0 m.shards + 1 + request.partition_count * request.replica_count < u64_mod
      → BTreeMap.get m.shards k ≡ some shard
      → BTreeMap.get (create_collection m request).0.shards k ≡ some shard
  default_keeps m request k shard sorted default fits e =
      create-get k (last_id 0 m.shards + 1)
        (omega (arith, last_id-greatest 0 k m.shards shard sorted e)) m request
        (rw default (default_from m (record request { shard_assignments = [] }) fits))
      ∙ e

  abbrev pub unnamed_request : Bytes → ℕ → Settings → CreateCollectionRequest Settings
  unnamed_request name owner settings = record {
    name = name;
    partition_count = 1;
    replica_count = 1;
    shard_assignments = record { primary = none; replica = owner ∷ []; shard_ids = [] } ∷ [];
    settings = settings;
  }

  -- An assignment that names no shards takes the identifier of the last shard that exists (1 where
  -- there is none): creating a collection of one partition and one replica with it hands that shard to
  -- the new collection.
  pub unnamed_takes_last :
      (m : OprcMetaManager Settings) (name : Bytes) (owner : ℕ) (settings : Settings)
      → BTreeMap.contains_key m.collections name ≡ false
      → BTreeMap.get
          (create_collection m (unnamed_request name owner settings)).0.shards
          (last_id 1 m.shards)
        ≡ some (record {
          id = last_id 1 m.shards;
          collection = name;
          partition_id = 0;
          owner = some owner;
          primary = none;
          replica = last_id 1 m.shards ∷ [];
          replica_owner = owner ∷ [];
          settings = settings;
        })
  unfolding create_collection create_loop replica_shard_ids same_ids add_shards
  unnamed_takes_last m name owner settings fresh = rw fresh (
      get-insert m.shards (last_id 1 m.shards) (last_id 1 m.shards) _
      ∙ rw (key_eq_refl (last_id 1 m.shards)) refl)
