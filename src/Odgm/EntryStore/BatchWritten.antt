-- ===== src/Odgm/EntryStore/BatchWritten.antt =====
-- The parts of `batch_set_entries` on the entries of a storage that does not fail: the version check,
-- the writes in their order, and the notification.
use oaa_s_io_t.Prelude.{
  ℕ, ◌≡◌, refl, ◌∙◌, List, [], ◌∷◌, Bool, Option, some, length, map, Bool-cases, inl, inr,
}
use oaa_s_io_t.Std.Bytes.{Bytes, bytes_ord}
use oaa_s_io_t.Std.BTreeMap
use oaa_s_io_t.Storage.Contract.{Entries}
use oaa_s_io_t.Storage.Memory.{is_some}
use oaa_s_io_t.Odgm.Fallible.{done}
use oaa_s_io_t.Odgm.GranularKey.{build_entry_key, build_metadata_key}
use oaa_s_io_t.Odgm.ObjectMetadata
use oaa_s_io_t.Odgm.ObjectMetadata.{ObjectMetadata}
use oaa_s_io_t.Odgm.Replication.{write, batch, Operations, nil, cons, plain_write}
use oaa_s_io_t.Odgm.Replication.Spec.{AreSingle, replay, replay_all}
use oaa_s_io_t.Odgm.EntryStore.Types.{Setting, Shard, Val}
use oaa_s_io_t.Odgm.EntryStore.Operations.{get_metadata, unwrap_or_default, replicate}
use oaa_s_io_t.Odgm.EntryStore.Ends.{
  IsReliableShard, held, IsValid, Ends, app_exists-Ends, replicate-Ends, get_metadata-Ends,
  notify-Ends,
}
use oaa_s_io_t.Odgm.EntryStore.Reads.{metadata_decodes}
use oaa_s_io_t.Odgm.EntryStore.Batch.{
  Values, version_matches, existing, pre_exist, write_operations, changed_keys, batch_set_entries,
  count_writes, key_of,
}

-- The metadata that the code writes.
abbrev pub incremented : Option ObjectMetadata → ObjectMetadata
incremented found = ObjectMetadata.increment_version (unwrap_or_default found)

-- postcard, as documented: every value has an encoding, which decodes to it.
abbrev pub Encodes : Setting → Type 0
Encodes c =
    (v : Val c)
    → (b : Bytes) × (c.formats.to_allocvec v ≡ done b) × (c.formats.from_bytes b ≡ some v)

module _ {c : Setting} (h : IsReliableShard c) (codec : Encodes c) (id : Bytes) where
  existing_lem :
      (keys : List Bytes) (s : Shard c) {m : Entries}
      → IsValid h s
      → held h s ≡ m
      → (old : List Bool) × (existing c id keys s ≡ (s, done old))
  unfolding existing
  existing_lem [] s v e = ([], refl)
  existing_lem (k ∷ keys) s {m} v e =
      let a = app_exists-Ends h (build_entry_key id k) s v e in
      let (old, r) = existing_lem keys s v e in
      (BTreeMap.contains_key m (build_entry_key id k) ∷ old, rw (a.result, r) refl)

  pre_exist_lem :
      (keys : List Bytes) (s : Shard c) {m : Entries}
      → IsValid h s
      → held h s ≡ m
      → (old : List Bool) × (pre_exist c id keys s ≡ (s, done old))
  unfolding pre_exist
  pre_exist_lem keys s v e = elim (Bool-cases (is_some s.v2_dispatcher)) [
    | inl on ↦ rw on (existing_lem keys s v e)
    | inr off ↦ ([], rw off refl)
  ]

  -- The entries after the writes, the metadata's last.
  abbrev pub written : Values c → Bytes → Entries → Entries
  written [] meta m = BTreeMap.insert m (build_metadata_key id) meta
  written ((k, v) ∷ values) meta m =
      written values meta (BTreeMap.insert m (build_entry_key id k) (codec v).0)

  operations_of : Values c → Bytes → Operations
  operations_of [] meta = cons (write (plain_write (build_metadata_key id) meta)) nil
  operations_of ((k, v) ∷ values) meta =
      cons (write (plain_write (build_entry_key id k) (codec v).0)) (operations_of values meta)

  operations_lem :
      (values : Values c) (meta : Bytes)
      → write_operations c id values (write (plain_write (build_metadata_key id) meta))
        ≡ done (operations_of values meta)
  unfolding write_operations operations_of
  operations_lem [] meta = refl
  operations_lem ((k, v) ∷ values) meta = rw ((codec v).1, operations_lem values meta) refl

  operations-AreSingle : (values : Values c) (meta : Bytes) → AreSingle (operations_of values meta)
  unfolding operations_of
  operations-AreSingle [] meta = (refl, tt)
  operations-AreSingle ((k, v) ∷ values) meta = (refl, operations-AreSingle values meta)

  replay-operations :
      (values : Values c) (meta : Bytes) (m : Entries)
      → replay_all (operations_of values meta) m ≡ written values meta m
  unfolding operations_of replay
  replay-operations [] meta m = refl
  replay-operations ((k, v) ∷ values) meta m = replay-operations values meta _

  pub batch_set-Ends :
      (k : Bytes) (w : Val c) (values : Values c) (expected : Option ℕ)
      (found : Option ObjectMetadata) (s : Shard c)
      → (get_metadata c id s).1 ≡ done found
      → version_matches expected (unwrap_or_default found).object_version ≡ done tt
      → IsValid h s
      → Ends h
          (incremented found).object_version
          (written ((k, w) ∷ values) (ObjectMetadata.to_bytes (incremented found)) (held h s))
          (batch_set_entries c id ((k, w) ∷ values) expected s)
  unfolding batch_set_entries replay
  batch_set-Ends k w values expected found s e matches v =
      let all = (k, w) ∷ values in
      let meta = ObjectMetadata.to_bytes (incremented found) in
      let a = get_metadata-Ends h id s (metadata_decodes h id s v e) v refl in
      let s1 = (get_metadata c id s).0 in
      let (old, p) = pre_exist_lem (map (key_of c) all) s1 a.valid a.stored in
      let b =
        replicate-Ends h (batch (operations_of all meta)) s1 (operations-AreSingle all meta) a.valid
          a.stored in
      let s2 =
        (count_writes c (length all) (replicate c (batch (operations_of all meta)) s1).0).0 in
      let n =
        notify-Ends h id (unwrap_or_default found).object_version (incremented found).object_version
          (changed_keys c all old) s2 b.valid b.stored in
      rw (a.result, matches, p, operations_lem all meta, b.result, n.result)
        record {
          valid = n.valid;
          stored = n.stored ∙ replay-operations all meta (held h s);
          result = refl;
        }
