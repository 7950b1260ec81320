-- ===== src/Odgm/EntryStore/BatchDelete.antt =====
-- What `batch_delete_entries` does: the keys that go, and the one increment of the version.
use oaa_s_io_t.Prelude.{
  ◌≡◌, ◌≢◌, refl, ap, sym, ◌∙◌, List, [], ◌∷◌, Bool, true, false, Option, none, some, arith,
  if◌then◌else◌, any_of,
}
use oaa_s_io_t.Std.Bytes.{Bytes, bytes_ord}
use oaa_s_io_t.Std.Order.{key_eq, key_eq_refl, key_eq-ne}
use oaa_s_io_t.Std.BTreeMap
use oaa_s_io_t.Std.BTreeMap.Laws.{get-insert, get-remove}
use oaa_s_io_t.Storage.Contract.{Entries}
use oaa_s_io_t.Odgm.Fallible.{Fallible, done}
use oaa_s_io_t.Odgm.GranularKey.{build_entry_key, build_metadata_key}
use oaa_s_io_t.Odgm.ObjectMetadata
use oaa_s_io_t.Odgm.ObjectMetadata.{ObjectMetadata}
use oaa_s_io_t.Odgm.EntryStore.Types.{Setting, Shard, ShardError}
use oaa_s_io_t.Odgm.EntryStore.Operations.{
  decode_metadata, get_metadata, get_entry, unwrap_or_default,
}
use oaa_s_io_t.Odgm.EntryStore.Ends.{IsReliableShard, held, IsValid, get_metadata-Ends}
use oaa_s_io_t.Odgm.EntryStore.Names.{IsName, same_key, entry-ne-metadata, entry_key-injective}
use oaa_s_io_t.Odgm.EntryStore.Reads.{
  get_entry-same, get_entry-absent, get_metadata-stored, metadata_decodes,
}
use oaa_s_io_t.Odgm.EntryStore.Writes.{IsStorable, next, increments, stored_whole}
use oaa_s_io_t.Odgm.EntryStore.Batch.{batch_delete_entries}
use oaa_s_io_t.Odgm.EntryStore.BatchDeleted.{
  present, remaining, gone, is_empty, gone-present, HasNames, swapped, counted,
  get-remaining_metadata, batch_delete-Ends,
}

module _ {c : Setting} (h : IsReliableShard c) (id : Bytes) where
  -- The entries at the end, at a key that the metadata does not use.
  counted_elsewhere :
      (found : Option ObjectMetadata) (deleted : List Bytes) (m : Entries) (k : Bytes)
      → build_metadata_key id ≢ k
      → BTreeMap.get (counted h id found deleted m) k ≡ BTreeMap.get m k
  counted_elsewhere found [] m k p = refl
  counted_elsewhere found (x ∷ deleted) m k p = rw (get-insert, key_eq-ne _ _ p) refl

  get-remaining :
      (key : Bytes) (keys : List Bytes) (m : Entries)
      → BTreeMap.get (remaining id keys m) key ≡ (
          if any_of (λ k. key_eq (build_entry_key id k) key) keys then none else BTreeMap.get m key)
  get-remaining key [] m = refl
  get-remaining key (k ∷ keys) m = get-remaining key keys _ ∙ rw get-remove (ground arith)

  version_after :
      (found : Option ObjectMetadata) (deleted : List Bytes) (m : Entries) (t : Shard c)
      → IsStorable (unwrap_or_default found)
      → decode_metadata c (BTreeMap.get m (build_metadata_key id)) ≡ done found
      → IsValid h t
      → held h t ≡ counted h id found deleted m
      → (get_metadata c id t).1 ≡ done (if is_empty deleted then found else some (next found))
  unfolding ObjectMetadata.increment_version
  version_after found [] m t st d v e = (get_metadata-Ends h id t d v e).result
  version_after found (k ∷ deleted) m t st d v e =
      get_metadata-stored h id (next found) t v
        (ap (λ (x : Entries). BTreeMap.get x (build_metadata_key id)) e
          ∙ rw (get-insert, key_eq_refl) refl)
        (stored_whole (next found) (increments _ st))

  any_same :
      (key : Bytes) (keys : List Bytes)
      → IsName id key
      → HasNames id keys
      → any_of (λ k. key_eq (build_entry_key id k) (build_entry_key id key)) keys
        ≡ any_of (λ k. key_eq k key) keys
  any_same key [] n ns = refl
  any_same key (k ∷ keys) n ns = rw (same_key id k key ns.0 n, any_same key keys n ns.1) refl

  any_other :
      (keys : List Bytes) (id' key' : Bytes)
      → HasNames id keys
      → IsName id' key'
      → id ≢ id'
      → any_of (λ k. key_eq (build_entry_key id k) (build_entry_key id' key')) keys ≡ false
  any_other [] id' key' ns n' other = refl
  any_other (k ∷ keys) id' key' ns n' other =
      rw
        (
          key_eq-ne _ _ (λ e. other (entry_key-injective id k id' key' ns.0 n' e).0),
          any_other keys id' key' ns.1 n' other,
        )
        refl

  get-others :
      (found : Option ObjectMetadata) (keys : List Bytes) (m : Entries) (id' key' : Bytes)
      → HasNames id keys
      → IsName id' key'
      → id ≢ id'
      → BTreeMap.get
          (counted h id found (gone id keys m) (remaining id keys m))
          (build_entry_key id' key')
        ≡ BTreeMap.get m (build_entry_key id' key')
  get-others found [] m id' key' ns n' other = refl
  get-others found (k ∷ keys) m id' key' ns n' other =
      counted_elsewhere found (gone id (k ∷ keys) m) (remaining id (k ∷ keys) m) _
        (λ q. entry-ne-metadata id' key' id k n' ns.0 (sym q))
      ∙ get-remaining _ (k ∷ keys) m
      ∙ rw (any_other (k ∷ keys) id' key' ns n' other) refl

  own_read :
      (key : Bytes) (s t : Shard c) (b : Bool)
      → IsValid h s
      → IsValid h t
      → BTreeMap.get (held h t) (build_entry_key id key)
        ≡ (if b then none else BTreeMap.get (held h s) (build_entry_key id key))
      → (get_entry c id key t).1 ≡ (if b then done none else (get_entry c id key s).1)
  own_read key s t true v u e = get_entry-absent h id key t u e
  own_read key s t false v u e = get_entry-same h id key t s u v e

  -- On a shard whose storage and replication layer do not fail, for identifiers and keys that are text
  -- and fit in a storage key: deleting a batch of keys of an object, where its metadata can be read, succeeds: none of the keys
  -- has an entry then, the version is one more if at least one of them had and the same if none had,
  -- and the other entries of the object and the entries of all others read as before.
  pub batch_delete_lem :
      (keys : List Bytes) (found : Option ObjectMetadata) (s : Shard c)
      → HasNames id keys
      → IsStorable (unwrap_or_default found)
      → IsValid h s
      → (get_metadata c id s).1 ≡ done found
      → (t : Shard c) × (batch_delete_entries c id keys s ≡ (t, done tt))
        × IsValid h t
        × ((key : Bytes)
            → IsName id key
            → (get_entry c id key t).1
              ≡ (if any_of (λ k. key_eq k key) keys then done none else (get_entry c id key s).1))
        × ((get_metadata c id t).1
            ≡ done (if any_of (present id (held h s)) keys then some (next found) else found))
        × ((id' key' : Bytes)
            → IsName id' key'
            → id ≢ id'
            → (get_entry c id' key' t).1 ≡ (get_entry c id' key' s).1)
  batch_delete_lem keys found s ns st v e =
      let m = held h s in
      let r = batch_delete-Ends h id keys found s ns v e in
      let t = (batch_delete_entries c id keys s).0 in
      let d : decode_metadata c (BTreeMap.get (remaining id keys m) (build_metadata_key id))
          ≡ done found =
        rw (get-remaining_metadata h id keys m ns) (metadata_decodes h id s v e) in
      let at = λ (key : Bytes) (n : IsName id key).
        ap (λ (x : Entries). BTreeMap.get x (build_entry_key id key)) r.stored
        ∙ counted_elsewhere found (gone id keys m) (remaining id keys m) (build_entry_key id key)
            (λ q. entry-ne-metadata id key id key n n (sym q))
        ∙ get-remaining (build_entry_key id key) keys m in
      (
        t,
        ap (λ (x : Fallible ShardError (Unit {0})). (t, x)) r.result,
        r.valid,
        λ key n. own_read key s t _ v r.valid (at key n ∙ rw (any_same key keys n ns) refl),
        version_after found (gone id keys m) (remaining id keys m) t st d r.valid r.stored
            ∙ rw (gone-present id keys m)
                (ap done (swapped (any_of (present id m) keys) found (some (next found)))),
        λ id' key' n' other. get_entry-same h id' key' t s r.valid v (
            ap (λ (x : Entries). BTreeMap.get x (build_entry_key id' key')) r.stored
            ∙ get-others found keys m id' key' ns n' other),
      )
