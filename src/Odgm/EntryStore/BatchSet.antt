-- ===== src/Odgm/EntryStore/BatchSet.antt =====
-- What `batch_set_entries` does: the version check, the writes, and the new version.
use oaa_s_io_t.Prelude.{
  ℕ, ◌≡◌, ◌≢◌, refl, sym, ap, ◌∙◌, [], ◌∷◌, Option, none, some, arith, if◌then◌else◌,
}
use oaa_s_io_t.Std.Bytes.{Bytes, bytes_ord}
use oaa_s_io_t.Std.Order.{key_eq, key_eq_refl, key_eq-ne}
use oaa_s_io_t.Std.BTreeMap
use oaa_s_io_t.Std.BTreeMap.Laws.{get-insert}
use oaa_s_io_t.Storage.Contract.{Entries}
use oaa_s_io_t.Odgm.Fallible.{Fallible, done}
use oaa_s_io_t.Odgm.GranularKey.{build_entry_key, build_metadata_key}
use oaa_s_io_t.Odgm.ObjectMetadata
use oaa_s_io_t.Odgm.ObjectMetadata.{ObjectMetadata}
use oaa_s_io_t.Odgm.EntryStore.Types.{Setting, Shard, ShardError, Val}
use oaa_s_io_t.Odgm.EntryStore.Operations.{get_metadata, get_entry, unwrap_or_default}
use oaa_s_io_t.Odgm.EntryStore.Ends.{IsReliableShard, held, IsValid}
use oaa_s_io_t.Odgm.EntryStore.Names.{
  IsName, same_key, entry-ne-metadata, entry_key-injective, metadata_key-injective,
}
use oaa_s_io_t.Odgm.EntryStore.Reads.{
  get_entry-same, get_entry-stored, get_metadata-same, get_metadata-stored,
}
use oaa_s_io_t.Odgm.EntryStore.Writes.{IsStorable, next, increments, stored_whole}
use oaa_s_io_t.Odgm.EntryStore.Batch.{Values, version_matches, batch_set_entries}
use oaa_s_io_t.Odgm.EntryStore.BatchWritten.{Encodes, written, batch_set-Ends}

module _ {c : Setting} (h : IsReliableShard c) (codec : Encodes c) (id : Bytes) where
  abbrev pub HasNames : Values c → Type 0
  HasNames [] = Unit {0}
  HasNames ((k, v) ∷ values) = IsName id k × HasNames values

  -- The value that a key of the batch is set to; the last, if a key came twice.
  abbrev pub value_of : Bytes → Values c → Option (Val c)
  value_of key [] = none
  value_of key ((j, v) ∷ values) = elim (value_of key values) [
    | some w ↦ some w
    | none ↦ if key_eq j key then some v else none
  ]

  abbrev or_encoded : Option (Val c) → Option Bytes → Option Bytes
  or_encoded none old = old
  or_encoded (some v) old = some (codec v).0

  get-written :
      (key : Bytes) (values : Values c) (meta : Bytes) (m : Entries)
      → IsName id key
      → HasNames values
      → BTreeMap.get (written h codec id values meta m) (build_entry_key id key)
        ≡ or_encoded (value_of key values) (BTreeMap.get m (build_entry_key id key))
  get-written key [] meta m n ns =
      rw (get-insert, key_eq-ne _ _ (λ e. entry-ne-metadata id key id key n n (sym e))) refl
  get-written key ((j, v) ∷ values) meta m n ns =
      get-written key values meta (BTreeMap.insert m (build_entry_key id j) (codec v).0) n ns.1
      ∙ rw (get-insert, same_key id j key ns.0 n) (ground (arith))

  get-written_metadata :
      (values : Values c) (meta : Bytes) (m : Entries)
      → BTreeMap.get (written h codec id values meta m) (build_metadata_key id) ≡ some meta
  get-written_metadata [] meta m = rw (get-insert, key_eq_refl) refl
  get-written_metadata ((j, v) ∷ values) meta m = get-written_metadata values meta _

  get-written_elsewhere :
      (k : Bytes) (values : Values c) (meta : Bytes) (m : Entries)
      → build_metadata_key id ≢ k
      → ((j : Bytes) → IsName id j → build_entry_key id j ≢ k)
      → HasNames values
      → BTreeMap.get (written h codec id values meta m) k ≡ BTreeMap.get m k
  get-written_elsewhere k [] meta m p q ns = rw (get-insert, key_eq-ne _ _ p) refl
  get-written_elsewhere k ((j, v) ∷ values) meta m p q ns =
      get-written_elsewhere k values meta _ p q ns.1
      ∙ rw (get-insert, key_eq-ne _ _ (q j ns.0)) refl

  -- What a batch of values leaves behind: each entry of the object holds the value that it was set
  -- to, or what it held; the version is one more; and other objects read as before.
  pub record HasBatch (values : Values c) (found : Option ObjectMetadata) (s t : Shard c)
      : Type 0 where
    pub set :
        (key : Bytes) (v : Val c)
        → IsName id key
        → value_of key values ≡ some v
        → (get_entry c id key t).1 ≡ done (some v)
    pub unset :
        (key : Bytes)
        → IsName id key
        → value_of key values ≡ none
        → (get_entry c id key t).1 ≡ (get_entry c id key s).1
    pub metadata : (get_metadata c id t).1 ≡ done (some (next found))
    pub other_entries :
        (id' key' : Bytes)
        → IsName id' key'
        → id ≢ id'
        → (get_entry c id' key' t).1 ≡ (get_entry c id' key' s).1
    pub other_metadata :
        (id' key' : Bytes)
        → IsName id' key'
        → id ≢ id'
        → (get_metadata c id' t).1 ≡ (get_metadata c id' s).1

  -- On a shard whose storage and replication layer do not fail, for identifiers and keys that are text
  -- and fit in a storage key: setting a batch of at least one value, where the metadata can be read and the expected version, if
  -- one is given, is the stored one, succeeds and returns the new version: each entry of the object
  -- then holds the value that it was set to, or what it held before, the metadata has the new
  -- version, and the entries and the metadata of other objects read as before.
  pub batch_set_lem :
      (k : Bytes) (w : Val c) (values : Values c) (expected : Option ℕ)
      (found : Option ObjectMetadata) (s : Shard c)
      → HasNames ((k, w) ∷ values)
      → IsStorable (unwrap_or_default found)
      → IsValid h s
      → (get_metadata c id s).1 ≡ done found
      → version_matches expected (unwrap_or_default found).object_version ≡ done tt
      → (t : Shard c) × (batch_set_entries c id ((k, w) ∷ values) expected s
          ≡ (t, done (next found).object_version))
        × IsValid h t
        × HasBatch ((k, w) ∷ values) found s t
  unfolding ObjectMetadata.increment_version
  batch_set_lem k w values expected found s ns st v e matches =
      let all = (k, w) ∷ values in
      let meta = ObjectMetadata.to_bytes (next found) in
      let t = (batch_set_entries c id all expected s).0 in
      let r = batch_set-Ends h codec id k w values expected found s e matches v in
      let at = λ (key : Bytes). ap (λ (m : Entries). BTreeMap.get m key) r.stored in
      (
        t,
        ap (λ (x : Fallible ShardError ℕ). (t, x)) r.result,
        r.valid,
        record {
          set = λ key x n is_set.
              get_entry-stored h id key x (codec x).0 t r.valid
                (at _ ∙ get-written key all meta (held h s) n ns ∙ rw is_set refl) (codec x).2;
          unset = λ key n not_set.
              get_entry-same h id key t s r.valid v
                (at _ ∙ get-written key all meta (held h s) n ns ∙ rw not_set refl);
          metadata =
              get_metadata-stored h id (next found) t r.valid
                (at _ ∙ get-written_metadata all meta (held h s))
                (stored_whole (next found) (increments _ st));
          other_entries = λ id' key' n' other. get_entry-same h id' key' t s r.valid v (
              at _
              ∙ get-written_elsewhere _ all meta (held h s)
                  (λ x. entry-ne-metadata id' key' id k n' ns.0 (sym x))
                  (λ j nj x. other (entry_key-injective id j id' key' nj n' x).0) ns);
          other_metadata = λ id' key' n' other. get_metadata-same h id' t s r.valid v (
              at _
              ∙ get-written_elsewhere _ all meta (held h s)
                  (λ x. other (metadata_key-injective id k id' key' ns.0 n' x))
                  (λ j nj x. entry-ne-metadata id j id' key' nj n' x) ns);
        },
      )
