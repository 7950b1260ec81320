-- ===== src/Odgm/EntryStore/Reads.antt =====
-- What the reads of the entry store give, in terms of the stored entries.
use oaa_s_io_t.Prelude.{◌≡◌, refl, Option, none, some, arith}
use oaa_s_io_t.Std.Bytes.{Bytes, bytes_ord}
use oaa_s_io_t.Std.BTreeMap
use oaa_s_io_t.Storage.Contract.Application.{}
use oaa_s_io_t.Odgm.Fallible.{done}
use oaa_s_io_t.Odgm.GranularKey.{build_entry_key, build_metadata_key}
use oaa_s_io_t.Odgm.ObjectMetadata
use oaa_s_io_t.Odgm.ObjectMetadata.{ObjectMetadata}
use oaa_s_io_t.Odgm.Replication.Performs.{}
use oaa_s_io_t.Odgm.EntryStore.Types.{Setting, Shard, Val}
use oaa_s_io_t.Odgm.EntryStore.Operations.{decode_metadata, decode_entry, get_metadata, get_entry}
use oaa_s_io_t.Odgm.EntryStore.Ends.{IsReliableShard, held, IsValid}

module _ {c : Setting} (h : IsReliableShard c) where
  -- What a read gives is determined by the entries.
  decode_entry_result :
      (found : Option Bytes) (s t : Shard c)
      → (decode_entry c found s).1 ≡ (decode_entry c found t).1
  decode_entry_result none s t = refl
  decode_entry_result (some value) s t = ground arith

  pub get_entry-same :
      (id key : Bytes) (s t : Shard c)
      → IsValid h s
      → IsValid h t
      → BTreeMap.get (held h s) (build_entry_key id key)
        ≡ BTreeMap.get (held h t) (build_entry_key id key)
      → (get_entry c id key s).1 ≡ (get_entry c id key t).1
  unfolding get_entry
  get_entry-same id key s t v u same =
      rw
        (
          h.app.base.get_lem s.storage (build_entry_key id key) v,
          h.app.base.get_lem t.storage (build_entry_key id key) u,
          same,
        )
        (decode_entry_result _ s t)

  pub get_entry-stored :
      (id key : Bytes) (value : Val c) (bytes : Bytes) (s : Shard c)
      → IsValid h s
      → BTreeMap.get (held h s) (build_entry_key id key) ≡ some bytes
      → c.formats.from_bytes bytes ≡ some value
      → (get_entry c id key s).1 ≡ done (some value)
  unfolding get_entry
  get_entry-stored id key value bytes s v there dec =
      rw (h.app.base.get_lem s.storage (build_entry_key id key) v, there, decode_entry, dec) refl

  pub get_entry-absent :
      (id key : Bytes) (s : Shard c)
      → IsValid h s
      → BTreeMap.get (held h s) (build_entry_key id key) ≡ none
      → (get_entry c id key s).1 ≡ done none
  unfolding get_entry
  get_entry-absent id key s v absent =
      rw (h.app.base.get_lem s.storage (build_entry_key id key) v, absent) refl

  pub get_metadata-same :
      (id : Bytes) (s t : Shard c)
      → IsValid h s
      → IsValid h t
      → BTreeMap.get (held h s) (build_metadata_key id)
        ≡ BTreeMap.get (held h t) (build_metadata_key id)
      → (get_metadata c id s).1 ≡ (get_metadata c id t).1
  unfolding get_metadata
  get_metadata-same id s t v u same =
      rw
        (
          h.app.base.get_lem s.storage (build_metadata_key id) v,
          h.app.base.get_lem t.storage (build_metadata_key id) u,
          same,
        )
        refl

  pub get_metadata-stored :
      (id : Bytes) (meta : ObjectMetadata) (s : Shard c)
      → IsValid h s
      → BTreeMap.get (held h s) (build_metadata_key id) ≡ some (ObjectMetadata.to_bytes meta)
      → ObjectMetadata.from_bytes (ObjectMetadata.to_bytes meta) ≡ some meta
      → (get_metadata c id s).1 ≡ done (some meta)
  unfolding get_metadata
  get_metadata-stored id meta s v there dec =
      rw (h.app.base.get_lem s.storage (build_metadata_key id) v, there, decode_metadata, dec) refl

  pub metadata_decodes :
      (id : Bytes) (s : Shard c) {found : Option ObjectMetadata}
      → IsValid h s
      → (get_metadata c id s).1 ≡ done found
      → decode_metadata c (BTreeMap.get (held h s) (build_metadata_key id)) ≡ done found
  unfolding get_metadata
  metadata_decodes id s v e = rw (h.app.base.get_lem s.storage (build_metadata_key id) v) at e
