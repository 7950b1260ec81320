-- ===== src/Odgm/GranularKey/RoundTrip.antt =====
-- Which record a granular key names.
use oaa_s_io_t.Prelude.{◌<◌, ◌≡◌, refl, true, false, length}
use oaa_s_io_t.Std.Bytes.{Bytes}
use oaa_s_io_t.Std.Utf8.{is_utf8}
use oaa_s_io_t.Storage.Stats.{u64_mod}
use oaa_s_io_t.Odgm.StorageKey.{found}
use oaa_s_io_t.Odgm.StorageKey.RoundTrip.{IsIdText, parse-build}
use oaa_s_io_t.Odgm.GranularKey.{
  build_entry_key, build_metadata_key, parse_granular_key, metadata, entry, is_metadata_key,
  is_entry_key,
}

-- The built metadata and entry keys parse to the object and record that they were built for, and
-- each of the two tests accepts its own kind of key and rejects the other: under the conditions of
-- the storage-key parser on the identifier, the entry key and the length.
pub classify :
    (id key : Bytes)
    → IsIdText id
    → is_utf8 key ≡ true
    → length (build_entry_key id key) < u64_mod
    → (parse_granular_key (build_metadata_key id) ≡ found (id, metadata))
      × (parse_granular_key (build_entry_key id key) ≡ found (id, entry key))
      × (is_metadata_key (build_metadata_key id) ≡ found true)
      × (is_metadata_key (build_entry_key id key) ≡ found false)
      × (is_entry_key (build_entry_key id key) ≡ found true)
      × (is_entry_key (build_metadata_key id) ≡ found false)
unfolding build_entry_key build_metadata_key parse_granular_key is_metadata_key is_entry_key
classify id key h u fits =
    let (meta_key, _, entry_key) = parse-build id key h u fits in
    (
      rw (meta_key, parse_granular_key) refl,
      rw (entry_key, parse_granular_key) refl,
      rw (meta_key, parse_granular_key, is_metadata_key) refl,
      rw (entry_key, parse_granular_key, is_metadata_key) refl,
      rw (entry_key, parse_granular_key, is_entry_key) refl,
      rw (meta_key, parse_granular_key, is_entry_key) refl,
    )
