-- ===== src/Odgm/EntryStore/Entries.antt =====
-- How `set_entry` and `delete_entry` end.
use oaa_s_io_t.Prelude.{◌≡◌, ◌≢◌, refl, Option, if◌then◌else◌, Bool-cases, inl, inr}
use oaa_s_io_t.Std.Bytes.{Bytes, bytes_ord}
use oaa_s_io_t.Std.Order.{key_eq-ne}
use oaa_s_io_t.Std.BTreeMap
use oaa_s_io_t.Std.BTreeMap.Laws.{get-insert, get-remove}
use oaa_s_io_t.Storage.Contract.{Entries}
use oaa_s_io_t.Odgm.Fallible.{done}
use oaa_s_io_t.Odgm.GranularKey.{build_entry_key, build_metadata_key}
use oaa_s_io_t.Odgm.ObjectMetadata.{ObjectMetadata}
use oaa_s_io_t.Odgm.Replication.{write, delete, plain_write}
use oaa_s_io_t.Odgm.Replication.Spec.{replay}
use oaa_s_io_t.Odgm.EntryStore.Types.{Setting, Shard, Val}
use oaa_s_io_t.Odgm.EntryStore.Operations.{
  replicate, decode_metadata, set_entry, delete_entry, bump_version, count_write, existed,
}
use oaa_s_io_t.Odgm.EntryStore.Ends.{
  IsReliableShard, held, IsValid, Ends, Ends-here, app_exists-Ends, replicate-Ends, bumped,
  bump_version-Ends, notify-Ends, existed-Ends,
}

module _ {c : Setting} (h : IsReliableShard c) where
  -- The entries after a write of one entry.
  abbrev pub entry_set : Bytes → Bytes → Bytes → Option ObjectMetadata → Entries → Entries
  entry_set id key value found m =
      bumped h id found (BTreeMap.insert m (build_entry_key id key) value)

  pub set_entry-Ends :
      (id key : Bytes) (value : Val c) (value_bytes : Bytes) (s : Shard c) {m : Entries}
      {found : Option ObjectMetadata}
      → c.formats.to_allocvec value ≡ done value_bytes
      → build_entry_key id key ≢ build_metadata_key id
      → decode_metadata c (BTreeMap.get m (build_metadata_key id)) ≡ done found
      → IsValid h s
      → held h s ≡ m
      → Ends h tt (entry_set id key value_bytes found m) (set_entry c id key value s)
  unfolding set_entry replay
  set_entry-Ends id key value value_bytes s {m} {found} enc ne d v e =
      let ek = build_entry_key id key in
      let a = existed-Ends h ek s v e in
      let b =
        replicate-Ends h (write (plain_write ek value_bytes)) (existed c ek s).0 refl a.valid
          a.stored in
      let d' : decode_metadata c
            (BTreeMap.get (BTreeMap.insert m ek value_bytes) (build_metadata_key id))
          ≡ done found =
        rw (get-insert m ek (build_metadata_key id) value_bytes, key_eq-ne _ _ ne) d in
      let s1 = (replicate c (write (plain_write ek value_bytes)) (existed c ek s).0).0 in
      let t = bump_version-Ends h id s1 d' b.valid b.stored in
      let s2 = (count_write c (bump_version c id s1).0).0 in
      rw (enc, a.result, b.result, t.result) (notify-Ends h id _ _ _ s2 t.valid t.stored)

  -- The entries after a delete of one entry.
  abbrev pub entry_deleted : Bytes → Bytes → Option ObjectMetadata → Entries → Entries
  entry_deleted id key found m =
      if BTreeMap.contains_key m (build_entry_key id key)
      then bumped h id found (BTreeMap.remove m (build_entry_key id key))
      else m

  pub delete_entry-Ends :
      (id key : Bytes) (s : Shard c) {m : Entries} {found : Option ObjectMetadata}
      → build_entry_key id key ≢ build_metadata_key id
      → decode_metadata c (BTreeMap.get m (build_metadata_key id)) ≡ done found
      → IsValid h s
      → held h s ≡ m
      → Ends h tt (entry_deleted id key found m) (delete_entry c id key s)
  unfolding delete_entry replay
  delete_entry-Ends id key s {m} {found} ne d v e =
      let ek = build_entry_key id key in
      let a = app_exists-Ends h ek s v e in
      let b = replicate-Ends h (delete ek) s tt v e in
      let d' : decode_metadata c (BTreeMap.get (BTreeMap.remove m ek) (build_metadata_key id))
          ≡ done found =
        rw (get-remove m ek (build_metadata_key id), key_eq-ne _ _ ne) d in
      let s1 = (replicate c (delete ek) s).0 in
      let t = bump_version-Ends h id s1 d' b.valid b.stored in
      rw a.result (elim (Bool-cases (BTreeMap.contains_key m ek)) [
        | inl there ↦
            rw (there, b.result, t.result)
              record { valid = t.valid; stored = t.stored; result = refl }
        | inr absent ↦ rw absent (Ends-here h tt s v e)
      ])
