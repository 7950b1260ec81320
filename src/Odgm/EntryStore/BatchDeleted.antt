-- ===== src/Odgm/EntryStore/BatchDeleted.antt =====
-- The parts of `batch_delete_entries` on the entries of a storage that does not fail: the keys that
-- go, one by one, and the one increment of the version.
use oaa_s_io_t.Prelude.{
  ◌≡◌, refl, sym, ◌∙◌, List, [], ◌∷◌, Bool, true, false, not, Option, if◌then◌else◌, Bool-cases,
  inl, inr, map, any_of,
}
use oaa_s_io_t.Std.Bytes.{Bytes, bytes_ord}
use oaa_s_io_t.Std.Order.{key_eq-ne}
use oaa_s_io_t.Std.BTreeMap
use oaa_s_io_t.Std.BTreeMap.Laws.{get-remove}
use oaa_s_io_t.Std.BTreeMap.Retain.{remove-absent}
use oaa_s_io_t.Storage.Contract.{Entries}
use oaa_s_io_t.Odgm.Fallible.{done}
use oaa_s_io_t.Odgm.GranularKey.{build_entry_key, build_metadata_key}
use oaa_s_io_t.Odgm.ObjectMetadata.{ObjectMetadata}
use oaa_s_io_t.Odgm.Replication.{delete}
use oaa_s_io_t.Odgm.Replication.Spec.{replay}
use oaa_s_io_t.Odgm.EntryStore.Types.{Setting, Shard}
use oaa_s_io_t.Odgm.EntryStore.Operations.{
  decode_metadata, get_metadata, replicate, bump_version, count_delete,
}
use oaa_s_io_t.Odgm.EntryStore.Ends.{
  IsReliableShard, held, IsValid, Ends, Ends-here, app_exists-Ends, replicate-Ends,
  bump_version-Ends, notify-Ends, bumped,
}
use oaa_s_io_t.Odgm.EntryStore.Names.{IsName, entry-ne-metadata}
use oaa_s_io_t.Odgm.EntryStore.Reads.{metadata_decodes}
use oaa_s_io_t.Odgm.EntryStore.Writes.{get-missing}
use oaa_s_io_t.Odgm.EntryStore.Batch.{delete_loop, finish_delete, batch_delete_entries, deleted_key}

abbrev pub present : Bytes → Entries → Bytes → Bool
present id m k = BTreeMap.contains_key m (build_entry_key id k)

abbrev pub remaining : Bytes → List Bytes → Entries → Entries
remaining id [] m = m
remaining id (k ∷ keys) m = remaining id keys (BTreeMap.remove m (build_entry_key id k))

abbrev pub gone : Bytes → List Bytes → Entries → List Bytes
gone id [] m = []
gone id (k ∷ keys) m =
    let rest = gone id keys (BTreeMap.remove m (build_entry_key id k)) in
    if present id m k then k ∷ rest else rest

abbrev pub is_empty : List Bytes → Bool
is_empty [] = true
is_empty (k ∷ keys) = false

absent_removed :
    (id k : Bytes) (m : Entries)
    → present id m k ≡ false
    → BTreeMap.remove m (build_entry_key id k) ≡ m
absent_removed id k m e = remove-absent m (build_entry_key id k) (get-missing m _ e)

pub gone-present :
    (id : Bytes) (keys : List Bytes) (m : Entries)
    → is_empty (gone id keys m) ≡ not (any_of (present id m) keys)
gone-present id [] m = refl
gone-present id (k ∷ keys) m = elim (Bool-cases (present id m k)) [
  | inl there ↦ rw there refl
  | inr absent ↦ rw (absent, absent_removed id k m absent) (gone-present id keys m)
]

abbrev pub HasNames : Bytes → List Bytes → Type 0
HasNames id [] = Unit {0}
HasNames id (k ∷ keys) = IsName id k × HasNames id keys

pub swapped {ℓ} :
    {A : Type ℓ} (b : Bool) (x y : A) → (if not b then x else y) ≡ (if b then y else x)
swapped true x y = refl
swapped false x y = refl

module _ {c : Setting} (h : IsReliableShard c) (id : Bytes) where
  delete_step-Ends :
      (k : Bytes) (s : Shard c) {m : Entries}
      → IsValid h s
      → held h s ≡ m
      → present id m k ≡ true
      → Ends h tt
          (BTreeMap.remove m (build_entry_key id k))
          (replicate c (delete (build_entry_key id k)) s)
  unfolding replay
  delete_step-Ends k s v e there = replicate-Ends h (delete (build_entry_key id k)) s tt v e

  delete_loop-Ends :
      (keys : List Bytes) (s : Shard c) {m : Entries}
      → IsValid h s
      → held h s ≡ m
      → Ends h (gone id keys m) (remaining id keys m) (delete_loop c id keys s)
  unfolding delete_loop
  delete_loop-Ends [] s v e = Ends-here h [] s v e
  delete_loop-Ends (k ∷ keys) s {m} v e =
      let a = app_exists-Ends h (build_entry_key id k) s v e in
      elim (Bool-cases (present id m k)) [
        | inl there ↦
            let d = delete_step-Ends k s v e there in
            let r =
              delete_loop-Ends keys
                (count_delete c (replicate c (delete (build_entry_key id k)) s).0).0 d.valid
                d.stored in
            rw (a.result, there, d.result, r.result)
              record { valid = r.valid; stored = r.stored; result = refl }
        | inr absent ↦
            let r = delete_loop-Ends keys s v (e ∙ sym (absent_removed id k m absent)) in
            rw (a.result, absent, r.result)
              record { valid = r.valid; stored = r.stored; result = refl }
      ]

  abbrev pub counted : Option ObjectMetadata → List Bytes → Entries → Entries
  counted found [] m = m
  counted found (k ∷ deleted) m = bumped h id found m

  finish_delete-Ends :
      (deleted : List Bytes) (s : Shard c) {m : Entries} {found : Option ObjectMetadata}
      → decode_metadata c (BTreeMap.get m (build_metadata_key id)) ≡ done found
      → IsValid h s
      → held h s ≡ m
      → Ends h tt (counted found deleted m) (finish_delete c id deleted s)
  finish_delete-Ends [] s d v e = Ends-here h tt s v e
  finish_delete-Ends (k ∷ deleted) s d v e =
      let b = bump_version-Ends h id s d v e in
      rw b.result (
        notify-Ends h id _ _ (map (deleted_key c) (k ∷ deleted)) (bump_version c id s).0 b.valid
          b.stored)

  pub get-remaining_metadata :
      (keys : List Bytes) (m : Entries)
      → HasNames id keys
      → BTreeMap.get (remaining id keys m) (build_metadata_key id)
        ≡ BTreeMap.get m (build_metadata_key id)
  get-remaining_metadata [] m ns = refl
  get-remaining_metadata (k ∷ keys) m ns =
      get-remaining_metadata keys _ ns.1
      ∙ rw (get-remove, key_eq-ne _ _ (entry-ne-metadata id k id k ns.0 ns.0)) refl

  pub batch_delete-Ends :
      (keys : List Bytes) (found : Option ObjectMetadata) (s : Shard c)
      → HasNames id keys
      → IsValid h s
      → (get_metadata c id s).1 ≡ done found
      → Ends h tt
          (counted found (gone id keys (held h s)) (remaining id keys (held h s)))
          (batch_delete_entries c id keys s)
  unfolding batch_delete_entries
  batch_delete-Ends keys found s ns v e =
      let l = delete_loop-Ends keys s v refl in
      let d =
        finish_delete-Ends (gone id keys (held h s)) (delete_loop c id keys s).0 {found = found}
          (rw (get-remaining_metadata keys (held h s) ns) (metadata_decodes h id s v e)) l.valid
          l.stored in
      rw l.result d
