-- ===== src/Odgm/EntryStore/Writes.antt =====
-- The effect of `set_entry` and `delete_entry` as the reads see it.
use oaa_s_io_t.Prelude.{
  ◌+◌, ◌-◌, min, ◌%◌, ◌^◌, ◌<◌, ◌≡◌, ◌≢◌, refl, sym, ◌∙◌, ap, false, Option, none, some, length,
  take, arith, List, [], ◌∷◌, if◌then◌else◌, Bool-cases, inl, inr,
}
use oaa_s_io_t.Std.Bytes.{Bytes, bytes_ord}
use oaa_s_io_t.Std.Order.{key_eq_refl, key_eq-ne}
use oaa_s_io_t.Std.BTreeMap
use oaa_s_io_t.Std.BTreeMap.Laws.{get-insert, get-remove}
use oaa_s_io_t.Storage.Stats.{u64_mod}
use oaa_s_io_t.Storage.Contract.{Entries}
use oaa_s_io_t.Odgm.Fallible.{Fallible, done}
use oaa_s_io_t.Odgm.GranularKey.{build_entry_key, build_metadata_key}
use oaa_s_io_t.Odgm.ObjectMetadata
use oaa_s_io_t.Odgm.ObjectMetadata.{ObjectMetadata}
use oaa_s_io_t.Odgm.ObjectMetadata.RoundTrip.{AreShort, from_bytes-to_bytes}
use oaa_s_io_t.Odgm.EntryStore.Types.{Setting, Shard, ShardError, Val}
use oaa_s_io_t.Odgm.EntryStore.Operations.{
  get_metadata, get_entry, set_entry, delete_entry, unwrap_or_default,
}
use oaa_s_io_t.Odgm.EntryStore.Ends.{IsReliableShard, held, IsValid, bumped}
use oaa_s_io_t.Odgm.EntryStore.Entries.{set_entry-Ends, delete_entry-Ends}
use oaa_s_io_t.Odgm.EntryStore.Names.{
  IsName, entry-ne-metadata, entry_key-injective, metadata_key-injective,
}
use oaa_s_io_t.Odgm.EntryStore.Reads.{
  get_entry-same, get_entry-stored, get_entry-absent, get_metadata-same, get_metadata-stored,
  metadata_decodes,
}

-- Metadata that its byte format holds.
pub record IsStorable (m : ObjectMetadata) : Type 0 where
  pub version : m.object_version < u64_mod
  pub short : AreShort m.attributes
  pub few : length m.attributes < 2 ^ 16

take-length {ℓ} : {A : Type ℓ} (l : List A) → take (length l) l ≡ l
take-length [] = refl
take-length {A = A} (x ∷ l) = ap (λ (t : List A). x ∷ t) (take-length l)

pub increments :
    (m : ObjectMetadata) → IsStorable m → IsStorable (ObjectMetadata.increment_version m)
unfolding ObjectMetadata.increment_version
increments m s = record { version = omega arith; short = s.short; few = s.few }

pub stored_whole :
    (m : ObjectMetadata)
    → IsStorable m
    → ObjectMetadata.from_bytes (ObjectMetadata.to_bytes m) ≡ some m
stored_whole m s =
    let all : length m.attributes % 2 ^ 16 ≡ length m.attributes = omega (arith, s.few) in
    from_bytes-to_bytes m s.version s.short ∙ rw (all, take-length m.attributes) refl

-- The metadata after one mutation: the version is one more, and stops at the greatest `u64`; the rest
-- is as it was.
abbrev pub next : Option ObjectMetadata → ObjectMetadata
next found =
    let m = unwrap_or_default found in
    record m { object_version = min (m.object_version + 1) (u64_mod - 1) }

abbrev pub OtherEntry : Bytes → Bytes → Bytes → Bytes → Type 0
OtherEntry id key id' key' = ¬ ((id ≡ id') × (key ≡ key'))

entry-ne :
    (id key id' key' : Bytes)
    → IsName id key
    → IsName id' key'
    → OtherEntry id key id' key'
    → build_entry_key id key ≢ build_entry_key id' key'
entry-ne id key id' key' n n' other e = other (entry_key-injective id key id' key' n n' e)

pub get-missing :
    (m : Entries) (k : Bytes) → BTreeMap.contains_key m k ≡ false → BTreeMap.get m k ≡ none
unfolding BTreeMap.contains_key
get-missing m k e = ground arith

module _ {c : Setting} (h : IsReliableShard c) (id key : Bytes) (n : IsName id key) where
  -- What no operation on this entry changes: the other entries, and the metadata of other objects.
  pub record KeepsOthers (s t : Shard c) : Type 0 where
    pub entries :
        (id' key' : Bytes)
        → IsName id' key'
        → OtherEntry id key id' key'
        → (get_entry c id' key' t).1 ≡ (get_entry c id' key' s).1
    pub metadata :
        (id' key' : Bytes)
        → IsName id' key'
        → id ≢ id'
        → (get_metadata c id' t).1 ≡ (get_metadata c id' s).1

  keeps_of :
      (s t : Shard c)
      → IsValid h s
      → IsValid h t
      → ((k : Bytes)
          → build_entry_key id key ≢ k
          → build_metadata_key id ≢ k
          → BTreeMap.get (held h t) k ≡ BTreeMap.get (held h s) k)
      → KeepsOthers s t
  keeps_of s t v u same = record {
    entries = λ id' key' n' other. get_entry-same h id' key' t s u v (
        same _ (entry-ne id key id' key' n n' other)
          (λ e. entry-ne-metadata id' key' id key n' n (sym e)));
    metadata = λ id' key' n' other. get_metadata-same h id' t s u v (
        same _ (entry-ne-metadata id key id' key' n n')
          (λ e. other (metadata_key-injective id key id' key' n n' e)));
  }

  -- On a shard whose storage and replication layer do not fail, for identifiers and keys that are text
  -- and fit in a storage key: setting an entry of an object succeeds, where its metadata can be read and its value encoded so
  -- that it can be decoded again: the entry then holds the value, the object's version is one more
  -- (it stops at the greatest `u64`), and every other entry, of this object and of all others, and
  -- the metadata of every other object read as before.
  pub set_entry_lem :
      (value : Val c) (value_bytes : Bytes) (found : Option ObjectMetadata) (s : Shard c)
      → c.formats.to_allocvec value ≡ done value_bytes
      → c.formats.from_bytes value_bytes ≡ some value
      → IsStorable (unwrap_or_default found)
      → IsValid h s
      → (get_metadata c id s).1 ≡ done found
      → (t : Shard c) × (set_entry c id key value s ≡ (t, done tt))
        × IsValid h t
        × ((get_entry c id key t).1 ≡ done (some value))
        × ((get_metadata c id t).1 ≡ done (some (next found)))
        × KeepsOthers s t
  unfolding ObjectMetadata.increment_version
  set_entry_lem value value_bytes found s enc dec st v e =
      let ne = entry-ne-metadata id key id key n n in
      let w =
        set_entry-Ends h id key value value_bytes s enc ne (metadata_decodes h id s v e) v refl in
      let t = (set_entry c id key value s).0 in
      let at = λ (k : Bytes). ap (λ (m : Entries). BTreeMap.get m k) w.stored in
      (
        t,
        ap (λ (r : Fallible ShardError (Unit {0})). (t, r)) w.result,
        w.valid,
        get_entry-stored h id key value value_bytes t w.valid
            (at _ ∙ rw (get-insert, key_eq-ne _ _ (λ e. ne (sym e)), get-insert, key_eq_refl) refl)
            dec,
        get_metadata-stored h id (next found) t w.valid (at _ ∙ rw (get-insert, key_eq_refl) refl)
            (stored_whole (next found) (increments _ st)),
        keeps_of s t v w.valid
            (λ k p q. at k ∙ rw (get-insert, key_eq-ne _ _ q, get-insert, key_eq-ne _ _ p) refl),
      )

  -- On a shard whose storage and replication layer do not fail, for identifiers and keys that are text
  -- and fit in a storage key: deleting an entry of an object whose metadata can be read succeeds: the entry then is missing,
  -- the object's version is one more if the entry was there and the same if not, and every other
  -- entry and the metadata of every other object read as before.
  pub delete_entry_lem :
      (found : Option ObjectMetadata) (s : Shard c)
      → IsStorable (unwrap_or_default found)
      → IsValid h s
      → (get_metadata c id s).1 ≡ done found
      → (t : Shard c) × (delete_entry c id key s ≡ (t, done tt))
        × IsValid h t
        × ((get_entry c id key t).1 ≡ done none)
        × ((get_metadata c id t).1
            ≡ done (
                if BTreeMap.contains_key (held h s) (build_entry_key id key)
                then some (next found)
                else found))
        × KeepsOthers s t
  unfolding ObjectMetadata.increment_version
  delete_entry_lem found s st v e =
      let ek = build_entry_key id key in
      let ne = entry-ne-metadata id key id key n n in
      let w = delete_entry-Ends h id key s ne (metadata_decodes h id s v e) v refl in
      let t = (delete_entry c id key s).0 in
      let result = ap (λ (r : Fallible ShardError (Unit {0})). (t, r)) w.result in
      elim (Bool-cases (BTreeMap.contains_key (held h s) ek)) [
        | inl there ↦
            let stored : held h t ≡ bumped h id found (BTreeMap.remove (held h s) ek) =
              w.stored ∙ rw there refl in
            let at = λ (k : Bytes). ap (λ (m : Entries). BTreeMap.get m k) stored in
            (
              t,
              result,
              w.valid,
              get_entry-absent h id key t w.valid (
                  at ek
                  ∙ rw (get-insert, key_eq-ne _ _ (λ e. ne (sym e)), get-remove, key_eq_refl) refl),
              rw there (
                  get_metadata-stored h id (next found) t w.valid
                    (at _ ∙ rw (get-insert, key_eq_refl) refl)
                    (stored_whole (next found) (increments _ st))),
              keeps_of s t v w.valid (λ k p q.
                  at k ∙ rw (get-insert, key_eq-ne _ _ q, get-remove, key_eq-ne _ _ p) refl),
            )
        | inr absent ↦
            let stored : held h t ≡ held h s = w.stored ∙ rw absent refl in
            let at = λ (k : Bytes). ap (λ (m : Entries). BTreeMap.get m k) stored in
            (
              t,
              result,
              w.valid,
              get_entry-absent h id key t w.valid (at ek ∙ get-missing (held h s) ek absent),
              rw absent (get_metadata-same h id t s w.valid v (at _) ∙ e),
              keeps_of s t v w.valid (λ k p q. at k),
            )
      ]
