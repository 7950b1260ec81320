-- ===== src/Odgm/EntryStore/DeleteObject.antt =====
-- `delete_object_granular`: the range of an object's keys, and what the delete does.
use oaa_s_io_t.Prelude.{
  ℕ, ◌≡◌, ◌≢◌, refl, ap, ap₂, ◌==◌, ==_iff, ◌∙◌, [], ◌∷◌, ◌++◌, Bool, true, false, not, ◌&&◌, none,
  arith, All, Bool-cases, inl, inr,
}
use oaa_s_io_t.Std.Bytes.{Bytes, bytes_ord}
use oaa_s_io_t.Std.BTreeMap
use oaa_s_io_t.Std.BTreeMap.{included, excluded, above, below}
use oaa_s_io_t.Std.BTreeMap.Laws.{get-retain_keys}
use oaa_s_io_t.Storage.Contract.{Entries}
use oaa_s_io_t.Storage.Memory.{increment_last}
use oaa_s_io_t.Storage.Memory.Range.{starts_with, scan_bounds, increment_last-gt}
use oaa_s_io_t.Odgm.Fallible.{Fallible, done}
use oaa_s_io_t.Odgm.StorageKey.{
  string_object_prefix, string_object_meta_key, string_object_entry_key_string,
}
use oaa_s_io_t.Odgm.StorageKey.Layout.{record_order}
use oaa_s_io_t.Odgm.StorageKey.RoundTrip.{IsIdText}
use oaa_s_io_t.Odgm.GranularKey.{build_entry_key, build_metadata_key, build_object_prefix}
use oaa_s_io_t.Odgm.EntryStore.Types.{Setting, Shard, ShardError}
use oaa_s_io_t.Odgm.EntryStore.Operations.{
  get_metadata, get_entry, delete_object_granular, increment_saturating,
}
use oaa_s_io_t.Odgm.EntryStore.Ends.{IsReliableShard, held, IsValid, Ends, get_metadata-Ends}
use oaa_s_io_t.Odgm.EntryStore.Reads.{get_entry-same, get_entry-absent, get_metadata-same}

-- The end of the range, with a last byte that has a successor.
range_end : (id : Bytes) → increment_saturating (id ++ 0 ∷ []) ≡ increment_last (id ++ 0 ∷ [])
unfolding increment_saturating increment_last
range_end [] = refl
range_end (b ∷ []) = refl
range_end (b ∷ x ∷ id) = ap (λ (t : Bytes). b ∷ t) (range_end (x ∷ id))

abbrev within : Bytes → Bytes → Bool
within id k =
    above (included (id ++ 0 ∷ [])) k && below (excluded (increment_last (id ++ 0 ∷ []))) k

within-prefix : (id k : Bytes) → within id k ≡ starts_with (id ++ 0 ∷ []) k
within-prefix [] k = scan_bounds 0 [] k
within-prefix (b ∷ id) k = scan_bounds b (id ++ 0 ∷ []) k

no_panic :
    (id : Bytes)
    → BTreeMap.range_panics (included (id ++ 0 ∷ [])) (excluded (increment_last (id ++ 0 ∷ [])))
      ≡ false
unfolding BTreeMap.range_panics
no_panic [] = increment_last-gt 0 []
no_panic (b ∷ id) = increment_last-gt b (id ++ 0 ∷ [])

-- A key of another object does not start with this object's prefix.
prefix-ne :
    (id id' rest : Bytes)
    → All (λ b. b ≢ 0) id
    → All (λ b. b ≢ 0) id'
    → id ≢ id'
    → starts_with (id ++ 0 ∷ []) (id' ++ 0 ∷ rest) ≡ false
unfolding starts_with
prefix-ne [] [] rest h k ne = absurd (ne refl)
prefix-ne [] (y ∷ id') rest h k ne = ground (arith, k.0)
prefix-ne (x ∷ id) [] rest h k ne = ground (arith, h.0)
prefix-ne (x ∷ id) (y ∷ id') rest h k ne = elim (Bool-cases (x == y)) [
  | inl e ↦ rw e (
      prefix-ne id id' rest h.1 k.1
        (λ q. ne (ap₂ (λ (b : ℕ) (t : Bytes). b ∷ t) ((==_iff x y).0 e) q)))
  | inr d ↦ rw d refl
]

-- The object's own keys lie in the range, and those of other objects outside.
own_entry : (id key : Bytes) → within id (build_entry_key id key) ≡ true
unfolding build_entry_key
own_entry id key = within-prefix id _ ∙ unfold string_object_prefix in (record_order id key).4

own_metadata : (id : Bytes) → within id (build_metadata_key id) ≡ true
unfolding build_metadata_key
own_metadata id = within-prefix id _ ∙ unfold string_object_prefix in (record_order id []).2

other_entry :
    (id id' key : Bytes)
    → IsIdText id
    → IsIdText id'
    → id ≢ id'
    → within id (build_entry_key id' key) ≡ false
unfolding build_entry_key string_object_entry_key_string
other_entry id id' key t t' ne = within-prefix id _ ∙ prefix-ne id id' _ t.nonzero t'.nonzero ne

other_metadata :
    (id id' : Bytes)
    → IsIdText id
    → IsIdText id'
    → id ≢ id'
    → within id (build_metadata_key id') ≡ false
unfolding build_metadata_key string_object_meta_key
other_metadata id id' t t' ne = within-prefix id _ ∙ prefix-ne id id' _ t.nonzero t'.nonzero ne

module _ {c : Setting} (h : IsReliableShard c) where
  abbrev outside : Bytes → Bytes → Bool
  outside id k = not (within id k)

  delete_object-Ends :
      (id : Bytes) (s : Shard c)
      → IsValid h s
      → Ends h tt (BTreeMap.retain_keys (outside id) (held h s)) (delete_object_granular c id s)
  unfolding delete_object_granular build_object_prefix string_object_prefix
  delete_object-Ends id s v =
      let lo = included (id ++ 0 ∷ []) in
      let hi = excluded (increment_last (id ++ 0 ∷ [])) in
      rw (range_end id, h.app.base.delete_range_ok s.storage lo hi v (no_panic id))
        record {
          valid = h.app.base.delete_range-Valid s.storage lo hi v;
          stored = h.app.base.delete_range_entries s.storage lo hi v (no_panic id);
          result = refl;
        }

  -- On a shard whose storage does not fail, for identifiers that are text: deleting an object succeeds: none of its entries is left, its metadata reads as missing, and the
  -- entries and the metadata of every other object read as before.
  pub delete_object_lem :
      (id : Bytes) (s : Shard c)
      → IsIdText id
      → IsValid h s
      → (t : Shard c) × (delete_object_granular c id s ≡ (t, done tt))
        × IsValid h t
        × ((key : Bytes) → (get_entry c id key t).1 ≡ done none)
        × ((get_metadata c id t).1 ≡ done none)
        × ((id' key' : Bytes)
            → IsIdText id'
            → id ≢ id'
            → ((get_entry c id' key' t).1 ≡ (get_entry c id' key' s).1)
              × ((get_metadata c id' t).1 ≡ (get_metadata c id' s).1))
  delete_object_lem id s text v =
      let r = delete_object-Ends id s v in
      let t = (delete_object_granular c id s).0 in
      let at = λ (k : Bytes).
        ap (λ (m : Entries). BTreeMap.get m k) r.stored
        ∙ get-retain_keys (outside id) (held h s) k in
      (
        t,
        ap (λ (x : Fallible ShardError (Unit {0})). (t, x)) r.result,
        r.valid,
        λ key. get_entry-absent h id key t r.valid (at _ ∙ rw (own_entry id key) refl),
        (get_metadata-Ends h id t {found = none}
            (rw (at (build_metadata_key id), own_metadata id) refl) r.valid refl).result,
        λ id' key' text' other. (
          get_entry-same h id' key' t s r.valid v
              (at _ ∙ rw (other_entry id id' key' text text' other) refl),
          get_metadata-same h id' t s r.valid v
              (at _ ∙ rw (other_metadata id id' text text' other) refl),
        ),
      )
