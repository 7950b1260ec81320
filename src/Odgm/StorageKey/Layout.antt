-- ===== src/Odgm/StorageKey/Layout.antt =====
-- How the keys lie in storage order: an object's records stand together, and metadata first.
use oaa_s_io_t.Prelude.{◌≡◌, refl, subst, append_assoc, length, ◌∷◌, [], ◌++◌, true, arith}
use oaa_s_io_t.Std.Bytes.{Bytes, compare_bytes}
use oaa_s_io_t.Storage.Memory.Range.{starts_with}
use oaa_s_io_t.Odgm.Varint.{encode_varint}
use oaa_s_io_t.Odgm.StorageKey.{
  string_object_meta_key, string_object_event_config_key, string_object_entry_key_string,
  string_object_prefix,
}
use Prim.Native.Nat.Ordering.{lt}

starts_with-append : (p k : Bytes) → starts_with p (p ++ k) ≡ true
unfolding starts_with
starts_with-append [] k = refl
starts_with-append (b ∷ p) k = ground (arith, starts_with-append p k)

compare-append : (p : Bytes) (a b : Bytes) → compare_bytes (p ++ a) (p ++ b) ≡ compare_bytes a b
unfolding compare_bytes
compare-append [] a b = refl
compare-append (x ∷ p) a b = ground (arith, compare-append p a b)

under_prefix : (id rest : Bytes) → starts_with (string_object_prefix id) (id ++ 0 ∷ rest) ≡ true
unfolding string_object_prefix
under_prefix id rest =
    subst (λ k. starts_with (id ++ 0 ∷ []) k ≡ true) (append_assoc id (0 ∷ []) rest)
      (starts_with-append (id ++ 0 ∷ []) rest)

-- The metadata key of an object comes before its event-configuration key, and that before each of
-- its entry keys; and all of them start with the object's prefix.
pub record_order :
    (id key : Bytes)
    → (compare_bytes (string_object_meta_key id) (string_object_event_config_key id) ≡ lt)
      × (compare_bytes (string_object_event_config_key id) (string_object_entry_key_string id key)
          ≡ lt)
      × (starts_with (string_object_prefix id) (string_object_meta_key id) ≡ true)
      × (starts_with (string_object_prefix id) (string_object_event_config_key id) ≡ true)
      × (starts_with (string_object_prefix id) (string_object_entry_key_string id key) ≡ true)
unfolding string_object_meta_key string_object_event_config_key string_object_entry_key_string
record_order id key = (
  rw compare-append (unfold compare_bytes in refl),
  rw compare-append (unfold compare_bytes in refl),
  under_prefix id (0x00 ∷ []),
  under_prefix id (0x01 ∷ []),
  under_prefix id (0x11 ∷ (encode_varint (length key) ++ key)),
)
