-- ===== src/Odgm/EntryStore/Names.antt =====
-- Which storage keys of the entry store are equal.
use oaa_s_io_t.Prelude.{◌≡◌, ◌≢◌, ◌<◌, true, false, length, ap, Bool-cases, inl, inr}
use oaa_s_io_t.Std.Bytes.{Bytes, bytes_ord}
use oaa_s_io_t.Std.Order.{key_eq, key_eq_refl, key_eq-ne, key_eq→eq}
use oaa_s_io_t.Std.Utf8.{is_utf8}
use oaa_s_io_t.Storage.Stats.{u64_mod}
use oaa_s_io_t.Odgm.StorageKey.{found}
use oaa_s_io_t.Odgm.StorageKey.RoundTrip.{IsIdText}
use oaa_s_io_t.Odgm.GranularKey.{
  build_entry_key, build_metadata_key, parse_granular_key, metadata, entry,
}
use oaa_s_io_t.Odgm.GranularKey.RoundTrip.{classify}

-- An object's identifier and an entry key, both text, that fit in a storage key.
pub record IsName (id key : Bytes) : Type 0 where
  pub id_text : IsIdText id
  pub key_text : is_utf8 key ≡ true
  pub fits : length (build_entry_key id key) < u64_mod

entry_parses :
    (id key : Bytes)
    → IsName id key
    → parse_granular_key (build_entry_key id key) ≡ found (id, entry key)
entry_parses id key n = (classify id key n.id_text n.key_text n.fits).1

meta_parses :
    (id key : Bytes)
    → IsName id key
    → parse_granular_key (build_metadata_key id) ≡ found (id, metadata)
meta_parses id key n = (classify id key n.id_text n.key_text n.fits).0

pub entry-ne-metadata :
    (id key id' key' : Bytes)
    → IsName id key
    → IsName id' key'
    → build_entry_key id key ≢ build_metadata_key id'
entry-ne-metadata id key id' key' n n' e = cc (entry_parses id key n, meta_parses id' key' n')

pub entry_key-injective :
    (id key id' key' : Bytes)
    → IsName id key
    → IsName id' key'
    → build_entry_key id key ≡ build_entry_key id' key'
    → (id ≡ id') × (key ≡ key')
entry_key-injective id key id' key' n n' e = (
  cc (entry_parses id key n, entry_parses id' key' n'),
  cc (entry_parses id key n, entry_parses id' key' n'),
)

pub metadata_key-injective :
    (id key id' key' : Bytes)
    → IsName id key
    → IsName id' key'
    → build_metadata_key id ≡ build_metadata_key id'
    → id ≡ id'
metadata_key-injective id key id' key' n n' e = cc (meta_parses id key n, meta_parses id' key' n')

differ : (j key : Bytes) → key_eq j key ≡ false → j ≢ key
differ j key d e = cc (d, key_eq_refl key, ap (λ (t : Bytes). key_eq t key) e)

-- Within one object the storage keys compare as the entry keys do.
pub same_key :
    (id j key : Bytes)
    → IsName id j
    → IsName id key
    → key_eq (build_entry_key id j) (build_entry_key id key) ≡ key_eq j key
same_key id j key n n' = elim (Bool-cases (key_eq j key)) [
  | inl e ↦ rw (e, key_eq→eq j key e) (key_eq_refl (build_entry_key id key))
  | inr d ↦ rw d (key_eq-ne _ _ (λ e. differ j key d (entry_key-injective id j id key n n' e).1))
]
