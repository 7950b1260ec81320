-- ===== src/Odgm/Examples.antt =====
-- The theorems on keys, identities and metadata at concrete inputs.
use oaa_s_io_t.Prelude.{
  ◌≡◌, ◌≢◌, ◌↔◌, ◌≤◌, ◌<◌, ℕ, refl, [], ◌∷◌, ◌++◌, Bool, true, false, ◌&&◌, ◌||◌, ◌==◌, leb, some,
  All, length, take, arith,
}
use oaa_s_io_t.Std.Bytes.{Bytes}
use oaa_s_io_t.Std.Utf8.{is_utf8}
use oaa_s_io_t.Storage.Stats.{u64_mod}
use oaa_s_io_t.Odgm.Varint.{encode_varint, decode_varint}
use oaa_s_io_t.Odgm.Varint.RoundTrip.{decode_varint-encode_varint}
use oaa_s_io_t.Odgm.StorageKey.{
  string_object_meta_key, string_object_event_config_key, string_object_entry_key_string,
  parse_string_object_key, found, meta, event_config, string_entry,
}
use oaa_s_io_t.Odgm.StorageKey.RoundTrip.{IsIdText, parse-build}
use oaa_s_io_t.Odgm.GranularKey.{
  build_entry_key, build_metadata_key, parse_granular_key, metadata, entry, is_metadata_key,
  is_entry_key,
}
use oaa_s_io_t.Odgm.GranularKey.RoundTrip.{classify}
use oaa_s_io_t.Odgm.ObjectMetadata.{ObjectMetadata, to_bytes, from_bytes}
use oaa_s_io_t.Odgm.ObjectMetadata.RoundTrip.{from_bytes-to_bytes}
use oaa_s_io_t.Odgm.Identity.{normalize_object_id, ok}
use oaa_s_io_t.Odgm.Identity.Normal.{IsIdChar, normalize_lem}

abbrev cam1 : Bytes
cam1 = b'c' ∷ b'a' ∷ b'm' ∷ b'1' ∷ []

cam1-IsIdText : IsIdText cam1
unfolding is_utf8
cam1-IsIdText = record { utf8 = refl; nonzero = ground arith }

abbrev temp : Bytes
temp = b't' ∷ b'e' ∷ b'm' ∷ b'p' ∷ []

temp-is_utf8 : is_utf8 temp ≡ true
unfolding is_utf8
temp-is_utf8 = refl

entry_key-short : length (string_object_entry_key_string cam1 temp) < u64_mod
unfolding string_object_entry_key_string encode_varint
entry_key-short = ground arith

decode_varint-encode_varint_example :
    decode_varint (encode_varint 300 ++ 7 ∷ []) ≡ some (300, length (encode_varint 300))
decode_varint-encode_varint_example = decode_varint-encode_varint 300 (7 ∷ []) (ground arith)

parse-build_example :
    (parse_string_object_key (string_object_meta_key cam1) ≡ found (cam1, meta))
    × (parse_string_object_key (string_object_event_config_key cam1) ≡ found (cam1, event_config))
    × (parse_string_object_key (string_object_entry_key_string cam1 temp)
        ≡ found (cam1, string_entry temp))
parse-build_example = parse-build cam1 temp cam1-IsIdText temp-is_utf8 entry_key-short

classify_example :
    (parse_granular_key (build_metadata_key cam1) ≡ found (cam1, metadata))
    × (parse_granular_key (build_entry_key cam1 temp) ≡ found (cam1, entry temp))
    × (is_metadata_key (build_metadata_key cam1) ≡ found true)
    × (is_metadata_key (build_entry_key cam1 temp) ≡ found false)
    × (is_entry_key (build_entry_key cam1 temp) ≡ found true)
    × (is_entry_key (build_metadata_key cam1) ≡ found false)
classify_example =
    classify cam1 temp cam1-IsIdText temp-is_utf8 (unfold build_entry_key in entry_key-short)

abbrev sample : ObjectMetadata
sample = record { object_version = 300; tombstone = true; attributes = (temp, cam1) ∷ [] }

from_bytes-to_bytes_example :
    from_bytes (to_bytes sample) ≡ some (record sample { attributes = take 1 sample.attributes })
from_bytes-to_bytes_example = from_bytes-to_bytes sample (ground arith) (
  (
    record { utf8 = temp-is_utf8; short = ground arith },
    record { utf8 = cam1-IsIdText.utf8; short = ground arith },
  ),
  tt,
)

-- The expression `^[a-z0-9._:-]+$` as a function.
abbrev id_char : ℕ → Bool
id_char b =
    (leb b'a' b && leb b b'z')
    || (leb b'0' b && leb b b'9')
    || ((b == b'.') || (b == b'_'))
    || ((b == b':') || (b == b'-'))

abbrev id_chars : Bytes → Bool
id_chars [] = true
id_chars (b ∷ s) = id_char b && id_chars s

abbrev valid_chars : Bytes → Bool
valid_chars [] = false
valid_chars (b ∷ s) = id_chars (b ∷ s)

id_chars-All : (s : Bytes) → (id_chars s ≡ true) ↔ All IsIdChar s
id_chars-All [] = (λ _. tt, λ _. refl)
id_chars-All (b ∷ s) =
    (λ h. ground (arith, (id_chars-All s).0), λ h. ground (arith, (id_chars-All s).1))

valid_chars_matches : (s : Bytes) → (valid_chars s ≡ true) ↔ ((s ≢ []) × All IsIdChar s)
valid_chars_matches [] = (λ h. ground arith, λ h. ground arith)
valid_chars_matches (b ∷ s) =
    (λ h. (ground arith, (id_chars-All (b ∷ s)).0 h), λ h. (id_chars-All (b ∷ s)).1 h.1)

abbrev upper : Bytes
upper = b'C' ∷ b'a' ∷ b'M' ∷ b'1' ∷ []

normalize_lem_example :
    (length cam1 ≤ 160)
    × All IsIdChar cam1
    × IsIdText cam1
    × (normalize_object_id valid_chars cam1 160 ≡ ok cam1)
normalize_lem_example =
    normalize_lem valid_chars valid_chars_matches upper 160 (unfold normalize_object_id in refl)
