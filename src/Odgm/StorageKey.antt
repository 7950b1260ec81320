-- ===== src/Odgm/StorageKey.antt =====
-- The keys of an object's records: data-plane/oprc-odgm/src/storage_key.rs. An identifier and an
-- entry key are the bytes of their text.
pub mod Layout
pub mod RoundTrip
use oaa_s_io_t.Prelude.{
  ℕ, zero, suc, ◌+◌, ◌-◌, ◌%◌, List, [], ◌∷◌, ◌++◌, Bool, true, false, ltb, leb, ◌==◌, Option, none,
  some, if◌then◌else◌, length, get_elem?, take, drop,
}
use mathlib.Core.Option
use oaa_s_io_t.Std.Bytes.{Bytes}
use oaa_s_io_t.Std.Utf8.{from_utf8}
use oaa_s_io_t.Storage.Stats.{u64_mod}
use oaa_s_io_t.Odgm.Varint.{encode_varint, decode_varint}

unfoldable pub string_object_meta_key : Bytes → Bytes
string_object_meta_key normalized_id = normalized_id ++ 0x00 ∷ 0x00 ∷ []

unfoldable pub string_object_event_config_key : Bytes → Bytes
string_object_event_config_key normalized_id = normalized_id ++ 0x00 ∷ 0x01 ∷ []

unfoldable pub string_object_entry_key_string : Bytes → Bytes → Bytes
string_object_entry_key_string normalized_id key =
    normalized_id ++ (0x00 ∷ 0x11 ∷ (encode_varint (length key) ++ key))

unfoldable pub string_object_prefix : Bytes → Bytes
string_object_prefix normalized_id = normalized_id ++ 0x00 ∷ []

pub data StringObjectRecord : Type 0 where
  meta event_config : StringObjectRecord
  string_entry : Bytes → StringObjectRecord

-- `raw.iter().position(|b| *b == 0x00)`
unfoldable pub position_zero : Bytes → Option ℕ
position_zero [] = none
position_zero (b ∷ raw) = if b == 0x00 then some 0 else Option.map suc (position_zero raw)

-- The result of a parse: `Option`, or a slice out of order, which panics.
pub data Parsed {ℓ} (A : Type ℓ) : Type ℓ where
  found : A → Parsed A
  invalid : Parsed A
  panics : Parsed A

abbrev pub found_or_invalid {ℓ κ} : {A : Type ℓ} {B : Type κ} → Option A → (A → Parsed B) → Parsed B
found_or_invalid none f = invalid
found_or_invalid (some a) f = f a

-- `&raw[start..end]` with `end = start + len`, a `usize` that wraps around, and the test of `end`.
unfoldable pub entry_slice : Bytes → ℕ → ℕ → Parsed Bytes
entry_slice raw start len =
    let end = (start + len) % u64_mod in
    if ltb (length raw) end
    then invalid
    else if ltb end start
    then panics
    else found (take (end - start) (drop start raw))

abbrev pub entry_record : Bytes → Parsed Bytes → Parsed (Bytes × StringObjectRecord)
entry_record object_id (found slice) =
    found_or_invalid (from_utf8 slice) (λ key. found (object_id, string_entry key))
entry_record object_id invalid = invalid
entry_record object_id panics = panics

-- The `match record_type`.
unfoldable pub parse_record : Bytes → ℕ → Bytes → ℕ → Parsed (Bytes × StringObjectRecord)
parse_record raw term object_id record_type =
    if record_type == 0x00
    then found (object_id, meta)
    else if record_type == 0x01
    then found (object_id, event_config)
    else if record_type == 0x11
    then found_or_invalid (decode_varint (drop (term + 2) raw))
        (λ d. entry_record object_id (entry_slice raw (term + 2 + d.1) d.0))
    else invalid

unfoldable pub parse_string_object_key : Bytes → Parsed (Bytes × StringObjectRecord)
unfolding position_zero
parse_string_object_key raw = found_or_invalid (position_zero raw) (λ term.
    if leb (length raw) (term + 1)
    then invalid
    else found_or_invalid (get_elem? raw (term + 1)) (λ record_type.
      found_or_invalid (from_utf8 (take term raw))
        (λ object_id. parse_record raw term object_id record_type)))
