-- ===== src/Odgm/GranularKey.antt =====
-- data-plane/oprc-odgm/src/granular_key.rs without the metadata record: entry keys from numbers,
-- the key builders, and the parser of a raw key.
pub mod Decimal
pub mod RoundTrip
use mathlib.Core.Option
use oaa_s_io_t.Prelude.{
  ℕ, zero, suc, ◌+◌, ◌*◌, ◌-◌, ◌/◌, ◌%◌, ◌^◌, List, [], ◌∷◌, Bool, true, false, ltb, leb, ◌&&◌,
  ◌==◌, Option, none, some, if◌then◌else◌,
}
use oaa_s_io_t.Std.Bytes.{Bytes}
use oaa_s_io_t.Odgm.StorageKey.{
  string_object_entry_key_string, string_object_meta_key, string_object_prefix, Parsed, found,
  invalid, panics, StringObjectRecord, meta, event_config, string_entry, parse_string_object_key,
}

-- `u32::to_string`: the decimal digits, the last one first in the loop.
unfoldable pub decimal_loop : ℕ → ℕ → Bytes → Bytes
decimal_loop zero n digits = (48 + n % 10) ∷ digits
decimal_loop (suc fuel) n digits =
    let more = decimal_loop fuel (n / 10) ((48 + n % 10) ∷ digits) in
    if ltb n 10 then (48 + n) ∷ digits else more

-- A `u32` has at most ten digits.
unfoldable pub numeric_key_to_string : ℕ → Bytes
unfolding decimal_loop
numeric_key_to_string key = decimal_loop 9 key []

abbrev pub u32_mod : ℕ
u32_mod = 2 ^ 32

-- `str::parse::<u32>`: an optional plus sign, at least one digit, and no value beyond `u32::MAX`.
unfoldable pub parse_digits : ℕ → Bytes → Option ℕ
parse_digits value [] = some value
parse_digits value (c ∷ rest) =
    let value' = value * 10 + (c - 48) in
    let parsed = parse_digits value' rest in
    if leb 48 c && leb c 57 then (if ltb value' u32_mod then parsed else none) else none

abbrev pub at_least_one : Bytes → Option ℕ
at_least_one [] = none
at_least_one (c ∷ rest) = parse_digits 0 (c ∷ rest)

unfoldable pub string_to_numeric_key : Bytes → Option ℕ
unfolding parse_digits
string_to_numeric_key [] = none
string_to_numeric_key (c ∷ rest) = if c == b'+' then at_least_one rest else at_least_one (c ∷ rest)

unfoldable pub build_entry_key : Bytes → Bytes → Bytes
build_entry_key normalized_object_id entry_key =
    string_object_entry_key_string normalized_object_id entry_key

unfoldable pub build_metadata_key : Bytes → Bytes
build_metadata_key normalized_object_id = string_object_meta_key normalized_object_id

unfoldable pub build_object_prefix : Bytes → Bytes
build_object_prefix normalized_object_id = string_object_prefix normalized_object_id

pub data GranularRecord : Type 0 where
  metadata event_configuration : GranularRecord
  entry : Bytes → GranularRecord

abbrev pub granular : StringObjectRecord → GranularRecord
granular meta = metadata
granular event_config = event_configuration
granular (string_entry key) = entry key

unfoldable pub parse_granular_key : Bytes → Parsed (Bytes × GranularRecord)
parse_granular_key raw = elim (parse_string_object_key raw) [
  | found (object_id, record_) ↦ found (object_id, granular record_)
  | invalid ↦ invalid
  | panics ↦ panics
]

-- `matches!` is false on `None`; a panic in the parser goes on.
unfoldable pub is_metadata_key : Bytes → Parsed Bool
unfolding parse_granular_key
is_metadata_key raw = elim (parse_granular_key raw) [
  | found (object_id, r) ↦ found (elim r [ metadata ↦ true | _ ↦ false ])
  | invalid ↦ found false
  | panics ↦ panics
]

unfoldable pub is_entry_key : Bytes → Parsed Bool
unfolding parse_granular_key
is_entry_key raw = elim (parse_granular_key raw) [
  | found (object_id, r) ↦ found (elim r [ entry key ↦ true | _ ↦ false ])
  | invalid ↦ found false
  | panics ↦ panics
]
