-- ===== src/Odgm/StorageKey/RoundTrip.antt =====
-- Parsing a key that was built gives back its object and record.
use native.Mathlib.Nat.{zero-add, suc-add}
use oaa_s_io_t.Prelude.{
  ℕ, suc, ◌+◌, ◌-◌, ◌%◌, ◌≤◌, ◌<◌, ◌≡◌, ◌≢◌, refl, ap, ◌∙◌, [], ◌∷◌, ◌++◌, true, some, length,
  get_elem?, take, drop, All, arith, lt→leb, le→ltb, lt→ltb, length-append, take-append,
  drop-append,
}
use oaa_s_io_t.Std.Bytes.{Bytes}
use oaa_s_io_t.Std.Utf8.{from_utf8, is_utf8}
use oaa_s_io_t.Storage.Stats.{u64_mod}
use oaa_s_io_t.Odgm.Varint.{encode_varint}
use oaa_s_io_t.Odgm.Varint.RoundTrip.{decode_varint-encode_varint}
use oaa_s_io_t.Odgm.StorageKey.{
  string_object_meta_key, string_object_event_config_key, string_object_entry_key_string, meta,
  event_config, string_entry, found, panics, position_zero, entry_slice, parse_record,
  parse_string_object_key, entry_record,
}

-- A text that can stand before the terminator: UTF-8 with no zero byte.
pub record IsIdText (id : Bytes) : Type 0 where
  pub utf8 : is_utf8 id ≡ true
  pub nonzero : All (λ b. b ≢ 0) id

position_zero-append :
    (id rest : Bytes) → All (λ b. b ≢ 0) id → position_zero (id ++ 0 ∷ rest) ≡ some (length id)
unfolding position_zero
position_zero-append [] rest h = refl
position_zero-append (b ∷ id) rest h = ground (arith, position_zero-append id rest h.1, h.0)

get_elem?-append :
    (id rest : Bytes) (n : ℕ) → get_elem? (id ++ rest) (length id + n) ≡ get_elem? rest n
get_elem?-append [] rest n = rw zero-add refl
get_elem?-append (b ∷ id) rest n = rw suc-add (get_elem?-append id rest n)

drop_past : (id rest : Bytes) (n : ℕ) → drop (length id + n) (id ++ rest) ≡ drop n rest
drop_past [] rest n = rw zero-add refl
drop_past (b ∷ id) rest n = rw suc-add (drop_past id rest n)

from_utf8-text : (id : Bytes) → is_utf8 id ≡ true → from_utf8 id ≡ some id
unfolding from_utf8
from_utf8-text id h = rw h refl

-- With the terminator found, a parse is a parse of the record.
parse_head :
    (id : Bytes) (t : ℕ) (rest : Bytes)
    → IsIdText id
    → parse_string_object_key (id ++ 0 ∷ t ∷ rest)
      ≡ parse_record (id ++ 0 ∷ t ∷ rest) (length id) id t
unfolding parse_string_object_key
parse_head id t rest h =
    let long : length id + 1 < length (id ++ 0 ∷ t ∷ rest) =
      omega (arith, length-append id (0 ∷ t ∷ rest)) in
    rw
      (
        position_zero-append id (t ∷ rest) h.nonzero,
        lt→leb _ _ long,
        get_elem?-append id (0 ∷ t ∷ rest) 1,
        take-append id (0 ∷ t ∷ rest),
        from_utf8-text id h.utf8,
      )
      refl

take_all : (xs : Bytes) → take (length xs) xs ≡ xs
take_all [] = refl
take_all (x ∷ xs) = ap (λ (t : Bytes). x ∷ t) (take_all xs)

-- A slice that lies within a key that fits the address space.
entry_slice_within :
    (raw : Bytes) (start len : ℕ)
    → start + len ≤ length raw
    → length raw < u64_mod
    → entry_slice raw start len ≡ found (take len (drop start raw))
unfolding entry_slice
entry_slice_within raw start len inside fits =
    let whole : (start + len) % u64_mod ≡ start + len = omega arith in
    let width : start + len - start ≡ len = omega arith in
    rw (whole, le→ltb _ _ inside, le→ltb (start + len) start (omega arith), width) refl

abbrev key_start : Bytes → Bytes → ℕ
key_start id key = length id + 2 + length (encode_varint (length key))

length-entry_key :
    (id key : Bytes)
    → length (string_object_entry_key_string id key) ≡ key_start id key + length key
unfolding string_object_entry_key_string
length-entry_key id key = omega (
  arith,
  length-append id (0x00 ∷ 0x11 ∷ (encode_varint (length key) ++ key)),
  length-append (encode_varint (length key)) key,
)

drop-entry_key :
    (id key : Bytes) → drop (key_start id key) (string_object_entry_key_string id key) ≡ key
unfolding string_object_entry_key_string
drop-entry_key id key =
    let shift : key_start id key ≡ length id + suc (suc (length (encode_varint (length key)))) =
      omega arith in
    rw shift (
      drop_past id _ (suc (suc (length (encode_varint (length key)))))
      ∙ drop-append (encode_varint (length key)) key)

entry_slice-key :
    (id key : Bytes)
    → length (string_object_entry_key_string id key) < u64_mod
    → entry_slice (string_object_entry_key_string id key) (key_start id key) (length key)
      ≡ found key
entry_slice-key id key h =
    entry_slice_within (string_object_entry_key_string id key) (key_start id key) (length key)
      (omega (arith, length-entry_key id key)) h
    ∙ rw (drop-entry_key id key) (ap found (take_all key))

-- A key of an entry record with any length field and any bytes after it.
abbrev pub entry_raw : Bytes → ℕ → Bytes → Bytes
entry_raw id n rest = id ++ (0x00 ∷ 0x11 ∷ (encode_varint n ++ rest))

length-entry_raw :
    (id rest : Bytes) (n : ℕ)
    → length (entry_raw id n rest) ≡ length id + 2 + length (encode_varint n) + length rest
length-entry_raw id rest n = omega (
  arith,
  length-append id (0x00 ∷ 0x11 ∷ (encode_varint n ++ rest)),
  length-append (encode_varint n) rest,
)

parse_entry_head :
    (id rest : Bytes) (n : ℕ)
    → IsIdText id
    → n < u64_mod
    → parse_string_object_key (entry_raw id n rest)
      ≡ entry_record id
          (entry_slice (entry_raw id n rest) (length id + 2 + length (encode_varint n)) n)
parse_entry_head id rest n h small =
    parse_head id 0x11 (encode_varint n ++ rest) h
    ∙ (unfold parse_record in
        rw
          (
            drop_past id (0x00 ∷ 0x11 ∷ (encode_varint n ++ rest)) 2,
            decode_varint-encode_varint n rest small,
          )
          refl)

entry_slice_wraps :
    (raw : Bytes) (start len : ℕ)
    → start ≤ length raw
    → length raw < u64_mod
    → len < u64_mod
    → u64_mod ≤ start + len
    → entry_slice raw start len ≡ panics
unfolding entry_slice
entry_slice_wraps raw start len inside fits small big =
    rw
      (
        le→ltb (length raw) ((start + len) % u64_mod) (omega arith),
        lt→ltb ((start + len) % u64_mod) start (omega arith),
      )
      refl

parse_built_head :
    (id key : Bytes)
    → IsIdText id
    → length (string_object_entry_key_string id key) < u64_mod
    → parse_string_object_key (string_object_entry_key_string id key)
      ≡ entry_record id
          (entry_slice (string_object_entry_key_string id key) (key_start id key) (length key))
unfolding string_object_entry_key_string
parse_built_head id key h fits =
    parse_entry_head id key (length key) h (omega (arith, length-entry_key id key))

parse-build_entry :
    (id key : Bytes)
    → IsIdText id
    → is_utf8 key ≡ true
    → length (string_object_entry_key_string id key) < u64_mod
    → parse_string_object_key (string_object_entry_key_string id key) ≡ found (id, string_entry key)
parse-build_entry id key h u fits =
    parse_built_head id key h fits
    ∙ ap (entry_record id) (entry_slice-key id key fits)
    ∙ rw (from_utf8-text key u) refl

-- Parsing the key of a record gives the object's identifier and the record, for each of the three
-- kinds of record: for an identifier that is UTF-8 and has no zero byte, and an entry key that is
-- UTF-8 and for which the whole key is shorter than 2^64.
pub parse-build :
    (id key : Bytes)
    → IsIdText id
    → is_utf8 key ≡ true
    → length (string_object_entry_key_string id key) < u64_mod
    → (parse_string_object_key (string_object_meta_key id) ≡ found (id, meta))
      × (parse_string_object_key (string_object_event_config_key id) ≡ found (id, event_config))
      × (parse_string_object_key (string_object_entry_key_string id key)
          ≡ found (id, string_entry key))
unfolding string_object_meta_key string_object_event_config_key parse_record
parse-build id key h u fits =
    (parse_head id 0x00 [] h, parse_head id 0x01 [] h, parse-build_entry id key h u fits)

-- A key whose encoded length runs past 2^64 makes the parser's slice panic, whatever the identifier
-- and the bytes that follow.
pub parse_oversized :
    (id rest : Bytes) (n : ℕ)
    → IsIdText id
    → n < u64_mod
    → length (entry_raw id n rest) < u64_mod
    → u64_mod ≤ length id + 2 + length (encode_varint n) + n
    → parse_string_object_key (entry_raw id n rest) ≡ panics
parse_oversized id rest n h small fits big =
    parse_entry_head id rest n h small
    ∙ ap (entry_record id) (
        entry_slice_wraps (entry_raw id n rest) _ n (omega (arith, length-entry_raw id rest n)) fits
          small big)
