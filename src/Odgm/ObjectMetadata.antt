-- ===== src/Odgm/ObjectMetadata.antt =====
-- `ObjectMetadata` of data-plane/oprc-odgm/src/granular_key.rs and its byte format: version (8),
-- tombstone (1), attribute count (2), then each attribute's key and value behind a 16-bit length.
pub mod RoundTrip
use mathlib.Core.Option
use oaa_s_io_t.Prelude.{
  ℕ, zero, suc, ◌+◌, ◌*◌, ◌-◌, ◌/◌, ◌%◌, ◌^◌, List, [], ◌∷◌, ◌++◌, Bool, true, false, not, ltb, leb,
  ◌&&◌, ◌==◌, Option, none, some, if◌then◌else◌, length, take, drop, get_elem?, min,
}
use oaa_s_io_t.Std.Bytes.{Bytes}
use oaa_s_io_t.Std.Bytes.Words.{to_le_bytes, from_le_bytes}
use oaa_s_io_t.Std.Utf8.{from_utf8}
use oaa_s_io_t.Storage.Stats.{u64_mod}

pub record ObjectMetadata : Type 0 where
  pub object_version : ℕ
  pub tombstone : Bool
  pub attributes : List (Bytes × Bytes)

-- `new` is `default`.
unfoldable pub new : ObjectMetadata
new = record { object_version = 0; tombstone = false; attributes = [] }

unfoldable pub with_version : ℕ → ObjectMetadata
with_version version = record { object_version = version; tombstone = false; attributes = [] }

-- `saturating_add(1)` on a `u64`.
unfoldable pub increment_version : ObjectMetadata → ObjectMetadata
increment_version m = record m { object_version = min (m.object_version + 1) (u64_mod - 1) }

unfoldable pub mark_tombstone : ObjectMetadata → ObjectMetadata
mark_tombstone m = record m { tombstone = true }

-- `(s.len() as u16).to_le_bytes()`, and the text.
unfoldable pub text_bytes : Bytes → Bytes
unfolding to_le_bytes
text_bytes s = to_le_bytes 2 (length s % 2 ^ 16) ++ s

unfoldable pub attribute_bytes : List (Bytes × Bytes) → Bytes
attribute_bytes [] = []
attribute_bytes ((k, v) ∷ rest) = text_bytes k ++ (text_bytes v ++ attribute_bytes rest)

unfoldable pub to_bytes : ObjectMetadata → Bytes
unfolding to_le_bytes
to_bytes m =
    to_le_bytes 8 m.object_version
    ++ ((if m.tombstone then 1 else 0)
        ∷ (to_le_bytes 2 (length m.attributes % 2 ^ 16) ++ attribute_bytes m.attributes))

infixl 5 ◌>>=◌
abbrev ◌>>=◌ {ℓ κ} : {A : Type ℓ} {B : Type κ} → Option A → (A → Option B) → Option B
none >>= f = none
some a >>= f = f a

-- The bytes from `pos` on stand for `pos`. A key must leave room for two bytes more, the length of
-- its value; a value for none.
unfoldable pub read_text : ℕ → Bytes → Option (Bytes × Bytes)
read_text room rest =
    let len = from_le_bytes (take 2 rest) in
    let after = drop 2 rest in
    if ltb (length after) (len + room)
    then none
    else do text ← from_utf8 (take len after); some (text, drop len after)

unfoldable pub read_attributes : ℕ → Bytes → Option (List (Bytes × Bytes))
read_attributes zero rest = some []
read_attributes (suc count) rest =
    let found = (do
      (key, rest1) ← read_text 2 rest
      (value, rest2) ← read_text 0 rest1
      others ← read_attributes count rest2
      some ((key, value) ∷ others)) in
    if ltb (length rest) 2 then none else found

unfoldable pub from_bytes : Bytes → Option ObjectMetadata
from_bytes bytes = if ltb (length bytes) 11 then none else do
  tombstone ← get_elem? bytes 8
  attributes ← read_attributes (from_le_bytes (take 2 (drop 9 bytes))) (drop 11 bytes)
  some (record {
    object_version = from_le_bytes (take 8 bytes);
    tombstone = not (tombstone == 0);
    attributes = attributes;
  })
