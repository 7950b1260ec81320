-- ===== src/Odgm/ObjectMetadata/RoundTrip.antt =====
-- Decoding what was encoded.
use oaa_s_io_t.Prelude.{
  ℕ, zero, suc, ◌+◌, ◌/◌, ◌%◌, ◌^◌, ◌≤◌, ◌<◌, ◌≡◌, refl, List, [], ◌∷◌, ◌++◌, Bool, true, false,
  ◌==◌, not, some, All, length, take, length-append, take-append, drop-append, le→ltb, arith,
  if◌then◌else◌,
}
use oaa_s_io_t.Std.Bytes.{Bytes}
use oaa_s_io_t.Std.Bytes.Words.{from_le_bytes, from-to_le_bytes}
use oaa_s_io_t.Std.Utf8.{from_utf8, is_utf8}
use oaa_s_io_t.Storage.Stats.{u64_mod}
use oaa_s_io_t.Odgm.ObjectMetadata.{
  ObjectMetadata, text_bytes, attribute_bytes, to_bytes, read_text, read_attributes, from_bytes,
}

-- A text that the format can hold: UTF-8, of fewer than 2^16 bytes.
pub record IsShortText (s : Bytes) : Type 0 where
  pub utf8 : is_utf8 s ≡ true
  pub short : length s < 2 ^ 16

abbrev pub AreShort : List (Bytes × Bytes) → Type 0
AreShort = All (λ e. IsShortText e.0 × IsShortText e.1)

from_utf8-text : (s : Bytes) → is_utf8 s ≡ true → from_utf8 s ≡ some s
unfolding from_utf8
from_utf8-text s h = rw h refl

count_field : (n : ℕ) → from_le_bytes (n % 2 ^ 16 % 256 ∷ n % 2 ^ 16 / 256 % 256 ∷ []) ≡ n % 2 ^ 16
unfolding from_le_bytes
count_field n = omega arith

-- The 16-bit field of a number that fits it.
length_field :
    (n : ℕ) → n < 2 ^ 16 → from_le_bytes (n % 2 ^ 16 % 256 ∷ n % 2 ^ 16 / 256 % 256 ∷ []) ≡ n
unfolding from_le_bytes
length_field n h = omega arith

read_text-text_bytes :
    (room : ℕ) (s rest : Bytes)
    → IsShortText s
    → room ≤ length rest
    → read_text room (text_bytes s ++ rest) ≡ some (s, rest)
unfolding text_bytes
read_text-text_bytes room s rest h enough =
    unfold read_text in
    rw
      (
        length_field (length s) h.short,
        le→ltb (length (s ++ rest)) (length s + room) (omega (arith, length-append s rest)),
        take-append s rest,
        drop-append s rest,
        from_utf8-text s h.utf8,
      )
      refl

two_bytes : (s rest : Bytes) → 2 ≤ length (text_bytes s ++ rest)
unfolding text_bytes
two_bytes s rest = omega arith

-- Reading as many attributes as a count says, from the bytes of at least so many.
read-attribute_bytes :
    (count : ℕ) (attributes : List (Bytes × Bytes))
    → count ≤ length attributes
    → AreShort attributes
    → read_attributes count (attribute_bytes attributes) ≡ some (take count attributes)
unfolding read_attributes attribute_bytes
read-attribute_bytes zero attributes h short = refl
read-attribute_bytes (suc count) [] h short = absurd (omega arith)
read-attribute_bytes (suc count) ((k, v) ∷ attributes) h short =
    let more = text_bytes v ++ attribute_bytes attributes in
    rw
      (
        le→ltb (length (text_bytes k ++ more)) 2 (two_bytes k more),
        read_text-text_bytes 2 k more short.0.0 (two_bytes v (attribute_bytes attributes)),
        read_text-text_bytes 0 v (attribute_bytes attributes) short.0.1 (omega arith),
        read-attribute_bytes count attributes (omega arith) short.1,
      )
      refl

flag_byte : (b : Bool) → not ((if b then 1 else 0) == 0) ≡ b
flag_byte true = refl
flag_byte false = refl

eleven_bytes : (m : ObjectMetadata) → 11 ≤ length (to_bytes m)
unfolding to_bytes
eleven_bytes m = omega arith

-- Decoding the bytes of a metadata record gives it back, with as many of its attributes as their
-- number modulo 2^16: all of them where there are fewer than 2^16. The version is a `u64`, and the
-- keys and values are UTF-8 of fewer than 2^16 bytes.
pub from_bytes-to_bytes :
    (m : ObjectMetadata)
    → m.object_version < u64_mod
    → AreShort m.attributes
    → from_bytes (to_bytes m)
      ≡ some (record m { attributes = take (length m.attributes % 2 ^ 16) m.attributes })
unfolding from_bytes to_bytes
from_bytes-to_bytes m h short =
    rw
      (
        le→ltb (length (to_bytes m)) 11 (eleven_bytes m),
        from-to_le_bytes 8 m.object_version h,
        count_field (length m.attributes),
        read-attribute_bytes (length m.attributes % 2 ^ 16) m.attributes (omega arith) short,
        flag_byte m.tombstone,
      )
      refl
