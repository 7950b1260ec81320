-- ===== src/Odgm/Varint.antt =====
-- `encode_varint` and `decode_varint` of data-plane/oprc-odgm/src/storage_key.rs: LEB128 over a
-- 64-bit `usize`.
pub mod RoundTrip
use oaa_s_io_t.Prelude.{
  ℕ, zero, suc, ◌+◌, ◌*◌, ◌/◌, ◌%◌, ◌^◌, bit_and, bit_or, List, [], ◌∷◌, ltb, ◌==◌, Option, none,
  some, if◌then◌else◌,
}
use oaa_s_io_t.Std.Bytes.{Bytes}
use oaa_s_io_t.Storage.Stats.{u64_mod}

-- The loop `while n >= 0x80`, with fuel; the last round pushes what is left.
unfoldable pub encode_loop : ℕ → ℕ → Bytes
encode_loop zero n = n % 256 ∷ []
encode_loop (suc fuel) n =
    let more = bit_or (bit_and (n % 256) 0x7f) 0x80 ∷ encode_loop fuel (n / 128) in
    if ltb n 0x80 then n % 256 ∷ [] else more

-- A `usize` has at most ten groups of seven bits, so nine rounds are enough.
unfoldable pub encode_varint : ℕ → Bytes
unfolding encode_loop
encode_varint n = encode_loop 9 n

-- `chunk << shift` drops the bits from 64 on.
unfoldable pub decode_loop : Bytes → ℕ → ℕ → ℕ → Option (ℕ × ℕ)
decode_loop [] i shift value = none
decode_loop (b ∷ input) i shift value =
    let chunk = bit_and b 0x7f in
    let value' = bit_or value (chunk * 2 ^ shift % u64_mod) in
    let rest = decode_loop input (i + 1) (shift + 7) value' in
    if bit_and b 0x80 == 0 then some (value', i + 1) else if ltb 63 (shift + 7) then none else rest

-- The value, and the number of bytes that it took.
unfoldable pub decode_varint : Bytes → Option (ℕ × ℕ)
unfolding decode_loop
decode_varint input = decode_loop input 0 0 0
