-- ===== src/Odgm/Varint/RoundTrip.antt =====
-- Decoding an encoded length gives it back.
use native.Mathlib.Nat.{pow-suc}
use native.Mathlib.Numerals.{towards_suc}
use oaa_s_io_t.Prelude.{
  ℕ, zero, suc, ◌+◌, ◌*◌, ◌/◌, ◌%◌, ◌^◌, ◌≤◌, ◌<◌, bit_and, bit_or, ◌≡◌, refl, ap, ◌∙◌, ◌∷◌, ◌++◌,
  ltb, ◌==◌, Bool-cases, inl, inr, true, false, some, arith, length, ltb→lt, le→ltb,
}
use oaa_s_io_t.Std.Bytes.{Bytes}
use oaa_s_io_t.Std.Bits.{low_bits, top_bit, set_top_bit, bit_or_disjoint}
use oaa_s_io_t.Storage.Stats.{u64_mod}
use oaa_s_io_t.Odgm.Varint.{encode_loop, encode_varint, decode_loop, decode_varint}

abbrev more_byte : ℕ → ℕ
more_byte n = bit_or (bit_and (n % 256) 0x7f) 0x80

more_byte_lem : (n : ℕ) → more_byte n ≡ n % 128 + 128
more_byte_lem n =
    rw (low_bits (n % 256) (omega arith)) (set_top_bit (n % 256 % 128) (omega arith) ∙ omega arith)

more_byte-low : (n : ℕ) → bit_and (more_byte n) 0x7f ≡ n % 128
more_byte-low n = rw (more_byte_lem n) (low_bits (n % 128 + 128) (omega arith) ∙ omega arith)

more_byte-top : (n : ℕ) → (bit_and (more_byte n) 0x80 == 0) ≡ false
more_byte-top n = ground (arith, more_byte_lem n, top_bit (n % 128 + 128))

last_byte-low : (n : ℕ) → n < 128 → bit_and (n % 256) 0x7f ≡ n
last_byte-low n h = low_bits (n % 256) (omega arith) ∙ omega arith

last_byte-top : (n : ℕ) → n < 128 → (bit_and (n % 256) 0x80 == 0) ≡ true
last_byte-top n h = ground (arith, top_bit (n % 256))

pow_seven : (s : ℕ) → 2 ^ (s + 7) ≡ 128 * 2 ^ s
pow_seven s = simp towards_suc (
    omega (
      arith,
      pow-suc 2 s,
      pow-suc 2 (suc s),
      pow-suc 2 (suc (suc s)),
      pow-suc 2 (suc (suc (suc s))),
      pow-suc 2 (suc (suc (suc (suc s)))),
      pow-suc 2 (suc (suc (suc (suc (suc s))))),
      pow-suc 2 (suc (suc (suc (suc (suc (suc s)))))),
    ))

-- A group and the rest, each at its place, are the number at the place of the group.
join_groups : (n s : ℕ) → n % 128 * 2 ^ s + n / 128 * 2 ^ (s + 7) ≡ n * 2 ^ s
join_groups n s =
    let whole : n ≡ 128 * (n / 128) + n % 128 = omega arith in
    omega (arith, ap (λ (t : ℕ). t * 2 ^ s) whole, ap (λ (t : ℕ). n / 128 * t) (pow_seven s))

-- One step of the decoder: the chunk is added at its place.
add_chunk :
    (v c s : ℕ) → v < 2 ^ s → c * 2 ^ s < u64_mod → bit_or v (c * 2 ^ s % u64_mod) ≡ v + c * 2 ^ s
add_chunk v c s low fits =
    let same : c * 2 ^ s % u64_mod ≡ c * 2 ^ s = omega arith in rw same (bit_or_disjoint s v c low)

decode_more :
    (n i s v : ℕ) (input : Bytes)
    → s + 7 ≤ 63
    → v < 2 ^ s
    → n % 128 * 2 ^ s < u64_mod
    → decode_loop (more_byte n ∷ input) i s v
      ≡ decode_loop input (i + 1) (s + 7) (v + n % 128 * 2 ^ s)
decode_more n i s v input room low fits =
    unfold decode_loop in
    rw (more_byte-low n, more_byte-top n, le→ltb 63 (s + 7) room, add_chunk v _ s low fits) refl

decode_last :
    (n i s v : ℕ) (input : Bytes)
    → n < 128
    → v < 2 ^ s
    → n * 2 ^ s < u64_mod
    → decode_loop (n % 256 ∷ input) i s v ≡ some (v + n * 2 ^ s, i + 1)
decode_last n i s v input h low fits =
    unfold decode_loop in rw (last_byte-low n h, last_byte-top n h, add_chunk v n s low fits) refl

group_fits : (n s v : ℕ) → v < 2 ^ s → v + n % 128 * 2 ^ s < 2 ^ (s + 7)
group_fits n s v low =
    let small : n % 128 ≤ 127 = omega arith in
    let scaled : n % 128 * 2 ^ s ≤ 127 * 2 ^ s = grind arith in omega (arith, pow_seven s)

decode_loop-encode_loop :
    (f n i s v : ℕ) (rest : Bytes)
    → n < 128 ^ suc f
    → s + 7 * f ≤ 63
    → v < 2 ^ s
    → v + n * 2 ^ s < u64_mod
    → decode_loop (encode_loop f n ++ rest) i s v
      ≡ some (v + n * 2 ^ s, i + length (encode_loop f n))
unfolding encode_loop
decode_loop-encode_loop zero n i s v rest small room low fits =
    decode_last n i s v rest (omega (arith, pow-suc 128 0)) low (omega arith)
decode_loop-encode_loop (suc f) n i s v rest small room low fits = elim (Bool-cases (ltb n 128)) [
  | inl h ↦ rw (h, encode_loop) (decode_last n i s v rest (ltb→lt n 128 h) low (omega arith))
  | inr h ↦
      rw (h, encode_loop)
        (decode_more n i s v (encode_loop f (n / 128) ++ rest) (omega arith) low
            (omega (arith, join_groups n s))
          ∙ decode_loop-encode_loop f (n / 128) (i + 1) (s + 7) (v + n % 128 * 2 ^ s) rest
              (omega (arith, pow-suc 128 (suc f))) (omega arith) (group_fits n s v low)
              (omega (arith, join_groups n s))
          ∙ ground (arith, join_groups n s))
]

-- A length that was encoded decodes to itself, from the front of any input, and takes the bytes that
-- it was encoded in.
pub decode_varint-encode_varint :
    (n : ℕ) (rest : Bytes)
    → n < u64_mod
    → decode_varint (encode_varint n ++ rest) ≡ some (n, length (encode_varint n))
unfolding decode_varint encode_varint
decode_varint-encode_varint n rest h =
    decode_loop-encode_loop 9 n 0 0 0 rest (omega arith) (omega arith) (omega arith) (omega arith)
    ∙ ground arith
