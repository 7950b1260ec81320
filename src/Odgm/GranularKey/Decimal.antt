-- ===== src/Odgm/GranularKey/Decimal.antt =====
-- Numeric entry keys in decimal.
use native.Mathlib.Nat.{pow-suc}
use oaa_s_io_t.Prelude.{
  ℕ, zero, suc, ◌+◌, ◌*◌, ◌/◌, ◌%◌, ◌^◌, ◌<◌, ◌≡◌, refl, ap, ◌∙◌, [], ◌∷◌, ltb, ltb→lt, some,
  Bool-cases, inl, inr, arith,
}
use oaa_s_io_t.Std.Bytes.{Bytes}
use oaa_s_io_t.Odgm.GranularKey.{
  decimal_loop, numeric_key_to_string, parse_digits, string_to_numeric_key, u32_mod,
}

parse_digit :
    (v d : ℕ) (rest : Bytes)
    → d < 10
    → v * 10 + d < u32_mod
    → parse_digits v ((48 + d) ∷ rest) ≡ parse_digits (v * 10 + d) rest
unfolding parse_digits
parse_digit v d rest h fits = ground arith

parse_first :
    (d : ℕ) (rest : Bytes)
    → d < 10
    → d < u32_mod
    → parse_digits 0 ((48 + d) ∷ rest) ≡ parse_digits d rest
parse_first d rest h fits =
    parse_digit 0 d rest h (omega arith) ∙ ap (λ (t : ℕ). parse_digits t rest) (omega arith)

parse_digits-decimal :
    (fuel n : ℕ) (digits : Bytes)
    → n < 10 ^ suc fuel
    → n < u32_mod
    → parse_digits 0 (decimal_loop fuel n digits) ≡ parse_digits n digits
unfolding decimal_loop
parse_digits-decimal zero n digits h fits =
    let digit : n % 10 ≡ n = omega arith in rw digit (parse_first n digits (omega arith) fits)
parse_digits-decimal (suc fuel) n digits h fits = elim (Bool-cases (ltb n 10)) [
  | inl small ↦ rw (small, decimal_loop) (parse_first n digits (ltb→lt n 10 small) fits)
  | inr large ↦
      rw (large, decimal_loop)
        (parse_digits-decimal fuel (n / 10) ((48 + n % 10) ∷ digits)
            (omega (arith, pow-suc 10 (suc fuel))) (omega arith)
          ∙ parse_digit (n / 10) (n % 10) digits (omega arith) (omega arith)
          ∙ ap (λ (t : ℕ). parse_digits t digits) (omega arith))
]

-- Every digit string starts with a digit, so that no sign is read.
first_digit :
    (fuel n : ℕ) (digits : Bytes)
    → (d : ℕ) × (rest : Bytes) × (decimal_loop fuel n digits ≡ (48 + d) ∷ rest)
unfolding decimal_loop
first_digit zero n digits = (n % 10, digits, refl)
first_digit (suc fuel) n digits = elim (Bool-cases (ltb n 10)) [
  | inl small ↦ (n, digits, rw (small, decimal_loop) refl)
  | inr large ↦
      let (d, rest, e) = first_digit fuel (n / 10) ((48 + n % 10) ∷ digits) in
      (d, rest, rw (large, decimal_loop) e)
]

no_sign :
    (d : ℕ) (rest : Bytes)
    → string_to_numeric_key ((48 + d) ∷ rest) ≡ parse_digits 0 ((48 + d) ∷ rest)
unfolding string_to_numeric_key
no_sign d rest = ground arith

starts_with_digit :
    (fuel n : ℕ) (digits : Bytes)
    → string_to_numeric_key (decimal_loop fuel n digits)
      ≡ parse_digits 0 (decimal_loop fuel n digits)
starts_with_digit fuel n digits =
    let (d, rest, e) = first_digit fuel n digits in rw e (no_sign d rest)

-- A numeric entry key, printed and parsed, is itself, for every `u32`.
pub parse-print :
    (key : ℕ) → key < u32_mod → string_to_numeric_key (numeric_key_to_string key) ≡ some key
unfolding numeric_key_to_string parse_digits
parse-print key h = starts_with_digit 9 key [] ∙ parse_digits-decimal 9 key [] (omega arith) h

-- So different numeric keys have different texts.
print_injective :
    (a b : ℕ)
    → a < u32_mod
    → b < u32_mod
    → numeric_key_to_string a ≡ numeric_key_to_string b
    → a ≡ b
print_injective a b h k e = cc (parse-print a h, ap string_to_numeric_key e, parse-print b k)
