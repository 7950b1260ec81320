-- ===== src/Std/Bytes/Words.antt =====
-- `to_le_bytes`, `from_le_bytes`, and the big-endian pair, at a width in bytes.
use native.Mathlib.Nat.{pow-suc, one-le-pow, mod-lt, mod-eq_of_lt, div-add-mod'}
use oaa_s_io_t.Prelude.{
  ℕ, zero, suc, ◌+◌, ◌*◌, ◌/◌, ◌%◌, ◌^◌, ◌≤◌, ◌<◌, ◌≡◌, refl, ap, [], ◌∷◌, length, arith, compare,
}
use oaa_s_io_t.Std.Bytes.{Bytes, compare_bytes, then}

unfoldable pub to_le_bytes : ℕ → ℕ → Bytes
to_le_bytes zero n = []
to_le_bytes (suc w) n = n % 256 ∷ to_le_bytes w (n / 256)

unfoldable pub from_le_bytes : Bytes → ℕ
from_le_bytes [] = 0
from_le_bytes (b ∷ bytes) = b + 256 * from_le_bytes bytes

unfoldable pub to_be_bytes : ℕ → ℕ → Bytes
to_be_bytes zero n = []
to_be_bytes (suc w) n = n / 256 ^ w % 256 ∷ to_be_bytes w (n % 256 ^ w)

unfoldable pub from_be_bytes : Bytes → ℕ
from_be_bytes [] = 0
from_be_bytes (b ∷ bytes) = b * 256 ^ length bytes + from_be_bytes bytes

pub length-to_le_bytes : (w n : ℕ) → length (to_le_bytes w n) ≡ w
unfolding to_le_bytes
length-to_le_bytes zero n = refl
length-to_le_bytes (suc w) n = ap suc (length-to_le_bytes w (n / 256))

pub length-to_be_bytes : (w n : ℕ) → length (to_be_bytes w n) ≡ w
unfolding to_be_bytes
length-to_be_bytes zero n = refl
length-to_be_bytes (suc w) n = ap suc (length-to_be_bytes w (n % 256 ^ w))

pub from-to_le_bytes : (w n : ℕ) → n < 256 ^ w → from_le_bytes (to_le_bytes w n) ≡ n
unfolding from_le_bytes to_le_bytes
from-to_le_bytes zero n h = omega arith
from-to_le_bytes (suc w) n h =
    let shrinks : n / 256 < 256 ^ w = omega (arith, pow-suc 256 w) in
    omega (arith, from-to_le_bytes w (n / 256) shrinks)

pow_pos : (w : ℕ) → 0 < 256 ^ w
pow_pos w = one-le-pow w 256 (omega arith)

high_digit : (w n : ℕ) → n < 256 ^ suc w → n / 256 ^ w < 256
high_digit w n h = grind (arith, pow-suc 256 w)

pub from-to_be_bytes : (w n : ℕ) → n < 256 ^ w → from_be_bytes (to_be_bytes w n) ≡ n
unfolding from_be_bytes to_be_bytes
from-to_be_bytes zero n h = omega arith
from-to_be_bytes (suc w) n h =
    let digit : n / 256 ^ w % 256 ≡ n / 256 ^ w = mod-eq_of_lt (high_digit w n h) in
    rw
      (
        digit,
        length-to_be_bytes w (n % 256 ^ w),
        from-to_be_bytes w (n % 256 ^ w) (mod-lt n (pow_pos w)),
      )
      (div-add-mod' n (256 ^ w))

-- Two numbers compare by their quotients, and then by their remainders.
compare_quotients :
    (a b p : ℕ) → 0 < p → then (compare (a / p) (b / p)) (compare (a % p) (b % p)) ≡ compare a b
compare_quotients a b p pos = ground (
  arith,
  div-add-mod' a p,
  div-add-mod' b p,
  mod-lt a pos,
  mod-lt b pos,
  scale (a / p) (b / p) p,
  scale (b / p) (a / p) p,
)
  where
    scale : (x y q : ℕ) → x < y → x * q + q ≤ y * q
    scale x y q h = grind arith

-- Big-endian order is the order of the numbers.
pub compare-to_be_bytes :
    (w a b : ℕ)
    → a < 256 ^ w
    → b < 256 ^ w
    → compare_bytes (to_be_bytes w a) (to_be_bytes w b) ≡ compare a b
unfolding compare_bytes to_be_bytes
compare-to_be_bytes zero a b h k = ground arith
compare-to_be_bytes (suc w) a b h k =
    rw
      (
        mod-eq_of_lt (high_digit w a h),
        mod-eq_of_lt (high_digit w b k),
        compare-to_be_bytes w (a % 256 ^ w) (b % 256 ^ w) (mod-lt a (pow_pos w))
            (mod-lt b (pow_pos w)),
      )
      (compare_quotients a b (256 ^ w) (pow_pos w))
