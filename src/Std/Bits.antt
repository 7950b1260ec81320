-- ===== src/Std/Bits.antt =====
-- Masks and shifts of machine words as arithmetic.
use Prim.Native.Nat.{digits, bit_or-bitwise}
use native.Mathlib.Nat.{pow-suc}
use native.Mathlib.Decide.{ℕ_discrete}
use mathlib.Core.Logic.{ite}
use oaa_s_io_t.Prelude.{
  ℕ, zero, suc, ◌+◌, ◌*◌, ◌/◌, ◌%◌, ◌^◌, ◌≤◌, ◌<◌, max, bit_and, bit_or, ◌≡◌, refl, ap, Bool, true,
  false, arith,
}

module _ (f g : ℕ → ℕ) where
  agree_below : ℕ → Bool
  unfolding ℕ_discrete
  agree_below zero = true
  agree_below (suc n) = ite (ℕ_discrete (f n) (g n)) (agree_below n) false

  agree_below→eq : (n : ℕ) → agree_below n ≡ true → (i : ℕ) → i < n → f i ≡ g i
  unfolding agree_below
  agree_below→eq zero e i h = absurd (omega arith)
  agree_below→eq (suc n) e i h = ground (arith, agree_below→eq n (ground arith) i)

-- One byte under the masks 0x7f and 0x80, checked over the whole table.
pub low_bits : (b : ℕ) → b < 256 → bit_and b 0x7f ≡ b % 128
unfolding agree_below
low_bits = agree_below→eq _ _ 256 refl

pub top_bit : (b : ℕ) → b < 256 → bit_and b 0x80 ≡ b / 128 * 128
unfolding agree_below
top_bit = agree_below→eq _ _ 256 refl

pub set_top_bit : (b : ℕ) → b < 128 → bit_or b 0x80 ≡ b + 128
unfolding agree_below
set_top_bit = agree_below→eq _ _ 128 refl

abbrev or_digits : ℕ → ℕ → ℕ → ℕ
or_digits n a b = digits (λ b. b) max n a b

-- Rounds beyond the number's own digits change nothing.
or_digits-rounds : (n m a b : ℕ) → a ≤ n → a ≤ m → or_digits n a b ≡ or_digits m a b
or_digits-rounds zero zero a b p q = refl
or_digits-rounds zero (suc m) zero b p q = refl
or_digits-rounds zero (suc m) (suc a) b p q = absurd (omega arith)
or_digits-rounds (suc n) zero zero b p q = refl
or_digits-rounds (suc n) zero (suc a) b p q = absurd (omega arith)
or_digits-rounds (suc n) (suc m) zero b p q = refl
or_digits-rounds (suc n) (suc m) (suc a) b p q =
    omega (arith, or_digits-rounds n m (suc a / 2) (b / 2) (omega arith) (omega arith))

zero-bit_or : (b : ℕ) → bit_or 0 b ≡ b
zero-bit_or b = bit_or-bitwise 0 b

bit_or_step : (a b : ℕ) → bit_or a b ≡ bit_or (a / 2) (b / 2) * 2 + max (a % 2) (b % 2)
bit_or_step zero b = omega (arith, zero-bit_or b, zero-bit_or (b / 2))
bit_or_step (suc a) b = omega (
  arith,
  bit_or-bitwise (suc a) b,
  bit_or-bitwise (suc a / 2) (b / 2),
  or_digits-rounds a (suc a / 2) (suc a / 2) (b / 2) (omega arith) (omega arith),
)

pub double_pow : (c s : ℕ) → c * 2 ^ suc s ≡ 2 * (c * 2 ^ s)
double_pow c s = omega (arith, ap (λ (t : ℕ). c * t) (pow-suc 2 s))

-- `value | chunk << s`, where the value has no bit from `s` on.
pub bit_or_disjoint : (s a c : ℕ) → a < 2 ^ s → bit_or a (c * 2 ^ s) ≡ a + c * 2 ^ s
bit_or_disjoint zero a c h = ground (arith, zero-bit_or (c * 2 ^ 0))
bit_or_disjoint (suc s) a c h = ground (
  arith,
  bit_or_step a (c * 2 ^ suc s),
  double_pow c s,
  bit_or_disjoint s (a / 2) c (omega (arith, pow-suc 2 s)),
)
