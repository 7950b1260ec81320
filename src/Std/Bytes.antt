-- ===== src/Std/Bytes.antt =====
-- Byte slices, their order (`<[u8] as Ord>::cmp`), and integers written to and read from bytes.
pub mod Words
use oaa_s_io_t.Prelude.{ℕ, ◌<◌, ◌≡◌, refl, List, [], ◌∷◌, compare, Ordering, All, arith}
use oaa_s_io_t.Std.Order.{IsTotalOrder, Ord, turned}
use Prim.Native.Nat.Ordering.{lt, eq, gt}

-- A `u8` is a number below 256; `Vec<u8>`, `&[u8]` and the text of a `String` are lists of them.
abbrev pub Bytes : Type 0
Bytes = List ℕ

abbrev pub AreBytes : Bytes → Type 0
AreBytes = All (λ b. b < 256)

abbrev pub then : Ordering → Ordering → Ordering
then eq second = second
then first _ = first

unfoldable pub compare_bytes : Bytes → Bytes → Ordering
compare_bytes [] [] = eq
compare_bytes [] (y ∷ ys) = lt
compare_bytes (x ∷ xs) [] = gt
compare_bytes (x ∷ xs) (y ∷ ys) = then (compare x y) (compare_bytes xs ys)

bytes_eq : (a b : Bytes) → compare_bytes a b ≡ eq → a ≡ b
unfolding compare_bytes
bytes_eq [] [] h = refl
bytes_eq [] (y ∷ ys) h = ground arith
bytes_eq (x ∷ xs) [] h = ground arith
bytes_eq (x ∷ xs) (y ∷ ys) h = ground (arith, bytes_eq xs ys)

bytes_turn : (a b : Bytes) → compare_bytes b a ≡ turned (compare_bytes a b)
unfolding compare_bytes
bytes_turn [] [] = refl
bytes_turn [] (y ∷ ys) = refl
bytes_turn (x ∷ xs) [] = refl
bytes_turn (x ∷ xs) (y ∷ ys) = ground (arith, bytes_turn xs ys)

bytes_trans :
    (a b c : Bytes) → compare_bytes a b ≡ lt → compare_bytes b c ≡ lt → compare_bytes a c ≡ lt
unfolding compare_bytes
bytes_trans [] [] c h k = ground arith
bytes_trans (x ∷ xs) [] c h k = ground arith
bytes_trans [] (y ∷ ys) [] h k = ground arith
bytes_trans [] (y ∷ ys) (z ∷ zs) h k = refl
bytes_trans (x ∷ xs) (y ∷ ys) [] h k = ground arith
bytes_trans (x ∷ xs) (y ∷ ys) (z ∷ zs) h k = ground (arith, bytes_trans xs ys zs)

pub compare_bytes-IsTotalOrder : IsTotalOrder compare_bytes
compare_bytes-IsTotalOrder = record {
  distinct = bytes_eq;
  turns = bytes_turn;
  chains = λ {x} {y} {z} h k. bytes_trans x y z h k;
}

instance unfoldable pub bytes_ord : Ord Bytes
unfolding compare_bytes
bytes_ord = record { cmp = compare_bytes; total = compare_bytes-IsTotalOrder }
