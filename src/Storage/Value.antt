-- ===== src/Storage/Value.antt =====
-- `StorageValue` of commons/oprc-dp-storage/src/storage_value.rs: bytes in one of two
-- representations. The constructors choose by length, and order and equality read the bytes.
use oaa_s_io_t.Prelude.{
  ℕ, ◌≤◌, ◌<◌, ◌≡◌, refl, sym, ◌∙◌, ap, ◌↔◌, [], Bool, true, false, ◌==◌, leb, if◌then◌else◌,
  length, arith, Ordering, Bool-cases, inl, inr,
}
use oaa_s_io_t.Std.Bytes.{Bytes, compare_bytes, compare_bytes-IsTotalOrder, bytes_ord}
use oaa_s_io_t.Std.Order.{cmp_same}
use Prim.Native.Nat.Ordering.{eq}

pub data StorageValue : Type 0 where
  small large : Bytes → StorageValue

-- `new` and `from_slice` (the copy leaves no trace), and `from_bytes`.
unfoldable pub new : Bytes → StorageValue
new bytes = if leb (length bytes) 64 then small bytes else large bytes

unfoldable pub from_slice : Bytes → StorageValue
from_slice bytes = if leb (length bytes) 64 then small bytes else large bytes

unfoldable pub as_slice : StorageValue → Bytes
as_slice (small bytes) = bytes
as_slice (large bytes) = bytes

unfoldable pub len : StorageValue → ℕ
len (small bytes) = length bytes
len (large bytes) = length bytes

unfoldable pub is_empty : StorageValue → Bool
unfolding len
is_empty v = len v == 0

unfoldable pub into_vec : StorageValue → Bytes
into_vec (small bytes) = bytes
into_vec (large bytes) = bytes

unfoldable pub empty : StorageValue
empty = small []

unfoldable pub is_small : StorageValue → Bool
is_small (small _) = true
is_small (large _) = false

-- `Ord::cmp`: by content, not by representation.
unfoldable pub cmp : StorageValue → StorageValue → Ordering
unfolding as_slice compare_bytes
cmp a b = compare_bytes (as_slice a) (as_slice b)

-- The representation that the length calls for.
abbrev pub IsCanonical : StorageValue → Type 0
IsCanonical (small bytes) = length bytes ≤ 64
IsCanonical (large bytes) = 64 < length bytes

pub new-IsCanonical : (bytes : Bytes) → IsCanonical (new bytes)
unfolding new
new-IsCanonical bytes = elim (Bool-cases (leb (length bytes) 64)) [
  | inl h ↦ rw h (ground arith)
  | inr h ↦ rw h (ground arith)
]

pub new-as_slice : (v : StorageValue) → IsCanonical v → new (as_slice v) ≡ v
unfolding new as_slice
new-as_slice (small bytes) h = ground arith
new-as_slice (large bytes) h = ground arith

-- A value made from bytes gives them back, by every reader, and its representation is the one that
-- its length calls for; and `from_slice` makes the value that `new` makes.
pub new_reads :
    (bytes : Bytes)
    → (as_slice (new bytes) ≡ bytes)
      × (into_vec (new bytes) ≡ bytes)
      × (len (new bytes) ≡ length bytes)
      × (is_small (new bytes) ≡ leb (length bytes) 64)
      × (from_slice bytes ≡ new bytes)
unfolding new as_slice into_vec len is_small from_slice
new_reads bytes = (ground arith, ground arith, ground arith, ground arith, refl)

-- On values that the constructors make, the order says "equal" exactly for equal values, so the
-- derived equality, which also compares the representation, agrees with the order.
pub cmp_eq_iff : (a b : StorageValue) → IsCanonical a → IsCanonical b → (cmp a b ≡ eq) ↔ (a ≡ b)
unfolding cmp bytes_ord
cmp_eq_iff a b ca cb = (
  λ h.
      let same : as_slice a ≡ as_slice b = compare_bytes-IsTotalOrder.distinct _ _ h in
      sym (new-as_slice a ca) ∙ ap new same ∙ new-as_slice b cb,
  λ e. rw e (cmp_same ⦃o = bytes_ord⦄ (as_slice b)),
)
