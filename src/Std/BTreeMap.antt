-- ===== src/Std/BTreeMap.antt =====
-- `std::collections::BTreeMap`, as its entries in the order of their keys.
pub mod Laws
pub mod Sorted
pub mod Count
pub mod Retain
use oaa_s_io_t.Prelude.{
  ℕ, ◌≡◌, List, [], ◌∷◌, Bool, true, false, not, ◌&&◌, Option, none, some, if◌then◌else◌,
}
use oaa_s_io_t.Std.Order.{Ord, key_eq, key_lt, key_le}
use Prim.Native.Nat.Ordering.{lt, eq, gt}

abbrev pub BTreeMap {ℓ κ} : Type ℓ → Type κ → Type (ℓ ⊔ κ)
BTreeMap K V = List (K × V)

-- `std::ops::Bound`
pub data Bound {ℓ} (K : Type ℓ) : Type ℓ where
  included excluded : K → Bound K
  unbounded : Bound K

module _ {ℓ κ} {K : Type ℓ} {V : Type κ} where
  -- `last_key_value` and `first_key_value`: the greatest and the least entry.
  unfoldable pub last_key_value : BTreeMap K V → Option (K × V)
  last_key_value [] = none
  last_key_value (e ∷ []) = some e
  last_key_value (e ∷ f ∷ m) = last_key_value (f ∷ m)

  unfoldable pub first_key_value : BTreeMap K V → Option (K × V)
  first_key_value [] = none
  first_key_value (e ∷ m) = some e

  -- `retain` by a test on the key.
  unfoldable pub retain_keys : (K → Bool) → BTreeMap K V → BTreeMap K V
  retain_keys p [] = []
  retain_keys p ((j, w) ∷ m) = let rest = retain_keys p m in if p j then (j, w) ∷ rest else rest

module _ {ℓ} {K : Type ℓ} ⦃o : Ord K⦄ where
  unfoldable pub above : Bound K → K → Bool
  above (included a) k = key_le a k
  above (excluded a) k = key_lt a k
  above unbounded k = true

  unfoldable pub below : Bound K → K → Bool
  below (included b) k = key_le k b
  below (excluded b) k = key_lt k b
  below unbounded k = true

module _ {ℓ κ} {K : Type ℓ} {V : Type κ} ⦃o : Ord K⦄ where
  unfoldable pub get : BTreeMap K V → K → Option V
  get [] k = none
  get ((j, w) ∷ m) k = if key_eq k j then some w else get m k

  unfoldable pub contains_key : BTreeMap K V → K → Bool
  unfolding get
  contains_key m k = elim (get m k) [ none ↦ false | some _ ↦ true ]

  unfoldable pub insert : BTreeMap K V → K → V → BTreeMap K V
  insert [] k v = (k, v) ∷ []
  insert ((j, w) ∷ m) k v = elim (o.cmp k j) [
    | lt ↦ (k, v) ∷ (j, w) ∷ m
    | eq ↦ (k, v) ∷ m
    | gt ↦ (j, w) ∷ insert m k v
  ]

  unfoldable pub remove : BTreeMap K V → K → BTreeMap K V
  unfolding retain_keys
  remove m k = retain_keys (λ j. not (key_eq k j)) m

  -- The entries of `range((lo, hi))`, where it does not panic.
  unfoldable pub range : Bound K → Bound K → BTreeMap K V → BTreeMap K V
  unfolding retain_keys above below
  range lo hi m = retain_keys (λ k. above lo k && below hi k) m

  -- `extend`: one `insert` after another.
  unfoldable pub extend : BTreeMap K V → List (K × V) → BTreeMap K V
  unfolding insert
  extend m [] = m
  extend m ((k, v) ∷ xs) = extend (insert m k v) xs

-- `range` panics where the start is beyond the end, or where both bounds exclude one key.
module _ {ℓ} {K : Type ℓ} ⦃o : Ord K⦄ where
  unfoldable pub range_panics : Bound K → Bound K → Bool
  range_panics (included a) (included b) = key_lt b a
  range_panics (included a) (excluded b) = key_lt b a
  range_panics (excluded a) (included b) = key_lt b a
  range_panics (excluded a) (excluded b) = key_le b a
  range_panics _ unbounded = false
  range_panics unbounded _ = false
