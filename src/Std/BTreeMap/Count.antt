-- ===== src/Std/BTreeMap/Count.antt =====
-- The number and the total weight of a map's entries.
use oaa_s_io_t.Prelude.{ℕ, ◌+◌, ◌≡◌, refl, [], ◌∷◌, Option, none, some, arith, length, not, Bool}
use oaa_s_io_t.Std.Order.{cmp_same, cmp_distinct, Ord}
use oaa_s_io_t.Std.BTreeMap.{BTreeMap, get, insert, remove, retain_keys}
use oaa_s_io_t.Std.BTreeMap.Sorted.{Above, IsSorted, get-Above, Above-trans}

module _ {ℓ κ} {K : Type ℓ} {V : Type κ} (weight : K → V → ℕ) where
  unfoldable pub total : BTreeMap K V → ℕ
  total [] = 0
  total ((k, v) ∷ m) = weight k v + total m

  abbrev pub weight_of : K → Option V → ℕ
  weight_of k none = 0
  weight_of k (some v) = weight k v

  -- What a test keeps and what it drops make up the whole.
  pub total-retain_keys :
      (p : K → Bool) (m : BTreeMap K V)
      → total (retain_keys p m) + total (retain_keys (λ k. not (p k)) m) ≡ total m
  unfolding total retain_keys
  total-retain_keys p [] = omega arith
  total-retain_keys p ((j, w) ∷ m) = ground (arith, total-retain_keys p m)

module _ {ℓ κ} {K : Type ℓ} {V : Type κ} ⦃o : Ord K⦄ (weight : K → V → ℕ) where
  pub total-insert :
      (m : BTreeMap K V) (k : K) (v : V)
      → IsSorted m
      → total weight (insert m k v) + weight_of weight k (get m k) ≡ total weight m + weight k v
  unfolding total insert get
  total-insert [] k v s = omega arith
  total-insert ((j, w) ∷ m) k v s =
      ground
        (arith, total-insert m k v, cmp_distinct k j, cmp_same k, get-Above k m, Above-trans k j m)

  total-absent : (m : BTreeMap K V) (k : K) → Above k m → total weight (remove m k) ≡ total weight m
  unfolding total remove retain_keys
  total-absent [] k s = refl
  total-absent ((j, w) ∷ m) k s = ground (arith, total-absent m k)

  pub total-remove :
      (m : BTreeMap K V) (k : K)
      → IsSorted m
      → total weight (remove m k) + weight_of weight k (get m k) ≡ total weight m
  unfolding total remove retain_keys get
  total-remove [] k s = omega arith
  total-remove ((j, w) ∷ m) k s =
      ground (arith, total-remove m k, cmp_distinct k j, total-absent m k)

-- The number of entries is the total of a weight of 1.
pub length-total {ℓ κ} :
    {K : Type ℓ} {V : Type κ} (m : BTreeMap K V) → length m ≡ total (λ _ _. 1) m
unfolding total
length-total [] = refl
length-total ((k, v) ∷ m) = omega (arith, length-total m)

module _ {ℓ κ} {K : Type ℓ} {V : Type κ} ⦃o : Ord K⦄ where
  pub length-insert :
      (m : BTreeMap K V) (k : K) (v : V)
      → IsSorted m
      → length (insert m k v) + weight_of (λ _ _. 1) k (get m k) ≡ length m + 1
  length-insert m k v s =
      omega (arith, total-insert (λ _ _. 1) m k v s, length-total m, length-total (insert m k v))

  pub length-remove :
      (m : BTreeMap K V) (k : K)
      → IsSorted m
      → length (remove m k) + weight_of (λ _ _. 1) k (get m k) ≡ length m
  length-remove m k s =
      omega (arith, total-remove (λ _ _. 1) m k s, length-total m, length-total (remove m k))

  pub length-retain_keys :
      (p : K → Bool) (m : BTreeMap K V)
      → length (retain_keys p m) + length (retain_keys (λ k. not (p k)) m) ≡ length m
  length-retain_keys p m = omega (
    arith,
    total-retain_keys (λ _ _. 1) p m,
    length-total m,
    length-total (retain_keys p m),
    length-total (retain_keys (λ k. not (p k)) m),
  )

pub total-no_entries {ℓ κ} :
    {K : Type ℓ} {V : Type κ} (weight : K → V → ℕ) (m : BTreeMap K V)
    → length m ≡ 0
    → total weight m ≡ 0
unfolding total
total-no_entries weight [] h = refl
total-no_entries weight ((k, v) ∷ m) h = absurd (omega arith)
