-- ===== src/Std/BTreeMap/Sorted.antt =====
-- The order of a map's entries, and that the operations keep it.
use oaa_s_io_t.Prelude.{
  ◌≡◌, refl, ap, ◌∙◌, [], ◌∷◌, ◌++◌, append_assoc, append-nil, Bool, none, arith,
}
use oaa_s_io_t.Std.Order.{cmp_distinct, before_of_gt, after_of_lt, before_trans, Ord, ◌≺◌}
use oaa_s_io_t.Std.BTreeMap.{BTreeMap, Bound, get, insert, remove, retain_keys, range, extend}

module _ {ℓ κ} {K : Type ℓ} {V : Type κ} ⦃o : Ord K⦄ where
  -- Every key of the map comes after `k`.
  abbrev pub Above : K → BTreeMap K V → Type 0
  Above k [] = Unit
  Above k ((j, w) ∷ m) = (k ≺ j) × Above k m

  abbrev pub IsSorted : BTreeMap K V → Type 0
  IsSorted [] = Unit
  IsSorted ((j, w) ∷ m) = Above j m × IsSorted m

  pub Above-trans : (a b : K) (m : BTreeMap K V) → a ≺ b → Above b m → Above a m
  Above-trans a b [] h s = tt
  Above-trans a b ((j, w) ∷ m) h s = (before_trans a b j h s.0, Above-trans a b m h s.1)

  Above-insert : (a k : K) (v : V) (m : BTreeMap K V) → a ≺ k → Above a m → Above a (insert m k v)
  unfolding insert
  Above-insert a k v [] h s = (h, tt)
  Above-insert a k v ((j, w) ∷ m) h s = ground (arith, Above-insert a k v m)

  pub insert-IsSorted : (m : BTreeMap K V) (k : K) (v : V) → IsSorted m → IsSorted (insert m k v)
  unfolding insert
  insert-IsSorted [] k v s = (tt, tt)
  insert-IsSorted ((j, w) ∷ m) k v s = ground (
    arith,
    insert-IsSorted m k v,
    Above-insert j k v m,
    Above-trans k j m,
    before_of_gt k j,
    cmp_distinct k j,
  )

  Above-retain_keys :
      (a : K) (p : K → Bool) (m : BTreeMap K V) → Above a m → Above a (retain_keys p m)
  unfolding retain_keys
  Above-retain_keys a p [] s = tt
  Above-retain_keys a p ((j, w) ∷ m) s = ground (arith, Above-retain_keys a p m)

  pub retain_keys-IsSorted :
      (p : K → Bool) (m : BTreeMap K V) → IsSorted m → IsSorted (retain_keys p m)
  unfolding retain_keys
  retain_keys-IsSorted p [] s = tt
  retain_keys-IsSorted p ((j, w) ∷ m) s =
      ground (arith, retain_keys-IsSorted p m, Above-retain_keys j p m)

  pub remove-IsSorted : (m : BTreeMap K V) (k : K) → IsSorted m → IsSorted (remove m k)
  unfolding remove
  remove-IsSorted m k s = retain_keys-IsSorted _ m s

  pub range-IsSorted : (lo hi : Bound K) (m : BTreeMap K V) → IsSorted m → IsSorted (range lo hi m)
  unfolding range
  range-IsSorted lo hi m s = retain_keys-IsSorted _ m s

  -- A key below all of a map is not in it.
  pub get-Above : (k : K) (m : BTreeMap K V) → Above k m → get m k ≡ none
  unfolding get
  get-Above k [] s = refl
  get-Above k ((j, w) ∷ m) s = ground (arith, get-Above k m)

  -- A key beyond every key of a sorted map is inserted at its end.
  Below : BTreeMap K V → K → Type 0
  Below [] k = Unit
  Below ((j, w) ∷ m) k = (j ≺ k) × Below m k

  insert_last : (m : BTreeMap K V) (k : K) (v : V) → Below m k → insert m k v ≡ m ++ (k, v) ∷ []
  unfolding insert Below
  insert_last [] k v b = refl
  insert_last ((j, w) ∷ m) k v b = ground (arith, insert_last m k v, after_of_lt j k)

  Below-split :
      (m : BTreeMap K V) (k : K) (v : V) (rest : BTreeMap K V)
      → IsSorted (m ++ (k, v) ∷ rest)
      → Below m k
  unfolding Below
  Below-split [] k v rest s = tt
  Below-split ((j, w) ∷ m) k v rest s = (middle m s.0, Below-split m k v rest s.1)
    where
      middle : (n : BTreeMap K V) → Above j (n ++ (k, v) ∷ rest) → j ≺ k
      middle [] a = a.0
      middle ((i, u) ∷ n) a = middle n a.1

  extend_sorted : (m xs : BTreeMap K V) → IsSorted (m ++ xs) → extend m xs ≡ m ++ xs
  unfolding extend
  extend_sorted m [] s = ground (arith, append-nil m)
  extend_sorted m ((k, v) ∷ xs) s =
      ap (λ (n : BTreeMap K V). extend n xs) (insert_last m k v (Below-split m k v xs s))
      ∙ extend_sorted (m ++ (k, v) ∷ []) xs (subst-sorted)
      ∙ append_assoc m ((k, v) ∷ []) xs
    where
      subst-sorted : IsSorted ((m ++ (k, v) ∷ []) ++ xs)
      subst-sorted = rw append_assoc s

  -- Rebuilding a map from its own entries gives it back.
  pub extend_self : (m : BTreeMap K V) → IsSorted m → extend [] m ≡ m
  extend_self m s = extend_sorted [] m s

  pub extend-IsSorted : (m xs : BTreeMap K V) → IsSorted m → IsSorted (extend m xs)
  unfolding extend
  extend-IsSorted m [] s = s
  extend-IsSorted m ((k, v) ∷ xs) s = extend-IsSorted (insert m k v) xs (insert-IsSorted m k v s)
