-- ===== src/Std/BTreeMap/Laws.antt =====
-- What each operation of a map does to a look-up.
use oaa_s_io_t.Prelude.{◌≡◌, refl, [], ◌∷◌, Bool, not, ◌&&◌, none, some, if◌then◌else◌, arith}
use oaa_s_io_t.Std.Order.{cmp_same, cmp_distinct, Ord, key_eq, key_eq_sym}
use oaa_s_io_t.Std.BTreeMap.{BTreeMap, Bound, get, insert, remove, retain_keys, range, above, below}

module _ {ℓ κ} {K : Type ℓ} {V : Type κ} ⦃o : Ord K⦄ where
  pub get-insert :
      (m : BTreeMap K V) (k j : K) (v : V)
      → get (insert m k v) j ≡ (if key_eq k j then some v else get m j)
  unfolding get insert
  get-insert [] k j v = ground (arith, key_eq_sym k j)
  get-insert ((i, w) ∷ m) k j v = ground (
    arith,
    get-insert m k j v,
    key_eq_sym k j,
    cmp_distinct k i,
    cmp_distinct k j,
    cmp_distinct j i,
    cmp_same k,
  )

  pub get-retain_keys :
      (p : K → Bool) (m : BTreeMap K V) (j : K)
      → get (retain_keys p m) j ≡ (if p j then get m j else none)
  unfolding get retain_keys
  get-retain_keys p [] j = ground arith
  get-retain_keys p ((i, w) ∷ m) j = ground (arith, get-retain_keys p m j, cmp_distinct j i)

  pub get-remove :
      (m : BTreeMap K V) (k j : K) → get (remove m k) j ≡ (if key_eq k j then none else get m j)
  unfolding remove
  get-remove m k j = ground (arith, get-retain_keys (λ i. not (key_eq k i)) m j)

  pub get-range :
      (lo hi : Bound K) (m : BTreeMap K V) (j : K)
      → get (range lo hi m) j ≡ (if above lo j && below hi j then get m j else none)
  unfolding range
  get-range lo hi m j = get-retain_keys (λ i. above lo i && below hi i) m j

  pub get-empty : (k : K) → get {V = V} [] k ≡ none
  unfolding get
  get-empty k = refl

pub ruleset map_laws = (get-insert, get-remove, get-retain_keys, get-range, get-empty)
