-- ===== src/Std/BTreeMap/Retain.antt =====
-- Filtering a map by its keys: composition, agreement, and removal of listed keys.
use oaa_s_io_t.Prelude.{
  ◌≡◌, refl, ap, ◌∙◌, List, [], ◌∷◌, Bool, true, false, not, ◌&&◌, All, arith, if◌then◌else◌,
  fun_ext, none,
}
use oaa_s_io_t.Std.Order.{cmp_same, cmp_distinct, Ord, key_eq, key_eq_sym}
use oaa_s_io_t.Std.BTreeMap.{BTreeMap, get, remove, retain_keys}

module _ {ℓ κ} {K : Type ℓ} {V : Type κ} where
  pub retain_keys-retain_keys :
      (p q : K → Bool) (m : BTreeMap K V)
      → retain_keys p (retain_keys q m) ≡ retain_keys (λ k. q k && p k) m
  unfolding retain_keys
  retain_keys-retain_keys p q [] = refl
  retain_keys-retain_keys p q ((k, v) ∷ m) = ground (arith, retain_keys-retain_keys p q m)

  pub retain_all : (m : BTreeMap K V) → retain_keys (λ k. true) m ≡ m
  unfolding retain_keys
  retain_all [] = refl
  retain_all ((k, v) ∷ m) = ap (λ (n : BTreeMap K V). (k, v) ∷ n) (retain_all m)

  pub retain_agree :
      (p q : K → Bool) (m : BTreeMap K V)
      → All (λ e. p e.0 ≡ q e.0) m
      → retain_keys p m ≡ retain_keys q m
  unfolding retain_keys
  retain_agree p q [] h = refl
  retain_agree p q ((k, v) ∷ m) h = ground (arith, retain_agree p q m h.1)

module _ {ℓ κ} {K : Type ℓ} {V : Type κ} ⦃o : Ord K⦄ where
  -- Whether a key is among those of a list of entries.
  unfoldable pub listed : List (K × V) → K → Bool
  listed [] k = false
  listed ((j, v) ∷ items) k = if key_eq k j then true else listed items k

  -- The keys of `items`, removed one after another.
  unfoldable pub remove_all : BTreeMap K V → List (K × V) → BTreeMap K V
  unfolding remove
  remove_all m [] = m
  remove_all m ((k, v) ∷ items) = remove_all (remove m k) items

  remove_all-listed :
      (items : List (K × V)) (m : BTreeMap K V)
      → remove_all m items ≡ retain_keys (λ k. not (listed items k)) m
  unfolding remove_all listed
  remove_all-listed [] m = rw retain_all
  remove_all-listed ((j, v) ∷ items) m =
      remove_all-listed items (remove m j)
      ∙ retain_keys-retain_keys (λ k. not (listed items k)) (λ k. not (key_eq j k)) m
      ∙ ap (λ (p : K → Bool). retain_keys p m) (fun_ext (λ k. ground (arith, key_eq_sym j k)))

  listed-retain_keys :
      (p : K → Bool) (m : BTreeMap K V) (k : K) → listed (retain_keys p m) k ≡ (listed m k && p k)
  unfolding listed retain_keys
  listed-retain_keys p [] k = refl
  listed-retain_keys p ((j, v) ∷ m) k = ground (arith, listed-retain_keys p m k, cmp_distinct k j)

  listed_weaken :
      (e : K × V) (m n : BTreeMap K V)
      → All (λ f. listed m f.0 ≡ true) n
      → All (λ f. listed (e ∷ m) f.0 ≡ true) n
  unfolding listed
  listed_weaken (j, v) m [] h = tt
  listed_weaken (j, v) m (f ∷ n) h = (ground arith, listed_weaken (j, v) m n h.1)

  listed_self : (m : BTreeMap K V) → All (λ f. listed m f.0 ≡ true) m
  unfolding listed
  listed_self [] = tt
  listed_self ((j, v) ∷ m) = (ground (arith, cmp_same j), listed_weaken (j, v) m m (listed_self m))

  not-listed :
      (p : K → Bool) (m n : BTreeMap K V)
      → All (λ f. listed m f.0 ≡ true) n
      → All (λ f. not (listed (retain_keys p m) f.0) ≡ not (p f.0)) n
  not-listed p m [] h = tt
  not-listed p m (f ∷ n) h = (rw (listed-retain_keys p m f.0, h.0) refl, not-listed p m n h.1)

  -- Removing, one by one, the entries that a test picks leaves those that it does not.
  pub remove_all-retain_keys :
      (p : K → Bool) (m : BTreeMap K V)
      → remove_all m (retain_keys p m) ≡ retain_keys (λ k. not (p k)) m
  remove_all-retain_keys p m =
      remove_all-listed (retain_keys p m) m ∙ retain_agree _ _ m (not-listed p m m (listed_self m))

  -- Removing a key that is not there changes nothing.
  pub remove-absent : (m : BTreeMap K V) (k : K) → get m k ≡ none → remove m k ≡ m
  unfolding remove retain_keys get
  remove-absent [] k h = refl
  remove-absent ((j, w) ∷ m) k h = ground (arith, remove-absent m k)
