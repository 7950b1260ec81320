-- ===== src/Std/Order.antt =====
-- `std::cmp::Ord`, with the laws that the trait asks of `cmp`.
use oaa_s_io_t.Prelude.{ℕ, ◌≡◌, ◌≢◌, Bool, true, false, compare, Ordering, arith}
use Prim.Native.Nat.Ordering.{lt, eq, gt}

-- `Ordering::reverse`
abbrev pub turned : Ordering → Ordering
turned lt = gt
turned eq = eq
turned gt = lt

-- The order tells different keys apart, turns with its arguments, and chains.
pub record IsTotalOrder {ℓ} {T : Type ℓ} (order : T → T → Ordering) : Type ℓ where
  pub distinct : (x y : T) → order x y ≡ eq → x ≡ y
  pub turns : (x y : T) → order y x ≡ turned (order x y)
  pub chains : {x y z : T} → order x y ≡ lt → order y z ≡ lt → order x z ≡ lt

pub record Ord {ℓ} (Key : Type ℓ) : Type ℓ where
  pub cmp : Key → Key → Ordering
  pub total : IsTotalOrder cmp

abbrev pub is_eq : Ordering → Bool
is_eq eq = true
is_eq _ = false

abbrev pub is_lt : Ordering → Bool
is_lt lt = true
is_lt _ = false

-- `k == j`, `k < j` and `k <= j` on the keys of a map.
module _ {ℓ} {K : Type ℓ} ⦃o : Ord K⦄ where
  abbrev pub key_eq : K → K → Bool
  key_eq a b = is_eq (o.cmp a b)

  abbrev pub key_lt : K → K → Bool
  key_lt a b = is_lt (o.cmp a b)

  abbrev pub key_le : K → K → Bool
  key_le a b = elim (o.cmp a b) [ gt ↦ false | _ ↦ true ]

  -- A key that comes before another.
  infix 50 ◌≺◌
  abbrev pub ◌≺◌ : K → K → Type 0
  a ≺ b = o.cmp a b ≡ lt

  pub cmp_same : (a : K) → o.cmp a a ≡ eq
  cmp_same a = ground (arith, o.total.turns a a)

  pub cmp_distinct : (a b : K) → o.cmp a b ≡ eq → a ≡ b
  cmp_distinct a b h = o.total.distinct a b h

  pub before_of_gt : (a b : K) → o.cmp a b ≡ gt → b ≺ a
  before_of_gt a b h = ground (arith, o.total.turns a b)

  pub after_of_lt : (a b : K) → a ≺ b → o.cmp b a ≡ gt
  after_of_lt a b h = ground (arith, o.total.turns a b)

  pub before_trans : (a b c : K) → a ≺ b → b ≺ c → a ≺ c
  before_trans a b c h k = o.total.chains h k

  pub key_eq→eq : (a b : K) → key_eq a b ≡ true → a ≡ b
  key_eq→eq a b h = ground (arith, cmp_distinct a b)

  pub key_eq_refl : (a : K) → key_eq a a ≡ true
  key_eq_refl a = ground (arith, cmp_same a)

  pub key_eq-ne : (a b : K) → a ≢ b → key_eq a b ≡ false
  key_eq-ne a b h = ground (arith, cmp_distinct a b)

  pub key_eq_sym : (a b : K) → key_eq a b ≡ key_eq b a
  key_eq_sym a b = ground (arith, o.total.turns a b)

pub compare-IsTotalOrder : IsTotalOrder compare
compare-IsTotalOrder = record {
  distinct = λ x y h. ground arith;
  turns = λ x y. ground arith;
  chains = λ h k. ground arith;
}

instance unfoldable pub nat_ord : Ord ℕ
nat_ord = record { cmp = compare; total = compare-IsTotalOrder }
