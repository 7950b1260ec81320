-- ===== src/Storage/Memory/Application/Pages.antt =====
-- `scan_range_paginated` of commons/oprc-dp-storage/src/backends/memory.rs.
use native.Mathlib.Nat.{zero-add}
use oaa_s_io_t.Prelude.{
  ℕ, zero, suc, ◌+◌, ◌≡◌, refl, ap, subst, ◌∙◌, sym, [], ◌∷◌, Bool, true, false, ◌&&◌, Option, none,
  some, arith, take, drop, All,
}
use oaa_s_io_t.Std.Bytes.{Bytes, bytes_ord}
use oaa_s_io_t.Std.Order.{key_le, key_lt, ◌≺◌, cmp_same, cmp_distinct, before_trans, after_of_lt}
use oaa_s_io_t.Std.BTreeMap
use oaa_s_io_t.Std.BTreeMap.{BTreeMap, Bound, included, excluded, range, retain_keys, above, below}
use oaa_s_io_t.Std.BTreeMap.Sorted.{Above, IsSorted, range-IsSorted}
use oaa_s_io_t.Std.BTreeMap.Retain.{retain_keys-retain_keys, retain_agree}
use oaa_s_io_t.Storage.Outcome.{ok}
use oaa_s_io_t.Storage.Memory.{MemoryStorage, Entries}
use oaa_s_io_t.Storage.Memory.Application.{page_loop, scan_range_paginated}

abbrev pub first_key : Entries → Option Bytes
first_key [] = none
first_key ((k, v) ∷ m) = some k

page_loop-all : (idx : ℕ) (m : Entries) → page_loop idx none m ≡ (m, none)
unfolding page_loop
page_loop-all idx [] = refl
page_loop-all idx ((k, v) ∷ m) = rw (page_loop-all (idx + 1) m) refl

page_loop-limit :
    (idx n : ℕ) (m : Entries) → page_loop idx (some (idx + n)) m ≡ (take n m, first_key (drop n m))
unfolding page_loop
page_loop-limit idx zero [] = refl
page_loop-limit idx (suc n) [] = refl
page_loop-limit idx zero ((k, v) ∷ m) = ground arith
page_loop-limit idx (suc n) ((k, v) ∷ m) =
    let shift : idx + suc n ≡ idx + 1 + n = omega arith in
    ground (arith, shift, page_loop-limit (idx + 1) n m)

Above-drop :
    (j k : Bytes) (v : Bytes) (n : ℕ) (m rest : Entries)
    → Above j m
    → drop n m ≡ (k, v) ∷ rest
    → j ≺ k
Above-drop j k v zero m rest a e = (subst (Above j) e a).0
Above-drop j k v (suc n) [] rest a e = ground arith
Above-drop j k v (suc n) ((i, w) ∷ m) rest a e = Above-drop j k v n m rest a.1 e

keep-Above : (k : Bytes) (m : Entries) → Above k m → retain_keys (λ j. key_le k j) m ≡ m
unfolding retain_keys
keep-Above k [] a = refl
keep-Above k ((j, w) ∷ m) a = ground (arith, keep-Above k m a.1, a.0)

head_key : (j k w v : Bytes) (m rest : Entries) → (j, w) ∷ m ≡ (k, v) ∷ rest → j ≡ k
head_key j k w v m rest e = ground (arith, ap first_key e)

-- The keys from the one at a place on are the entries from that place on.
retain_from :
    (n : ℕ) (k v : Bytes) (m rest : Entries)
    → IsSorted m
    → drop n m ≡ (k, v) ∷ rest
    → retain_keys (λ j. key_le k j) m ≡ drop n m
unfolding retain_keys
retain_from zero k v [] rest s e = refl
retain_from zero k v ((j, w) ∷ m) rest s e = ground (
  arith,
  keep-Above k m (subst (λ (t : Bytes). Above t m) (head_key j k w v m rest e) s.0),
  head_key j k w v m rest e,
  cmp_same k,
)
retain_from (suc n) k v [] rest s e = refl
retain_from (suc n) k v ((j, w) ∷ m) rest s e =
    ground
      (arith, retain_from n k v m rest s.1 e, after_of_lt j k (Above-drop j k v n m rest s.0 e))

key_le_trans : (a b c : Bytes) → key_le a b ≡ true → key_le b c ≡ true → key_le a c ≡ true
key_le_trans a b c h k = ground (arith, before_trans a b c, cmp_distinct a b, cmp_distinct b c)

abbrev within : Bytes → Bytes → Entries → Entries
within start end m = range (included start) (excluded end) m

bounds_from :
    (start k end x : Bytes)
    → key_le start k ≡ true
    → ((key_le start x && key_lt x end) && key_le k x) ≡ (key_le k x && key_lt x end)
bounds_from start k end x h = ground (arith, key_le_trans start k x h)

All-entries : {P : Bytes × Bytes → Type 0} → ((e : Bytes × Bytes) → P e) → (m : Entries) → All P m
All-entries g [] = tt
All-entries g (e ∷ m) = (g e, All-entries g m)

range_from :
    (start k end : Bytes) (m : Entries)
    → key_le start k ≡ true
    → retain_keys (λ j. key_le k j) (within start end m) ≡ within k end m
unfolding range above below
range_from start k end m h =
    retain_keys-retain_keys _ _ m
    ∙ retain_agree _ _ m (All-entries (λ e. bounds_from start k end e.0 h) m)

All-retain_keys : (p : Bytes → Bool) (m : Entries) → All (λ e. p e.0 ≡ true) (retain_keys p m)
unfolding retain_keys
All-retain_keys p [] = tt
All-retain_keys p ((k, v) ∷ m) = ground (arith, All-retain_keys p m)

All-first :
    (p : Bytes → Bool) (n : ℕ) (m : Entries) (k : Bytes)
    → All (λ e. p e.0 ≡ true) m
    → first_key (drop n m) ≡ some k
    → p k ≡ true
All-first p zero [] k a e = ground arith
All-first p zero ((j, v) ∷ m) k a e = ground (arith, a.0)
All-first p (suc n) [] k a e = ground arith
All-first p (suc n) ((j, v) ∷ m) k a e = All-first p n m k a.1 e

first_is :
    (k j v : Bytes) (rest m : Entries) (n : ℕ)
    → first_key (drop n m) ≡ some k
    → drop n m ≡ (j, v) ∷ rest
    → j ≡ k
first_is k j v rest m n e h = ground (arith, ap first_key h)

retain_first :
    (n : ℕ) (k : Bytes) (m : Entries)
    → IsSorted m
    → first_key (drop n m) ≡ some k
    → retain_keys (λ j. key_le k j) m ≡ drop n m
retain_first n k m s e = go (drop n m) refl
  where
    go : (d : Entries) → drop n m ≡ d → retain_keys (λ j. key_le k j) m ≡ drop n m
    go [] h = absurd (ground (arith, ap first_key h))
    go ((j, v) ∷ rest) h = rw (sym (first_is k j v rest m n e h)) (retain_from n j v m rest s h)

page_zero : (n : ℕ) (m : Entries) → page_loop 0 (some n) m ≡ (take n m, first_key (drop n m))
page_zero n m =
    subst (λ (t : ℕ). page_loop 0 (some t) m ≡ (take n m, first_key (drop n m))) (zero-add n)
      (page_loop-limit 0 n m)

first_within :
    (start end k : Bytes) (n : ℕ) (m : Entries)
    → first_key (drop n (within start end m)) ≡ some k
    → (key_le start k && key_lt k end) ≡ true
unfolding range above below
first_within start end k n m e =
    All-first (λ x. key_le start x && key_lt x end) n _ k (All-retain_keys _ m) e

from_next :
    (start end k : Bytes) (n : ℕ) (m : Entries)
    → IsSorted m
    → first_key (drop n (within start end m)) ≡ some k
    → within k end m ≡ drop n (within start end m)
from_next start end k n m sorted e =
    let inside = first_within start end k n m e in
    sym (range_from start k end m (ground arith))
    ∙ retain_first n k (within start end m) (range-IsSorted _ _ m sorted) e

next-panics :
    (start end k : Bytes)
    → (key_le start k && key_lt k end) ≡ true
    → BTreeMap.range_panics (included k) (excluded end) ≡ false
unfolding BTreeMap.range_panics
next-panics start end k h = ground (arith, after_of_lt k end)

-- What the next key of a page is worth: without one, the page has the whole range; with one, a scan
-- from that key on to the same end gives exactly the entries that the page left out.
abbrev pub Resumes : MemoryStorage → Bytes → Bytes → ℕ → Option Bytes → Type 0
Resumes s start end n none = take n (within start end s.entries) ≡ within start end s.entries
Resumes s start end n (some k) =
    scan_range_paginated s k end none ≡ ok (drop n (within start end s.entries), none)

take-whole : (n : ℕ) (m : Entries) → first_key (drop n m) ≡ none → take n m ≡ m
take-whole zero [] h = refl
take-whole zero ((k, v) ∷ m) h = ground arith
take-whole (suc n) [] h = refl
take-whole (suc n) (e ∷ m) h = ap (λ (t : Entries). e ∷ t) (take-whole n m h)

resumes :
    (s : MemoryStorage) (start end : Bytes) (n : ℕ) (next : Option Bytes)
    → IsSorted s.entries
    → first_key (drop n (within start end s.entries)) ≡ next
    → Resumes s start end n next
unfolding scan_range_paginated
resumes s start end n none sorted e = take-whole n (within start end s.entries) e
resumes s start end n (some k) sorted e =
    let inside = first_within start end k n s.entries e in
    rw
      (
        next-panics start end k inside,
        from_next start end k n s.entries sorted e,
        page_loop-all 0 (drop n (within start end s.entries)),
      )
      refl

-- Over sorted entries and a range that is not inverted, a page with a limit holds the first entries of
-- the range, as many as the limit says, and names the key of the first entry left out. Where there
-- is none, the page is the whole range; where there is one, a scan from it on to the same end gives
-- exactly the entries that the page left out.
pub pages_resume :
    (s : MemoryStorage) (start end : Bytes) (n : ℕ)
    → IsSorted s.entries
    → BTreeMap.range_panics (included start) (excluded end) ≡ false
    → (scan_range_paginated s start end (some n)
        ≡ ok (
          take n (range (included start) (excluded end) s.entries),
          first_key (drop n (range (included start) (excluded end) s.entries)),
        ))
      × Resumes s start end n (first_key (drop n (range (included start) (excluded end) s.entries)))
unfolding scan_range_paginated
pages_resume s start end n sorted h =
    (rw (h, page_zero n (within start end s.entries)) refl, resumes s start end n _ sorted refl)
