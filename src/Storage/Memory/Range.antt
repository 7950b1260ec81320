-- ===== src/Storage/Memory/Range.antt =====
-- `delete_range` and `scan` of the in-memory backend: which entries they reach.
use oaa_s_io_t.Prelude.{
  ℕ, ◌+◌, ◌≡◌, ◌≢◌, refl, ap, [], ◌∷◌, ◌++◌, Bool, true, false, not, ◌&&◌, ◌==◌, none, some, arith,
  if◌then◌else◌, length, fun_ext,
}
use oaa_s_io_t.Std.Bytes.{Bytes, bytes_ord}
use oaa_s_io_t.Std.Order.{key_eq, key_lt}
use oaa_s_io_t.Std.BTreeMap
use oaa_s_io_t.Std.BTreeMap.{
  BTreeMap, Bound, included, excluded, unbounded, retain_keys, range, above, below,
}
use oaa_s_io_t.Std.BTreeMap.Laws.{get-retain_keys}
use oaa_s_io_t.Std.BTreeMap.Count.{length-retain_keys}
use oaa_s_io_t.Std.BTreeMap.Retain.{remove_all-retain_keys}
use oaa_s_io_t.Storage.Outcome.{ok, panicked}
use oaa_s_io_t.Storage.Memory.{
  MemoryStorage, scan, scan_end, increment_last, last_byte, delete_range,
}

abbrev in_range : Bound Bytes → Bound Bytes → Bytes → Bool
in_range lo hi k = above lo k && below hi k

if-not {ℓ} : {A : Type ℓ} (b : Bool) (x y : A) → (if not b then x else y) ≡ (if b then y else x)
if-not true x y = refl
if-not false x y = refl

-- The entries after a `delete_range` that does not panic.
pub entries-delete_range :
    (s : MemoryStorage) (lo hi : Bound Bytes)
    → BTreeMap.range_panics lo hi ≡ false
    → (delete_range s lo hi).0.entries ≡ retain_keys (λ k. not (in_range lo hi k)) s.entries
unfolding delete_range range
entries-delete_range s lo hi h = rw h (remove_all-retain_keys (in_range lo hi) s.entries)

-- Where the bounds do not make `range` panic, `delete_range` takes out exactly the keys within them,
-- and returns the number of entries that the storage has lost.
pub delete_range_exact :
    (s : MemoryStorage) (lo hi : Bound Bytes)
    → BTreeMap.range_panics lo hi ≡ false
    → ((k : Bytes)
        → BTreeMap.get (delete_range s lo hi).0.entries k
          ≡ (if in_range lo hi k then none else BTreeMap.get s.entries k))
      × ((n : ℕ) × ((delete_range s lo hi).1 ≡ ok n)
          × (n + length (delete_range s lo hi).0.entries ≡ length s.entries))
delete_range_exact s lo hi h = (
  λ k. rw (entries-delete_range s lo hi h, get-retain_keys) (if-not (in_range lo hi k) _ _),
  (
    length (range lo hi s.entries),
    unfold delete_range in rw h refl,
    rw (entries-delete_range s lo hi h)
        (unfold range in length-retain_keys (in_range lo hi) s.entries),
  ),
)

-- Where they do, nothing is deleted.
pub delete_range-panics :
    (s : MemoryStorage) (lo hi : Bound Bytes)
    → BTreeMap.range_panics lo hi ≡ true
    → delete_range s lo hi ≡ (s, panicked)
unfolding delete_range
delete_range-panics s lo hi h = rw h refl

unfoldable pub starts_with : Bytes → Bytes → Bool
starts_with [] k = true
starts_with (b ∷ p) [] = false
starts_with (b ∷ p) (x ∷ k) = b == x && starts_with p k

empty_bounds : (k : Bytes) → in_range (included []) unbounded k ≡ starts_with [] k
unfolding above below starts_with bytes_ord
empty_bounds [] = refl
empty_bounds (x ∷ k) = refl

pub scan_bounds :
    (b : ℕ) (p k : Bytes)
    → in_range (included (b ∷ p)) (excluded (increment_last (b ∷ p))) k ≡ starts_with (b ∷ p) k
unfolding above below increment_last starts_with bytes_ord
scan_bounds b [] [] = ground arith
scan_bounds b [] (x ∷ []) = ground arith
scan_bounds b [] (x ∷ y ∷ k) = ground arith
scan_bounds b (c ∷ p) [] = ground arith
scan_bounds b (c ∷ p) (x ∷ k) = ground (arith, scan_bounds c p k)

pub increment_last-gt : (b : ℕ) (p : Bytes) → key_lt (increment_last (b ∷ p)) (b ∷ p) ≡ false
unfolding increment_last bytes_ord
increment_last-gt b [] = ground arith
increment_last-gt b (c ∷ p) = ground (arith, increment_last-gt c p)

last_byte-some : (b : ℕ) (p : Bytes) → (x : ℕ) × (last_byte (b ∷ p) ≡ some x)
unfolding last_byte
last_byte-some b [] = (b, refl)
last_byte-some b (c ∷ p) = last_byte-some c p

scan_end-plain :
    (b : ℕ) (p : Bytes)
    → last_byte (b ∷ p) ≢ some 255
    → scan_end (b ∷ p) ≡ excluded (increment_last (b ∷ p))
unfolding scan_end
scan_end-plain b p h = ground (arith, last_byte-some b p)

scan_end-255 : (p : Bytes) → last_byte p ≡ some 255 → scan_end p ≡ excluded (p ++ 0 ∷ [])
unfolding scan_end
scan_end-255 p h = rw (h, scan_end) refl

-- A scan whose range is given by a test on the keys.
scan_of_range :
    (s : MemoryStorage) (p : Bytes) (hi : Bound Bytes) (q : Bytes → Bool)
    → scan_end p ≡ hi
    → BTreeMap.range_panics (included p) hi ≡ false
    → ((k : Bytes) → in_range (included p) hi k ≡ q k)
    → scan s p ≡ ok (retain_keys q s.entries)
unfolding scan range
scan_of_range s p hi q e h same =
    rw (e, h) (ap (λ (t : Bytes → Bool). ok (retain_keys t s.entries)) (fun_ext same))

-- A prefix scan returns exactly the entries whose key starts with the prefix, in key order, unless
-- the prefix ends in the byte 255.
pub scan_exact :
    (s : MemoryStorage) (prefix : Bytes)
    → last_byte prefix ≢ some 255
    → scan s prefix ≡ ok (retain_keys (starts_with prefix) s.entries)
scan_exact s [] h =
    scan_of_range s [] unbounded (starts_with []) (unfold scan_end last_byte in refl)
      (unfold BTreeMap.range_panics in refl) empty_bounds
scan_exact s (b ∷ p) h =
    scan_of_range s (b ∷ p) _ (starts_with (b ∷ p)) (scan_end-plain b p h)
      (unfold BTreeMap.range_panics in increment_last-gt b p) (scan_bounds b p)

scan_255_bounds : (p k : Bytes) → in_range (included p) (excluded (p ++ 0 ∷ [])) k ≡ key_eq p k
unfolding above below bytes_ord
scan_255_bounds [] [] = refl
scan_255_bounds [] (x ∷ []) = ground arith
scan_255_bounds [] (x ∷ y ∷ k) = ground arith
scan_255_bounds (b ∷ p) [] = ground arith
scan_255_bounds (b ∷ p) (x ∷ k) = ground (arith, scan_255_bounds p k)

append-gt : (p : Bytes) → key_lt (p ++ 0 ∷ []) p ≡ false
unfolding bytes_ord
append-gt [] = refl
append-gt (b ∷ p) = ground (arith, append-gt p)

-- Where the prefix ends in the byte 255 a scan returns at most the entry whose key is the prefix
-- itself: every longer key that starts with the prefix is left out.
pub scan_255 :
    (s : MemoryStorage) (prefix : Bytes)
    → last_byte prefix ≡ some 255
    → scan s prefix ≡ ok (retain_keys (key_eq prefix) s.entries)
scan_255 s p h =
    scan_of_range s p _ (key_eq p) (scan_end-255 p h) (unfold BTreeMap.range_panics in append-gt p)
      (scan_255_bounds p)
