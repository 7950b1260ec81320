-- ===== src/Storage/Memory/Application/Swap.antt =====
-- `compare_and_swap` of commons/oprc-dp-storage/src/backends/memory.rs.
use oaa_s_io_t.Prelude.{
  ◌≡◌, ◌≢◌, ◌⊎◌, refl, ap, sym, subst, Bool, true, false, Option, none, some, if◌then◌else◌, arith,
  inl, inr, Bool-cases,
}
use oaa_s_io_t.Std.Bytes.{Bytes, bytes_ord}
use oaa_s_io_t.Std.Order.{key_eq, key_eq→eq, key_eq_refl}
use oaa_s_io_t.Std.BTreeMap
use oaa_s_io_t.Std.BTreeMap.Laws.{get-insert, get-remove}
use oaa_s_io_t.Std.BTreeMap.Retain.{remove-absent}
use oaa_s_io_t.Storage.Outcome.{ok}
use oaa_s_io_t.Storage.Memory
use oaa_s_io_t.Storage.Memory.{MemoryStorage}
use oaa_s_io_t.Storage.Memory.Statistics.{
  IsCounted, IsSized, put_with_return-IsCounted, put_with_return-IsSized, delete-IsCounted,
  delete-IsSized,
}
use oaa_s_io_t.Storage.Memory.Application.{compare_and_swap, current_matches}

module _ (s : MemoryStorage) (key : Bytes) (expected : Option Bytes) where
  abbrev pub agrees : Bool
  agrees = current_matches (BTreeMap.get s.entries key) expected

  -- A swap that goes through writes or deletes as the plain methods do.
  swap_put :
      (value : Bytes)
      → agrees ≡ true
      → compare_and_swap s key expected (some value)
        ≡ ((Memory.put_with_return s key value).0, ok true)
  unfolding compare_and_swap Memory.put_with_return
  swap_put value h = rw h refl

  swap_delete :
      agrees ≡ true → compare_and_swap s key expected none ≡ ((Memory.delete s key).0, ok true)
  unfolding compare_and_swap Memory.delete
  swap_delete h = ground (arith, remove-absent s.entries key)

  pub swap_refused :
      (new_value : Option Bytes)
      → agrees ≡ false
      → compare_and_swap s key expected new_value ≡ (s, ok false)
  unfolding compare_and_swap
  swap_refused new_value h = ground arith

  swap_lookup :
      (new_value : Option Bytes) (j : Bytes)
      → BTreeMap.get (compare_and_swap s key expected new_value).0.entries j ≡ (
          if agrees
          then (if key_eq key j then new_value else BTreeMap.get s.entries j)
          else BTreeMap.get s.entries j)
  unfolding compare_and_swap
  swap_lookup none j = ground (arith, get-remove s.entries key j)
  swap_lookup (some value) j = ground (arith, get-insert s.entries key j value)

  abbrev Keeps : (MemoryStorage → Type 0) → Option Bytes → Type 0
  Keeps P new_value = P s → P (compare_and_swap s key expected new_value).0

  swap-IsCounted : (new_value : Option Bytes) → Keeps IsCounted new_value
  swap-IsCounted none h = elim (Bool-cases agrees) [
    | inr bad ↦ rw (swap_refused none bad) h
    | inl good ↦ rw (swap_delete good) (delete-IsCounted s key h)
  ]
  swap-IsCounted (some value) h = elim (Bool-cases agrees) [
    | inr bad ↦ rw (swap_refused (some value) bad) h
    | inl good ↦ rw (swap_put value good) (put_with_return-IsCounted s key value h)
  ]

  swap-IsSized : (new_value : Option Bytes) → Keeps IsSized new_value
  swap-IsSized none h = elim (Bool-cases agrees) [
    | inr bad ↦ rw (swap_refused none bad) h
    | inl good ↦ rw (swap_delete good) (delete-IsSized s key h)
  ]
  swap-IsSized (some value) h = elim (Bool-cases agrees) [
    | inr bad ↦ rw (swap_refused (some value) bad) h
    | inl good ↦ rw (swap_put value good) (put_with_return-IsSized s key value h)
  ]

  pub swap_result :
      (new_value : Option Bytes) → (compare_and_swap s key expected new_value).1 ≡ ok agrees
  unfolding compare_and_swap
  swap_result new_value = ground arith

  matched :
      (current wanted : Option Bytes) → current_matches current wanted ≡ true → current ≡ wanted
  matched none none h = refl
  matched none (some w) h = ground arith
  matched (some c) none h = ground arith
  matched (some c) (some w) h = ap some (key_eq→eq c w h)

  differs :
      (current wanted : Option Bytes) → current_matches current wanted ≡ false → current ≢ wanted
  differs none none h = ground arith
  differs none (some w) h = ground arith
  differs (some c) none h = ground arith
  differs (some c) (some w) h = λ e.
      let same : current_matches (some c) (some c) ≡ false =
        subst (λ o. current_matches (some c) o ≡ false) (sym e) h in
      ground (arith, same, key_eq_refl c)

  -- From a storage with exact counters: either the key holds what was expected (a value, or nothing),
  -- and the answer is true, the key then holds the new value (or nothing), and every other key what
  -- it held; or it does not, and the answer is false and nothing changes. Both counters stay exact.
  pub compare_and_swap_lem :
      (new_value : Option Bytes)
      → IsCounted s
      → IsSized s
      → ((BTreeMap.get s.entries key ≡ expected)
            × ((compare_and_swap s key expected new_value).1 ≡ ok true)
            × ((j : Bytes)
                → BTreeMap.get (compare_and_swap s key expected new_value).0.entries j
                  ≡ (if key_eq key j then new_value else BTreeMap.get s.entries j))
          ⊎ (BTreeMap.get s.entries key ≢ expected)
            × (compare_and_swap s key expected new_value ≡ (s, ok false)))
        × IsCounted (compare_and_swap s key expected new_value).0
        × IsSized (compare_and_swap s key expected new_value).0
  compare_and_swap_lem new_value c z = (
    elim (Bool-cases agrees) [
      | inl same ↦ inl (
        matched (BTreeMap.get s.entries key) expected same,
        rw same at swap_result new_value,
        λ j. rw same at swap_lookup new_value j,
      )
      | inr other ↦
          inr (differs (BTreeMap.get s.entries key) expected other, swap_refused new_value other)
    ],
    swap-IsCounted new_value c,
    swap-IsSized new_value z,
  )
