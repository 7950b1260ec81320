-- ===== src/Storage/Memory/Application/Counter.antt =====
-- `increment` of commons/oprc-dp-storage/src/backends/memory.rs.
use oaa_s_io_t.Prelude.{
  ℕ, ◌+◌, ◌%◌, ◌<◌, ◌≡◌, refl, ◌∙◌, List, [], ◌∷◌, false, some, if◌then◌else◌, arith,
}
use oaa_s_io_t.Std.Bytes.{Bytes, bytes_ord}
use oaa_s_io_t.Std.Bytes.Words.{to_le_bytes, length-to_le_bytes, from-to_le_bytes}
use oaa_s_io_t.Std.Order.{key_eq, key_eq_refl}
use oaa_s_io_t.Std.BTreeMap
use oaa_s_io_t.Std.BTreeMap.Laws.{get-insert}
use oaa_s_io_t.Storage.Outcome.{Outcome, ok}
use oaa_s_io_t.Storage.Stats.{u64_mod}
use oaa_s_io_t.Storage.Memory.{MemoryStorage}
use oaa_s_io_t.Storage.Memory.Application.{increment, current_value}

-- One increment after another, and their results.
unfoldable pub increment_all : MemoryStorage → Bytes → List ℕ → MemoryStorage × List (Outcome ℕ)
unfolding increment
increment_all s key [] = (s, [])
increment_all s key (d ∷ deltas) = (
  (increment_all (increment s key d).0 key deltas).0,
  (increment s key d).1 ∷ (increment_all (increment s key d).0 key deltas).1,
)

abbrev pub running_sums : ℕ → List ℕ → List (Outcome ℕ)
running_sums value [] = []
running_sums value (d ∷ deltas) =
    ok ((value + d) % u64_mod) ∷ running_sums ((value + d) % u64_mod) deltas

step_result :
    (s : MemoryStorage) (key : Bytes) (value d : ℕ)
    → current_value (BTreeMap.get s.entries key) ≡ ok value
    → (increment s key d).1 ≡ ok ((value + d) % u64_mod)
unfolding increment
step_result s key value d h = rw h refl

step_lookup :
    (s : MemoryStorage) (key : Bytes) (value d : ℕ) (j : Bytes)
    → current_value (BTreeMap.get s.entries key) ≡ ok value
    → BTreeMap.get (increment s key d).0.entries j ≡ (
        if key_eq key j
        then some (to_le_bytes 8 ((value + d) % u64_mod))
        else BTreeMap.get s.entries j)
unfolding increment
step_lookup s key value d j h = rw h (get-insert s.entries key j _)

read_back : (n : ℕ) → n < u64_mod → current_value (some (to_le_bytes 8 n)) ≡ ok n
unfolding current_value
read_back n h = ground (arith, length-to_le_bytes 8 n, from-to_le_bytes 8 n h)

step_value :
    (s : MemoryStorage) (key : Bytes) (value d : ℕ)
    → current_value (BTreeMap.get s.entries key) ≡ ok value
    → current_value (BTreeMap.get (increment s key d).0.entries key) ≡ ok ((value + d) % u64_mod)
step_value s key value d h =
    rw (step_lookup s key value d key h, key_eq_refl key)
      (read_back ((value + d) % u64_mod) (omega arith))

-- Where a key is missing or holds eight bytes, any increments of it succeed and return the running
-- sums from its number (0 for a missing key), modulo 2^64, and every other key stays as it is.
pub increment_all_lem :
    (s : MemoryStorage) (key : Bytes) (value : ℕ) (deltas : List ℕ)
    → current_value (BTreeMap.get s.entries key) ≡ ok value
    → ((increment_all s key deltas).1 ≡ running_sums value deltas)
      × ((j : Bytes)
          → key_eq key j ≡ false
          → BTreeMap.get (increment_all s key deltas).0.entries j ≡ BTreeMap.get s.entries j)
unfolding increment_all
increment_all_lem s key value [] h = (refl, λ j other. refl)
increment_all_lem s key value (d ∷ deltas) h =
    let later =
      increment_all_lem (increment s key d).0 key ((value + d) % u64_mod) deltas
        (step_value s key value d h) in
    (
      rw (step_result s key value d h, later.0) refl,
      λ j other. later.1 j other ∙ step_lookup s key value d j h ∙ rw other refl,
    )
