-- ===== src/Storage/Stats.antt =====
-- `AtomicStats` of commons/oprc-dp-storage/src/atomic_stats.rs: two 64-bit counters. Each atomic
-- addition and subtraction wraps around.
use oaa_s_io_t.Prelude.{ℕ, ◌+◌, ◌-◌, ◌%◌, ◌^◌, Bool, Option, none, some, leb, if◌then◌else◌}

abbrev pub u64_mod : ℕ
u64_mod = 2 ^ 64

pub record AtomicStats : Type 0 where
  pub entries_count : ℕ
  pub total_size_bytes : ℕ

abbrev pub fetch_add : ℕ → ℕ → ℕ
fetch_add a n = (a + n) % u64_mod

-- The operand is a `u64`, so that it is below the modulus.
abbrev pub fetch_sub : ℕ → ℕ → ℕ
fetch_sub a n = (a + u64_mod - n % u64_mod) % u64_mod

unfoldable pub new : AtomicStats
new = record { entries_count = 0; total_size_bytes = 0 }

unfoldable pub record_put : ℕ → ℕ → Bool → AtomicStats → AtomicStats
record_put key_size value_size was_update s =
    let total_size = (key_size + value_size) % u64_mod in
    record {
      entries_count = if was_update then s.entries_count else fetch_add s.entries_count 1;
      total_size_bytes = fetch_add s.total_size_bytes total_size;
    }

unfoldable pub record_put_with_old_size : ℕ → ℕ → Option ℕ → AtomicStats → AtomicStats
record_put_with_old_size key_size new_value_size none s =
    let new_total = (key_size + new_value_size) % u64_mod in
    record {
      entries_count = fetch_add s.entries_count 1;
      total_size_bytes = fetch_add s.total_size_bytes new_total;
    }
record_put_with_old_size key_size new_value_size (some old_size) s =
    let new_total = (key_size + new_value_size) % u64_mod in
    let old_total = (key_size + old_size) % u64_mod in
    record s {
      total_size_bytes =
          if leb old_total new_total
          then fetch_add s.total_size_bytes (new_total - old_total)
          else fetch_sub s.total_size_bytes (old_total - new_total);
    }

unfoldable pub record_delete : ℕ → ℕ → AtomicStats → AtomicStats
record_delete key_size value_size s =
    let total_size = (key_size + value_size) % u64_mod in
    record {
      entries_count = fetch_sub s.entries_count 1;
      total_size_bytes = fetch_sub s.total_size_bytes total_size;
    }

unfoldable pub record_delete_batch : ℕ → ℕ → AtomicStats → AtomicStats
record_delete_batch total_entries total_size s = record {
  entries_count = fetch_sub s.entries_count total_entries;
  total_size_bytes = fetch_sub s.total_size_bytes total_size;
}

unfoldable pub reset : AtomicStats → AtomicStats
reset s = record { entries_count = 0; total_size_bytes = 0 }

unfoldable pub set_counts : ℕ → ℕ → AtomicStats → AtomicStats
set_counts entries total_size s = record { entries_count = entries; total_size_bytes = total_size }
