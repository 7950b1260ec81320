-- ===== src/Odgm/RaftLog/Reads.antt =====
-- Reading log entries and the log state from a store that represents an abstract state:
-- data-plane/oprc-odgm/src/replication/raft/raft_log.rs.
use oaa_s_io_t.Prelude.{
  ℕ, ◌+◌, ◌<◌, ◌≤◌, ◌≡◌, refl, ap, ◌∙◌, false, leb, ltb, ◌&&◌, arith, Option-cases, inl, inr,
}
use oaa_s_io_t.Std.Order.{nat_ord}
use oaa_s_io_t.Std.Bytes.{bytes_ord}
use oaa_s_io_t.Std.BTreeMap
use oaa_s_io_t.Std.BTreeMap.{Bound, included, excluded, unbounded, above, below, retain_keys}
use oaa_s_io_t.Storage.Outcome.{ok}
use oaa_s_io_t.Storage.Stats.{u64_mod}
use oaa_s_io_t.Storage.Contract.{StorageBackend, IsReliable}
use oaa_s_io_t.Odgm.RaftLog.Types.{Openraft, done, LogStore}
use oaa_s_io_t.Odgm.RaftLog.Entries.{
  log_id_to_key, start_index, end_index, try_get_log_entries, get_log_state, last_log_id,
  entry_log_id,
}
use oaa_s_io_t.Odgm.RaftLog.Spec.{IsFaithful, index_of, HasNext, last, RaftState, between}
use oaa_s_io_t.Odgm.RaftLog.Log.{All-imp, last-All, IsLog-HasNext, filter_agree, filter-IsLog}
use oaa_s_io_t.Odgm.RaftLog.Image.{
  image, compare-log_id_to_key, decode_all-image, last_key_value-image, range-image, stored,
  key_to_log_id-log_id_to_key,
}
use oaa_s_io_t.Odgm.RaftLog.Represents.{Represents, metadata_reads}

-- Bounds whose additions do not wrap around.
abbrev pub FitsStart : Bound ℕ → Type 0
FitsStart (included x) = x < u64_mod
FitsStart (excluded x) = x + 1 < u64_mod
FitsStart unbounded = Unit

abbrev pub FitsEnd : Bound ℕ → Type 0
FitsEnd (included x) = x + 1 < u64_mod
FitsEnd (excluded x) = x < u64_mod
FitsEnd unbounded = Unit

start_index-bound : (lo : Bound ℕ) → FitsStart lo → start_index lo < u64_mod
unfolding start_index
start_index-bound (included x) h = h
start_index-bound (excluded x) h = omega arith
start_index-bound unbounded h = omega arith

end_index-bound : (hi : Bound ℕ) → FitsEnd hi → end_index hi < u64_mod
unfolding end_index
end_index-bound (included x) h = omega arith
end_index-bound (excluded x) h = h
end_index-bound unbounded h = omega arith

-- The half-open interval is the range that was asked for.
interval :
    (lo hi : Bound ℕ) (i : ℕ)
    → FitsStart lo
    → FitsEnd hi
    → i + 1 < u64_mod
    → (leb (start_index lo) i && ltb i (end_index hi)) ≡ (above lo i && below hi i)
unfolding start_index end_index above below nat_ord
interval (included x) (included y) i a b h = ground arith
interval (included x) (excluded y) i a b h = ground arith
interval (included x) unbounded i a b h = ground arith
interval (excluded x) (included y) i a b h = ground arith
interval (excluded x) (excluded y) i a b h = ground arith
interval (excluded x) unbounded i a b h = ground arith
interval unbounded (included y) i a b h = ground arith
interval unbounded (excluded y) i a b h = ground arith
interval unbounded unbounded i a b h = ground arith

pub range_keys-panics :
    (a b : ℕ)
    → a ≤ b
    → b < u64_mod
    → BTreeMap.range_panics (included (log_id_to_key a)) (excluded (log_id_to_key b)) ≡ false
unfolding BTreeMap.range_panics bytes_ord
range_keys-panics a b h k = ground (arith, compare-log_id_to_key b a)

module _ {r : Openraft} (f : IsFaithful r) {L M : StorageBackend} (l : IsReliable L)
    (m : IsReliable M) where
  scan_lem :
      (a : RaftState r) (s : LogStore L M) (lo hi : Bound ℕ)
      → Represents f l m a s
      → FitsStart lo
      → FitsEnd hi
      → start_index lo ≤ end_index hi
      → L.scan_range s.log_backend
          (included (log_id_to_key (start_index lo)))
          (excluded (log_id_to_key (end_index hi)))
        ≡ ok (image r f.entry_trip (between r lo hi a.entries))
  scan_lem a s lo hi h p q order =
      l.scan_range_lem s.log_backend _ _ h.log_valid
        (range_keys-panics _ _ order (end_index-bound hi q))
      ∙ ap ok (
          rw h.log_entries (
            range-image r f.entry_trip _ _ a.entries h.is_log (start_index-bound lo p)
              (end_index-bound hi q)
            ∙ ap (image r f.entry_trip) (
                filter_agree r _ _ a.entries (
                  All-imp r (λ e n. interval lo hi (index_of r e) p q n) a.entries
                    (IsLog-HasNext r a.entries h.is_log)))))

  -- A read of a range returns exactly the entries whose index lies within it, in order, where the
  -- range is not inverted and its additions do not wrap around.
  pub try_get_lem :
      (a : RaftState r) (s : LogStore L M) (lo hi : Bound ℕ)
      → Represents f l m a s
      → FitsStart lo
      → FitsEnd hi
      → start_index lo ≤ end_index hi
      → try_get_log_entries r lo hi s ≡ done (between r lo hi a.entries)
  unfolding try_get_log_entries
  try_get_lem a s lo hi h p q order =
      rw (scan_lem a s lo hi h p q order)
        (decode_all-image r f.entry_trip _ (filter-IsLog r _ a.entries h.is_log))

  pub get_last_lem :
      (a : RaftState r) (s : LogStore L M)
      → Represents f l m a s
      → L.get_last s.log_backend ≡ ok (stored r f.entry_trip (last r a.entries))
  get_last_lem a s h =
      l.get_last_lem s.log_backend h.log_valid
      ∙ ap ok (rw h.log_entries (last_key_value-image r f.entry_trip a.entries))

  last_log_id_lem :
      (a : RaftState r) (s : LogStore L M)
      → Represents f l m a s
      → last_log_id r s ≡ done (entry_log_id r (last r a.entries))
  unfolding last_log_id
  last_log_id_lem a s h = elim (Option-cases (last r a.entries)) [
    | inl e ↦ ground (arith, get_last_lem a s h)
    | inr (x, e) ↦ ground (
      arith,
      get_last_lem a s h,
      key_to_log_id-log_id_to_key (index_of r x) (
          omega (
            arith,
            last-All r (λ y. HasNext r (index_of r y)) a.entries x e
                (IsLog-HasNext r a.entries h.is_log),
          )),
      (f.entry_trip x).2,
    )
  ]

  -- The log state holds the identifiers of the last entry and of the last purge.
  pub get_log_state_lem :
      (a : RaftState r) (s : LogStore L M)
      → Represents f l m a s
      → get_log_state r s
        ≡ done (record {
          last_purged_log_id = a.last_purged;
          last_log_id = entry_log_id r (last r a.entries);
        })
  unfolding get_log_state
  get_log_state_lem a s h = rw (last_log_id_lem a s h, (metadata_reads f l m a s h).2) refl
