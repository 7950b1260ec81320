-- ===== src/Odgm/RaftLog/Changes.antt =====
-- Append, truncate and purge on a store that represents an abstract state:
-- data-plane/oprc-odgm/src/replication/raft/raft_log.rs.
use oaa_s_io_t.Prelude.{
  ℕ, ◌+◌, ◌%◌, ◌<◌, ◌≤◌, ◌≡◌, refl, ap, ◌∙◌, List, [], ◌∷◌, ◌++◌, append_assoc, append-nil, Bool,
  true, not, leb, ltb, leb→le, ◌&&◌, none, some, All, filter, arith, if◌then◌else◌, inl, inr,
  Bool-cases, Option-cases,
}
use oaa_s_io_t.Std.Bytes.{bytes_ord}
use oaa_s_io_t.Std.BTreeMap.{included, excluded}
use oaa_s_io_t.Storage.Stats.{u64_mod}
use oaa_s_io_t.Storage.Contract.{StorageBackend, IsReliable}
use oaa_s_io_t.Odgm.RaftLog.Types.{Openraft, RaftResult, done, LogStore, ErrorSubject}
use oaa_s_io_t.Odgm.RaftLog.Metadata.{set_last_purged}
use oaa_s_io_t.Odgm.RaftLog.Entries.{
  log_id_to_key, append_loop, append, delete_indexes, truncate, purge, and_then,
}
use oaa_s_io_t.Odgm.RaftLog.Spec.{
  IsFaithful, index_of, HasNext, IsLog, last, RaftState, append_to, truncate_from, purge_to,
}
use oaa_s_io_t.Odgm.RaftLog.Log.{
  All-imp, prefix-IsLog, last-max, filter-All, pointwise, last-none, last-All, IsLog-HasNext,
  filter_agree, filter-IsLog,
}
use oaa_s_io_t.Odgm.RaftLog.Image.{
  image, within_keys, retain_keys-image, insert-image, key_to_log_id-log_id_to_key,
}
use oaa_s_io_t.Odgm.RaftLog.Represents.{Represents}
use oaa_s_io_t.Odgm.RaftLog.Reads.{range_keys-panics, get_last_lem}
use oaa_s_io_t.Odgm.RaftLog.Writes.{flush_lem, set_last_purged_lem}

module _ {r : Openraft} (f : IsFaithful r) {L M : StorageBackend} (l : IsReliable L)
    (m : IsReliable M) where
  append_loop_lem :
      (new log : List r.Entry) (t : L.State)
      → l.Valid t
      → l.entries t ≡ image r f.entry_trip log
      → IsLog r (log ++ new)
      → ((append_loop r L new t).1 ≡ done tt)
        × l.Valid (append_loop r L new t).0
        × (l.entries (append_loop r L new t).0 ≡ image r f.entry_trip (log ++ new))
  unfolding append_loop
  append_loop_lem [] log t v e h = (refl, v, ground (arith, append-nil log))
  append_loop_lem (x ∷ new) log t v e h =
      let key = log_id_to_key (index_of r x) in
      let value = (f.entry_trip x).0 in
      let h' : IsLog r ((log ++ x ∷ []) ++ new) = rw append_assoc h in
      let stored =
        l.put_entries t key value v
        ∙ rw e (insert-image r f.entry_trip log x (prefix-IsLog r (log ++ x ∷ []) new h')) in
      let rest =
        append_loop_lem new (log ++ x ∷ []) (L.put t key value).0 (l.put-Valid t key value v) stored
          h' in
      rw ((f.entry_trip x).1, append_loop, l.put_ok t key value v)
        (rest.0, rest.1, rest.2 ∙ ap (image r f.entry_trip) (append_assoc log (x ∷ []) new))

  -- Appending entries that continue the log succeeds, tells the callback so, and puts them at its
  -- end.
  pub append_lem :
      (new : List r.Entry) (a : RaftState r) (s : LogStore L M)
      → Represents f l m a s
      → IsLog r (a.entries ++ new)
      → Represents f l m (append_to r new a) (append r new s).0
        × ((append r new s).1 ≡ done tt)
        × ((append r new s).2 ≡ some (done tt))
  unfolding append
  append_lem new a s h log =
      let (stored, valid, entries) =
        append_loop_lem new a.entries s.log_backend h.log_valid h.log_entries log in
      let s' : LogStore L M = record s { log_backend = (append_loop r L new s.log_backend).0 } in
      rw (stored, flush_lem f l m ErrorSubject.logs s' valid h.metadata_valid)
        (
          record {
            log_valid = valid;
            metadata_valid = h.metadata_valid;
            is_log = log;
            log_entries = entries;
            vote = h.vote;
            last_purged = h.last_purged;
            committed = h.committed;
          },
          refl,
          refl,
        )

  delete_indexes_lem :
      (start end : ℕ) (q : r.Entry → Bool) (a : RaftState r) (s : LogStore L M)
      → Represents f l m a s
      → start ≤ end
      → end < u64_mod
      → All (λ e. not (leb start (index_of r e) && ltb (index_of r e) end) ≡ q e) a.entries
      → Represents f l m (record a { entries = filter q a.entries }) (delete_indexes start end s).0
        × ((delete_indexes start end s).1 ≡ done tt)
  unfolding delete_indexes
  delete_indexes_lem start end q a s h order bound same =
      let lo = included (log_id_to_key start) in
      let hi = excluded (log_id_to_key end) in
      let ordered = range_keys-panics start end order bound in
      (
        record {
          log_valid = l.delete_range-Valid s.log_backend lo hi h.log_valid;
          metadata_valid = h.metadata_valid;
          is_log = filter-IsLog r q a.entries h.is_log;
          log_entries =
              l.delete_range_entries s.log_backend lo hi h.log_valid ordered
              ∙ rw h.log_entries (
                  retain_keys-image r f.entry_trip _ (λ i. not (leb start i && ltb i end)) a.entries
                    h.is_log (λ i small. ap not (within_keys start end i (omega arith) bound small))
                  ∙ ap (image r f.entry_trip) (filter_agree r _ q a.entries same));
          vote = h.vote;
          last_purged = h.last_purged;
          committed = h.committed;
        },
        rw (l.delete_range_ok s.log_backend lo hi h.log_valid ordered) refl,
      )

  -- Nothing is at or after an identifier beyond the last entry.
  truncate_beyond :
      (id : r.LogId) (a : RaftState r) (s : LogStore L M)
      → Represents f l m a s
      → filter (λ e. ltb (index_of r e) (r.index id)) a.entries ≡ a.entries
      → Represents f l m (truncate_from r id a) s
  truncate_beyond id a s h same = rw same h

  truncate-some :
      (id : r.LogId) (x : r.Entry) (a : RaftState r) (s : LogStore L M)
      → Represents f l m a s
      → last r a.entries ≡ some x
      → truncate r id s ≡ (
          if leb (r.index id) (index_of r x)
          then delete_indexes (r.index id) ((index_of r x + 1) % u64_mod) s
          else (s, done tt))
  unfolding truncate
  truncate-some id x a s h e =
      let next =
        last-All r (λ y. HasNext r (index_of r y)) a.entries x e
          (IsLog-HasNext r a.entries h.is_log) in
      ground
        (arith, get_last_lem f l m a s h, key_to_log_id-log_id_to_key (index_of r x) (omega arith))

  truncate-none :
      (id : r.LogId) (a : RaftState r) (s : LogStore L M)
      → Represents f l m a s
      → last r a.entries ≡ none
      → truncate r id s ≡ (s, done tt)
  unfolding truncate
  truncate-none id a s h e = ground (arith, get_last_lem f l m a s h)

  truncate_within :
      (id : r.LogId) (x : r.Entry) (a : RaftState r) (s : LogStore L M)
      → Represents f l m a s
      → last r a.entries ≡ some x
      → leb (r.index id) (index_of r x) ≡ true
      → Represents f l m
          (truncate_from r id a)
          (delete_indexes (r.index id) ((index_of r x + 1) % u64_mod) s).0
        × ((delete_indexes (r.index id) ((index_of r x + 1) % u64_mod) s).1 ≡ done tt)
  truncate_within id x a s h e reach =
      let next =
        last-All r (λ y. HasNext r (index_of r y)) a.entries x e
          (IsLog-HasNext r a.entries h.is_log) in
      let end : (index_of r x + 1) % u64_mod ≡ index_of r x + 1 = omega arith in
      let order = leb→le (r.index id) (index_of r x) reach in
      rw end (
        delete_indexes_lem (r.index id) (index_of r x + 1) _ a s h (omega arith) next
          (All-imp r (λ y small. ground arith) a.entries (last-max r a.entries x h.is_log e)))

  -- Truncating at an identifier succeeds and deletes exactly the entries from its index on; on a log
  -- that ends before it, or is empty, nothing changes.
  pub truncate_lem :
      (id : r.LogId) (a : RaftState r) (s : LogStore L M)
      → Represents f l m a s
      → Represents f l m (truncate_from r id a) (truncate r id s).0
        × ((truncate r id s).1 ≡ done tt)
  truncate_lem id a s h = elim (Option-cases (last r a.entries)) [
    | inl e ↦
        rw (truncate-none id a s h e)
          (truncate_beyond id a s h (rw (last-none r a.entries e) refl), refl)
    | inr (x, e) ↦ elim (Bool-cases (leb (r.index id) (index_of r x))) [
      | inl reach ↦ rw (truncate-some id x a s h e, reach) (truncate_within id x a s h e reach)
      | inr beyond ↦
          rw (truncate-some id x a s h e, beyond)
            (
              truncate_beyond id a s h (
                  filter-All r _ a.entries (
                    All-imp r (λ y small. ground arith) a.entries
                      (last-max r a.entries x h.is_log e))),
              refl,
            )
    ]
  ]

  purge_marked :
      (id : r.LogId) (s : LogStore L M)
      → (set_last_purged r id s).1 ≡ done tt
      → purge r id s ≡ delete_indexes 0 ((r.index id + 1) % u64_mod) (set_last_purged r id s).0
  unfolding purge
  purge_marked id s e =
      ap
        (λ (t : RaftResult (Unit {0})).
          and_then ((set_last_purged r id s).0, t) (delete_indexes 0 ((r.index id + 1) % u64_mod)))
        e

  -- Purging up to an identifier whose index has a successor succeeds, deletes exactly the entries up
  -- to its index, and stores the identifier as the last purged one.
  pub purge_lem :
      (id : r.LogId) (a : RaftState r) (s : LogStore L M)
      → Represents f l m a s
      → HasNext r (r.index id)
      → Represents f l m (purge_to r id a) (purge r id s).0 × ((purge r id s).1 ≡ done tt)
  purge_lem id a s h next =
      let (marked, saved) = set_last_purged_lem f l m id a s h in
      let next_index : (r.index id + 1) % u64_mod ≡ r.index id + 1 = omega arith in
      rw (purge_marked id s saved, next_index)
        (delete_indexes_lem 0 (r.index id + 1) (λ e. ltb (r.index id) (index_of r e))
          (record a { last_purged = some id }) (set_last_purged r id s).0 marked (omega arith) next
          (pointwise r (λ e. ground arith) a.entries))
