-- ===== src/Odgm/RaftLog/Writes.antt =====
-- The metadata writes of a store that represents an abstract state:
-- data-plane/oprc-odgm/src/replication/raft/raft_log.rs.
use oaa_s_io_t.Prelude.{◌≡◌, refl, ◌∙◌, false, Option, some, arith, if◌then◌else◌, inl}
use oaa_s_io_t.Std.Bytes.{Bytes, bytes_ord}
use oaa_s_io_t.Std.Order.{key_eq, key_eq_refl}
use oaa_s_io_t.Std.BTreeMap.Laws.{get-insert}
use oaa_s_io_t.Storage.Contract.{StorageBackend, IsReliable}
use oaa_s_io_t.Odgm.RaftLog.Types.{Openraft, Json, done, LogStore, ErrorSubject, flush_backends}
use oaa_s_io_t.Odgm.RaftLog.Metadata.{
  vote_key, committed_key, last_purged_key, write_metadata, save_vote, save_committed,
  set_last_purged,
}
use oaa_s_io_t.Odgm.RaftLog.Spec.{IsRoundTrip, IsFaithful, RaftState}
use oaa_s_io_t.Odgm.RaftLog.Represents.{Represents, metadata_at}

module _ {r : Openraft} (f : IsFaithful r) {L M : StorageBackend} (l : IsReliable L)
    (m : IsReliable M) where
  pub flush_lem :
      (subject : ErrorSubject) (s : LogStore L M)
      → l.Valid s.log_backend
      → m.Valid s.metadata_backend
      → flush_backends subject s ≡ done tt
  unfolding flush_backends
  flush_lem subject s p q =
      ground (arith, l.flush_ok s.log_backend p, m.flush_ok s.metadata_backend q)

  -- The state after a metadata write.
  abbrev pub stored_at : Bytes → Bytes → LogStore L M → LogStore L M
  stored_at key value s = record s { metadata_backend = (M.put s.metadata_backend key value).0 }

  write_metadata_lem :
      {A : Type 0} (subject : ErrorSubject) (json : Json A) (trip : IsRoundTrip json) (key : Bytes)
      (x : A) (s : LogStore L M)
      → l.Valid s.log_backend
      → m.Valid s.metadata_backend
      → write_metadata subject json key x s ≡ (stored_at key (trip x).0 s, done tt)
  unfolding write_metadata
  write_metadata_lem subject json trip key x s p q = ground (
    arith,
    (trip x).1,
    m.put_ok s.metadata_backend key (trip x).0 q,
    flush_lem subject (stored_at key (trip x).0 s) p
        (m.put-Valid s.metadata_backend key (trip x).0 q),
  )

  metadata_at-stored :
      (key value k : Bytes) (s : LogStore L M)
      → m.Valid s.metadata_backend
      → metadata_at f l m k (stored_at key value s)
        ≡ (if key_eq key k then some value else metadata_at f l m k s)
  metadata_at-stored key value k s q =
      rw (m.put_entries s.metadata_backend key value q)
        (get-insert (m.entries s.metadata_backend) key k value)

  metadata_at-same :
      (key value : Bytes) (s : LogStore L M)
      → m.Valid s.metadata_backend
      → metadata_at f l m key (stored_at key value s) ≡ some value
  metadata_at-same key value s q =
      ground (arith, metadata_at-stored key value key s q, key_eq_refl key)

  metadata_at-other :
      (key value k : Bytes) (s : LogStore L M)
      → m.Valid s.metadata_backend
      → key_eq key k ≡ false
      → metadata_at f l m k (stored_at key value s) ≡ metadata_at f l m k s
  metadata_at-other key value k s q e = ground (arith, metadata_at-stored key value k s q)

  -- Saving a vote succeeds, and replaces the vote alone.
  pub save_vote_lem :
      (v : r.Vote) (a : RaftState r) (s : LogStore L M)
      → Represents f l m a s
      → Represents f l m (record a { vote = some v }) (save_vote r v s).0
        × ((save_vote r v s).1 ≡ done tt)
  unfolding save_vote bytes_ord
  save_vote_lem v a s h =
      let q = h.metadata_valid in
      let json = (f.vote_trip v).0 in
      rw (write_metadata_lem ErrorSubject.vote r.vote_json f.vote_trip vote_key v s h.log_valid q) (
        record {
          log_valid = h.log_valid;
          metadata_valid = m.put-Valid s.metadata_backend vote_key json q;
          is_log = h.is_log;
          log_entries = h.log_entries;
          vote = metadata_at-same vote_key json s q;
          last_purged = metadata_at-other vote_key json last_purged_key s q refl ∙ h.last_purged;
          committed = rw (metadata_at-other vote_key json committed_key s q refl) h.committed;
        },
        refl,
      )

  -- Saving a committed identifier, or that there is none, succeeds and replaces that alone.
  pub save_committed_lem :
      (id : Option r.LogId) (a : RaftState r) (s : LogStore L M)
      → Represents f l m a s
      → Represents f l m (record a { committed = id }) (save_committed r id s).0
        × ((save_committed r id s).1 ≡ done tt)
  unfolding save_committed bytes_ord
  save_committed_lem id a s h =
      let q = h.metadata_valid in
      let json = (f.committed_trip id).0 in
      rw
        (write_metadata_lem ErrorSubject.store r.committed_json f.committed_trip committed_key id s
          h.log_valid q)
        (
          record {
            log_valid = h.log_valid;
            metadata_valid = m.put-Valid s.metadata_backend committed_key json q;
            is_log = h.is_log;
            log_entries = h.log_entries;
            vote = metadata_at-other committed_key json vote_key s q refl ∙ h.vote;
            last_purged =
                metadata_at-other committed_key json last_purged_key s q refl ∙ h.last_purged;
            committed = inl (metadata_at-same committed_key json s q);
          },
          refl,
        )

  -- So does storing the last purged identifier.
  pub set_last_purged_lem :
      (id : r.LogId) (a : RaftState r) (s : LogStore L M)
      → Represents f l m a s
      → Represents f l m (record a { last_purged = some id }) (set_last_purged r id s).0
        × ((set_last_purged r id s).1 ≡ done tt)
  unfolding set_last_purged bytes_ord
  set_last_purged_lem id a s h =
      let q = h.metadata_valid in
      let json = (f.log_id_trip id).0 in
      rw
        (write_metadata_lem ErrorSubject.store r.log_id_json f.log_id_trip last_purged_key id s
          h.log_valid q)
        (
          record {
            log_valid = h.log_valid;
            metadata_valid = m.put-Valid s.metadata_backend last_purged_key json q;
            is_log = h.is_log;
            log_entries = h.log_entries;
            vote = metadata_at-other last_purged_key json vote_key s q refl ∙ h.vote;
            last_purged = metadata_at-same last_purged_key json s q;
            committed =
                rw (metadata_at-other last_purged_key json committed_key s q refl) h.committed;
          },
          refl,
        )
