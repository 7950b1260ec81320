-- ===== src/Odgm/RaftLog/Represents.antt =====
-- Which abstract state a log store over two reliable backends stands for, and that its reads answer
-- from it: data-plane/oprc-odgm/src/replication/raft/raft_log.rs.
use oaa_s_io_t.Prelude.{◌≡◌, refl, Option, none, some, arith, ◌⊎◌, inl, inr}
use oaa_s_io_t.Std.Order.{nat_ord}
use oaa_s_io_t.Std.Bytes.{Bytes, bytes_ord}
use oaa_s_io_t.Std.BTreeMap
use oaa_s_io_t.Std.BTreeMap.{Bound, included, excluded, unbounded, above, below}
use oaa_s_io_t.Storage.Contract.{StorageBackend, IsReliable}
use oaa_s_io_t.Odgm.RaftLog.Types.{Openraft, Json, done, LogStore, ErrorSubject}
use oaa_s_io_t.Odgm.RaftLog.Metadata.{
  vote_key, committed_key, last_purged_key, read_metadata, read_vote, read_committed,
  get_last_purged,
}
use oaa_s_io_t.Odgm.RaftLog.Spec.{IsRoundTrip, IsFaithful, IsLog, RaftState}
use oaa_s_io_t.Odgm.RaftLog.Image.{image}

-- The bytes that are stored for an optional value.
abbrev pub json_of : {A : Type 0} {json : Json A} → IsRoundTrip json → Option A → Option Bytes
json_of trip none = none
json_of trip (some a) = some (trip a).0

-- A record that reads as `none` where it is missing.
abbrev pub IsCommitted :
    {A : Type 0} {json : Json (Option A)} → IsRoundTrip json → Option A → Option Bytes → Type 0
IsCommitted trip a found = (found ≡ some (trip a).0) ⊎ ((found ≡ none) × (a ≡ none))

module _ {r : Openraft} (f : IsFaithful r) {L M : StorageBackend} (l : IsReliable L)
    (m : IsReliable M) where
  abbrev pub metadata_at : Bytes → LogStore L M → Option Bytes
  metadata_at key s = BTreeMap.get (m.entries s.metadata_backend) key

  pub record Represents (a : RaftState r) (s : LogStore L M) : Type 0 where
    pub log_valid : l.Valid s.log_backend
    pub metadata_valid : m.Valid s.metadata_backend
    pub is_log : IsLog r a.entries
    pub log_entries : l.entries s.log_backend ≡ image r f.entry_trip a.entries
    pub vote : metadata_at vote_key s ≡ json_of f.vote_trip a.vote
    pub last_purged : metadata_at last_purged_key s ≡ json_of f.log_id_trip a.last_purged
    pub committed : IsCommitted f.committed_trip a.committed (metadata_at committed_key s)

  read_metadata_lem :
      {A : Type 0} (subject : ErrorSubject) (json : Json A) (trip : IsRoundTrip json) (key : Bytes)
      (s : LogStore L M) (a : Option A)
      → m.Valid s.metadata_backend
      → metadata_at key s ≡ json_of trip a
      → read_metadata subject json key s ≡ done a
  unfolding read_metadata
  read_metadata_lem subject json trip key s none valid e =
      ground (arith, m.get_lem s.metadata_backend key valid)
  read_metadata_lem subject json trip key s (some a) valid e =
      ground (arith, m.get_lem s.metadata_backend key valid, (trip a).2)

  read_committed_lem :
      (a : RaftState r) (s : LogStore L M) → Represents a s → read_committed r s ≡ done a.committed
  unfolding read_committed
  read_committed_lem a s h = elim h.committed [
    | inl e ↦
        rw
          (read_metadata_lem ErrorSubject.store r.committed_json f.committed_trip committed_key s
            (some a.committed) h.metadata_valid e)
          refl
    | inr e ↦
        rw
          (
            read_metadata_lem ErrorSubject.store r.committed_json f.committed_trip committed_key s
                none h.metadata_valid e.0,
            e.1,
          )
          refl
  ]

  -- The metadata reads give what the state holds.
  pub metadata_reads :
      (a : RaftState r) (s : LogStore L M)
      → Represents a s
      → (read_vote r s ≡ done a.vote)
        × (read_committed r s ≡ done a.committed)
        × (get_last_purged r s ≡ done a.last_purged)
  unfolding read_vote get_last_purged
  metadata_reads a s h = (
    read_metadata_lem ErrorSubject.vote r.vote_json f.vote_trip vote_key s a.vote h.metadata_valid
        h.vote,
    read_committed_lem a s h,
    read_metadata_lem ErrorSubject.store r.log_id_json f.log_id_trip last_purged_key s a.last_purged
        h.metadata_valid h.last_purged,
  )
