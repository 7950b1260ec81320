-- ===== src/Odgm/RaftLog/Metadata.antt =====
-- The metadata records of data-plane/oprc-odgm/src/replication/raft/raft_log.rs: vote, committed and
-- last purged identifier.
use oaa_s_io_t.Prelude.{[], ◌∷◌, Option, none, some}
use oaa_s_io_t.Std.Bytes.{Bytes}
use oaa_s_io_t.Storage.Outcome.{ok, err, panicked}
use oaa_s_io_t.Storage.Contract.{StorageBackend}
use oaa_s_io_t.Odgm.RaftLog.Types.{
  Json, Openraft, ErrorSubject, store, vote, read, write, RaftResult, done, io_error, unwound,
  ◌>>=◌, map_err, or_io_error, LogStore, void, flush_backends,
}

abbrev pub vote_key : Bytes
vote_key = b'v' ∷ b'o' ∷ b't' ∷ b'e' ∷ []

abbrev pub committed_key : Bytes
committed_key = b'c' ∷ b'o' ∷ b'm' ∷ b'm' ∷ b'i' ∷ b't' ∷ b't' ∷ b'e' ∷ b'd' ∷ []

abbrev pub last_purged_key : Bytes
last_purged_key =
    b'l' ∷ b'a' ∷ b's' ∷ b't' ∷ b'_' ∷ b'p' ∷ b'u' ∷ b'r' ∷ b'g' ∷ b'e' ∷ b'd' ∷ b'_' ∷ b'l' ∷ b'o'
    ∷ b'g' ∷ b'_' ∷ b'i' ∷ b'd' ∷ []

abbrev pub flatten {ℓ} : {A : Type ℓ} → Option (Option A) → Option A
flatten none = none
flatten (some a) = a

module _ {L M : StorageBackend} where
  -- One metadata record, read and written.
  unfoldable pub read_metadata :
      {A : Type 0} → ErrorSubject → Json A → Bytes → LogStore L M → RaftResult (Option A)
  read_metadata subject json key s = elim (M.get s.metadata_backend key) [
    | ok (some value) ↦ do
      found ← or_io_error subject read (json.from_slice value)
      done (some found)
    | ok none ↦ done none
    | err e ↦ io_error subject read
    | panicked ↦ unwound
  ]

  abbrev pub flush_after :
      ErrorSubject → LogStore L M → RaftResult (Unit {0}) → LogStore L M × RaftResult (Unit {0})
  flush_after subject s (done u) = (s, flush_backends subject s)
  flush_after subject s failed = (s, failed)

  unfoldable pub write_metadata :
      {A : Type 0}
      → ErrorSubject
      → Json A
      → Bytes
      → A
      → LogStore L M
      → LogStore L M × RaftResult (Unit {0})
  unfolding flush_backends
  write_metadata subject json key a s = elim (json.to_vec a) [
    | none ↦ (s, io_error subject write)
    | some value ↦
        let (metadata', stored) = M.put s.metadata_backend key value in
        flush_after subject (record s { metadata_backend = metadata' })
          (void (map_err subject write stored))
  ]

module _ (r : Openraft) {L M : StorageBackend} where
  unfoldable pub get_last_purged : LogStore L M → RaftResult (Option r.LogId)
  unfolding read_metadata
  get_last_purged s = read_metadata store r.log_id_json last_purged_key s

  unfoldable pub set_last_purged : r.LogId → LogStore L M → LogStore L M × RaftResult (Unit {0})
  unfolding write_metadata
  set_last_purged log_id s = write_metadata store r.log_id_json last_purged_key log_id s

  -- `get_committed`, which `read_committed` calls: a missing record is `None` too.
  unfoldable pub read_committed : LogStore L M → RaftResult (Option r.LogId)
  unfolding read_metadata
  read_committed s = do
    found ← read_metadata store r.committed_json committed_key s
    done (flatten found)

  unfoldable pub save_committed :
      Option r.LogId → LogStore L M → LogStore L M × RaftResult (Unit {0})
  unfolding write_metadata
  save_committed committed s = write_metadata store r.committed_json committed_key committed s

  unfoldable pub save_vote : r.Vote → LogStore L M → LogStore L M × RaftResult (Unit {0})
  unfolding write_metadata
  save_vote v s = write_metadata vote r.vote_json vote_key v s

  unfoldable pub read_vote : LogStore L M → RaftResult (Option r.Vote)
  unfolding read_metadata
  read_vote s = read_metadata vote r.vote_json vote_key s
