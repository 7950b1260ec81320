-- ===== src/Odgm/RaftLog/Entries.antt =====
-- The log entries of data-plane/oprc-odgm/src/replication/raft/raft_log.rs: reading a range, the log
-- state, append, truncate and purge.
use oaa_s_io_t.Prelude.{
  ℕ, ◌+◌, ◌-◌, ◌%◌, List, [], ◌∷◌, ◌==◌, leb, Option, none, some, if◌then◌else◌, length,
}
use oaa_s_io_t.Std.Bytes.{Bytes}
use oaa_s_io_t.Std.Bytes.Words.{to_be_bytes, from_be_bytes}
use oaa_s_io_t.Std.BTreeMap.{Bound, included, excluded, unbounded}
use oaa_s_io_t.Storage.Outcome.{ok, err, panicked}
use oaa_s_io_t.Storage.Stats.{u64_mod}
use oaa_s_io_t.Storage.Contract.{StorageBackend, Entries}
use oaa_s_io_t.Odgm.RaftLog.Types.{
  Openraft, logs, read, write, RaftResult, done, io_error, unwound, ◌>>=◌, map_err, LogStore, void,
  flush_backends,
}
use oaa_s_io_t.Odgm.RaftLog.Metadata.{flush_after, get_last_purged, set_last_purged}

unfoldable pub log_id_to_key : ℕ → Bytes
unfolding to_be_bytes
log_id_to_key index = to_be_bytes 8 index

unfoldable pub key_to_log_id : Bytes → Option ℕ
unfolding from_be_bytes
key_to_log_id key = if length key == 8 then some (from_be_bytes key) else none

-- The additions wrap around.
unfoldable pub start_index : Bound ℕ → ℕ
start_index (included x) = x
start_index (excluded x) = (x + 1) % u64_mod
start_index unbounded = 0

unfoldable pub end_index : Bound ℕ → ℕ
end_index (included x) = (x + 1) % u64_mod
end_index (excluded x) = x
end_index unbounded = u64_mod - 1

pub record LogState (LogId : Type 0) : Type 0 where
  pub last_purged_log_id : Option LogId
  pub last_log_id : Option LogId

module _ {L M : StorageBackend} where
  -- `delete_range` from one index to before another.
  unfoldable pub delete_indexes : ℕ → ℕ → LogStore L M → LogStore L M × RaftResult (Unit {0})
  unfolding log_id_to_key
  delete_indexes start end s =
      let (log', deleted) =
        L.delete_range s.log_backend (included (log_id_to_key start))
          (excluded (log_id_to_key end)) in
      (record s { log_backend = log' }, void (map_err logs write deleted))

  abbrev pub and_then :
      LogStore L M × RaftResult (Unit {0})
      → (LogStore L M → LogStore L M × RaftResult (Unit {0}))
      → LogStore L M × RaftResult (Unit {0})
  and_then (s, done u) f = f s
  and_then (s, failed) f = (s, failed)

-- `log_io_completed` is told the result that `append` returns, unless a panic comes first.
abbrev pub callback_of : RaftResult (Unit {0}) → Option (RaftResult (Unit {0}))
callback_of unwound = none
callback_of result = some result

module _ (r : Openraft) where
  -- `filter_map`, `map` and `collect` on the scanned entries: the first that does not decode ends it.
  unfoldable pub decode_all : Entries → RaftResult (List r.Entry)
  unfolding key_to_log_id
  decode_all [] = done []
  decode_all ((key, value) ∷ scanned) = elim (key_to_log_id key) [
    | none ↦ decode_all scanned
    | some _ ↦ elim (r.entry_json.from_slice value) [
      | none ↦ io_error logs read
      | some e ↦ do rest ← decode_all scanned; done (e ∷ rest)
    ]
  ]

  abbrev pub entry_log_id : Option r.Entry → Option r.LogId
  entry_log_id none = none
  entry_log_id (some e) = some (r.log_id e)

module _ (r : Openraft) (L : StorageBackend) where
  -- The loop of `append`: the first entry that is not stored ends it.
  unfoldable pub append_loop : List r.Entry → L.State → L.State × RaftResult (Unit {0})
  unfolding log_id_to_key
  append_loop [] log = (log, done tt)
  append_loop (e ∷ entries) log = elim (r.entry_json.to_vec e) [
    | none ↦ (log, io_error logs write)
    | some value ↦ elim (L.put log (log_id_to_key (r.index (r.log_id e))) value).1 [
      | ok _ ↦ append_loop entries (L.put log (log_id_to_key (r.index (r.log_id e))) value).0
      | err _ ↦ ((L.put log (log_id_to_key (r.index (r.log_id e))) value).0, io_error logs write)
      | panicked ↦ ((L.put log (log_id_to_key (r.index (r.log_id e))) value).0, unwound)
    ]
  ]

module _ (r : Openraft) {L M : StorageBackend} where
  unfoldable pub try_get_log_entries : Bound ℕ → Bound ℕ → LogStore L M → RaftResult (List r.Entry)
  unfolding start_index end_index log_id_to_key decode_all
  try_get_log_entries lo hi s = do
    scanned ← map_err logs read (
        L.scan_range s.log_backend (included (log_id_to_key (start_index lo)))
          (excluded (log_id_to_key (end_index hi))))
    decode_all r scanned

  -- Every error in reading the last entry reads as no entry.
  unfoldable pub last_log_id : LogStore L M → RaftResult (Option r.LogId)
  unfolding key_to_log_id
  last_log_id s = elim (L.get_last s.log_backend) [
    | ok (some (key, value)) ↦ elim (key_to_log_id key) [
      | none ↦ done none
      | some _ ↦ done (entry_log_id r (r.entry_json.from_slice value))
    ]
    | ok none ↦ done none
    | err e ↦ done none
    | panicked ↦ unwound
  ]

  unfoldable pub get_log_state : LogStore L M → RaftResult (LogState r.LogId)
  unfolding last_log_id get_last_purged
  get_log_state s = do
    last ← last_log_id s
    purged ← get_last_purged r s
    done (record { last_purged_log_id = purged; last_log_id = last })

  -- The new state, the result, and what the callback is told.
  unfoldable pub append :
      List r.Entry
      → LogStore L M
      → LogStore L M × RaftResult (Unit {0}) × Option (RaftResult (Unit {0}))
  unfolding append_loop flush_backends
  append entries s =
      let (log', stored) = append_loop r L entries s.log_backend in
      let (s', result) = flush_after logs (record s { log_backend = log' }) stored in
      (s', result, callback_of result)

  unfoldable pub truncate : r.LogId → LogStore L M → LogStore L M × RaftResult (Unit {0})
  unfolding key_to_log_id delete_indexes
  truncate log_id s = elim (L.get_last s.log_backend) [
    | ok (some (key, _)) ↦ elim (key_to_log_id key) [
      | none ↦ (s, done tt)
      | some current_last ↦
          if leb (r.index log_id) current_last
          then delete_indexes (r.index log_id) ((current_last + 1) % u64_mod) s
          else (s, done tt)
    ]
    | ok none ↦ (s, done tt)
    | err e ↦ (s, done tt)
    | panicked ↦ (s, unwound)
  ]

  -- The last purged identifier is stored first.
  unfoldable pub purge : r.LogId → LogStore L M → LogStore L M × RaftResult (Unit {0})
  unfolding set_last_purged delete_indexes
  purge log_id s =
      and_then (set_last_purged r log_id s) (delete_indexes 0 ((r.index log_id + 1) % u64_mod))
