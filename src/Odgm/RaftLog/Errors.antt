-- ===== src/Odgm/RaftLog/Errors.antt =====
-- `append` of data-plane/oprc-odgm/src/replication/raft/raft_log.rs on any log backend, one that
-- fails included.
use oaa_s_io_t.Prelude.{◌≡◌, refl, List, [], ◌∷◌, ◌++◌, some, arith, Option-cases, inl, inr}
use oaa_s_io_t.Std.Bytes.{Bytes}
use oaa_s_io_t.Storage.Outcome.{err, StorageError}
use oaa_s_io_t.Storage.Contract.{StorageBackend}
use oaa_s_io_t.Odgm.RaftLog.Types.{Openraft, done, io_error, LogStore, logs, write}
use oaa_s_io_t.Odgm.RaftLog.Entries.{append_loop, append, log_id_to_key}
use oaa_s_io_t.Odgm.RaftLog.Spec.{index_of}

module _ (r : Openraft) (L : StorageBackend) where
  append_loop-append :
      (before rest : List r.Entry) (t : L.State)
      → (append_loop r L before t).1 ≡ done tt
      → append_loop r L (before ++ rest) t ≡ append_loop r L rest (append_loop r L before t).0
  unfolding append_loop
  append_loop-append [] rest t h = refl
  append_loop-append (e ∷ before) rest t h = elim (Option-cases (r.entry_json.to_vec e)) [
    | inl none_written ↦ ground arith
    | inr (value, written) ↦
        ground
          (arith, append_loop-append before rest (L.put t (log_id_to_key (index_of r e)) value).0)
  ]

module _ (r : Openraft) {L M : StorageBackend} where
  -- An entry that can be encoded and whose write the log backend refuses, after writes that succeeded,
  -- ends the append: the log backend is in the state that the refused write leaves, so that no later
  -- entry is written, the metadata backend is as it was, and the error goes to the callback and to
  -- the caller.
  pub append_stops :
      (before after : List r.Entry) (e : r.Entry) (value : Bytes) (error : StorageError)
      (s : LogStore L M)
      → (append_loop r L before s.log_backend).1 ≡ done tt
      → r.entry_json.to_vec e ≡ some value
      → (L.put (append_loop r L before s.log_backend).0 (log_id_to_key (index_of r e)) value).1
        ≡ err error
      → append r (before ++ e ∷ after) s ≡ (
        record s {
          log_backend =
              (L.put
                (append_loop r L before s.log_backend).0
                (log_id_to_key (index_of r e))
                value).0;
        },
        io_error logs write,
        some (io_error logs write),
      )
  unfolding append
  append_stops before after e value error s stored written refused =
      rw
        (
          append_loop-append r L before (e ∷ after) s.log_backend stored,
          append_loop,
          written,
          append_loop,
          refused,
        )
        refl
