-- ===== src/Odgm/Replication/Failing.antt =====
-- A batch at the Raft state machine whose storage refuses a write.
use oaa_s_io_t.Prelude.{◌≡◌, refl, none, arith}
use oaa_s_io_t.Storage.Outcome.{err, StorageError}
use oaa_s_io_t.Storage.Contract.{StorageBackend}
use oaa_s_io_t.Odgm.Fallible.{done}
use oaa_s_io_t.Odgm.Replication.{
  write, read, delete, batch, Operations, nil, cons, WriteOperation, failed_with, no_extra,
}
use oaa_s_io_t.Odgm.Replication.StateMachine.{RaftTypes, finished, batch_loop, apply_shard_request}

abbrev pub followed_by : Operations → Operations → Operations
followed_by nil rest = rest
followed_by (cons o os) rest = cons o (followed_by os rest)

module _ (r : RaftTypes) (b : StorageBackend) where
  loop-followed_by :
      (before rest : Operations) (s : b.State)
      → (batch_loop r b before s).1 ≡ finished
      → batch_loop r b (followed_by before rest) s ≡ batch_loop r b rest (batch_loop r b before s).0
  unfolding batch_loop
  loop-followed_by nil rest s h = refl
  loop-followed_by (cons (batch inner) os) rest s h = ground arith
  loop-followed_by (cons (write w) os) rest s h =
      ground (arith, loop-followed_by os rest (b.put s w.key w.value).0)
  loop-followed_by (cons (read key) os) rest s h = ground (arith, loop-followed_by os rest s)
  loop-followed_by (cons (delete key) os) rest s h =
      ground (arith, loop-followed_by os rest (b.delete s key).0)

  -- A write that the storage refuses ends the batch: what came before it stays written, nothing
  -- after it is tried, and the caller gets no error but a response with the status "failed".
  pub batch_stops :
      (before after : Operations) (w : WriteOperation) (e : StorageError) (s : b.State)
      → (batch_loop r b before s).1 ≡ finished
      → (b.put (batch_loop r b before s).0 w.key w.value).1 ≡ err e
      → apply_shard_request r b (batch (followed_by before (cons (write w) after))) s ≡ (
        (b.put (batch_loop r b before s).0 w.key w.value).0,
        done (record { status = failed_with (r.error_text e); old = none; extra = no_extra }),
      )
  unfolding apply_shard_request
  batch_stops before after w e s stored refused =
      rw (loop-followed_by before (cons (write w) after) s stored, batch_loop, refused) refl
