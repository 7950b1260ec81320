-- ===== src/Odgm/Replication/Direct.antt =====
-- `NoReplication`: data-plane/oprc-odgm/src/replication/no_replication.rs. Requests go straight to
-- the storage; a batch is one request after another, and stops at the first that fails.
use oaa_s_io_t.Prelude.{none, if◌then◌else◌}
use oaa_s_io_t.Storage.Memory.{is_some}
use oaa_s_io_t.Storage.Contract.Application.{ApplicationDataStorage}
use oaa_s_io_t.Odgm.Fallible.{Exec, pure, ◌>>=◌, ◌>>◌}
use oaa_s_io_t.Odgm.Replication.{
  Operation, write, read, delete, batch, Operations, nil, cons, WriteOperation, ReplicationError,
  ReplicationResponse, applied_with, no_extra, write_extra, of_storage,
}

module _ (a : ApplicationDataStorage) where
  abbrev StorageExec : Type 0 → Type 0
  StorageExec A = Exec a.backend.State ReplicationError A

  unfoldable pub write_operation : WriteOperation → StorageExec ReplicationResponse
  write_operation w =
      if w.return_old
      then (do
        old ← (λ s. (
          (a.put_with_return s w.key w.value).0,
          of_storage (a.put_with_return s w.key w.value).1,
        ))
        pure (applied_with old (write_extra (is_some old))))
      else (do
        overwritten ←
            (λ s. ((a.backend.put s w.key w.value).0, of_storage (a.backend.put s w.key w.value).1))
        pure (applied_with none (write_extra overwritten)))

  unfoldable mutual
    pub replicate_write : Operation → StorageExec ReplicationResponse
    replicate_write (write w) = write_operation w
    replicate_write (delete key) = do
      λ s. ((a.backend.delete s key).0, of_storage (a.backend.delete s key).1)
      pure (applied_with none no_extra)
    replicate_write (read key) = do
      found ← (λ s. (s, of_storage (a.backend.get s key)))
      pure (applied_with found no_extra)
    replicate_write (batch operations) = do
      replicate_all operations
      pure (applied_with none no_extra)

    pub replicate_all : Operations → StorageExec (Unit {0})
    replicate_all nil = pure tt
    replicate_all (cons operation operations) = do
      _ ← replicate_write operation
      replicate_all operations
