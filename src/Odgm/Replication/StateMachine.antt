-- ===== src/Odgm/Replication/StateMachine.antt =====
-- `ObjectShardStateMachine`: data-plane/oprc-odgm/src/replication/raft/state_machine.rs, without the
-- transfer of snapshots. The types of openraft and the texts of the errors are parameters.
use Prim.Native.String.{String}
use oaa_s_io_t.Prelude.{ℕ, ◌+◌, ◌%◌, List, [], ◌∷◌, Option, none, some}
use oaa_s_io_t.Storage.Outcome.{Outcome, ok, err, panicked, StorageError}
use oaa_s_io_t.Storage.Stats.{u64_mod}
use oaa_s_io_t.Storage.Contract.{StorageBackend}
use oaa_s_io_t.Odgm.Fallible.{Fallible, done, failed, unwound, Exec, pure, ◌>>=◌}
use oaa_s_io_t.Odgm.Replication.{
  Operation, write, read, delete, batch, Operations, nil, cons, ReplicationResponse, applied_with,
  no_extra, write_extra, failed_with,
}

-- `StorageError::IO` of openraft, with the text that it wraps.
pub data IoError : Type 0 where
  io_read : String → IoError

-- The openraft types that pass through, and `to_string` of the two error types.
pub record RaftTypes : Type 1 where
  pub LogId : Type 0
  pub Membership : Type 0
  pub StoredMembership : Type 0
  pub stored_membership : Option LogId → Membership → StoredMembership
  pub default_membership : StoredMembership
  pub error_text : StorageError → String
  pub io_error_text : IoError → String

pub data EntryPayload (r : RaftTypes) : Type 0 where
  blank : EntryPayload r
  normal : Operation → EntryPayload r
  membership : r.Membership → EntryPayload r

pub record Entry (r : RaftTypes) : Type 0 where
  pub log_id : r.LogId
  pub payload : EntryPayload r

-- What became of the loop over a batch: its first error, or a panic.
pub data BatchOutcome : Type 0 where
  finished : BatchOutcome
  first_error : String → BatchOutcome
  panics : BatchOutcome

module _ (r : RaftTypes) where
  abbrev pub io_result {ℓ} : {A : Type ℓ} → Outcome A → Fallible IoError A
  io_result (ok a) = done a
  io_result (err e) = failed (io_read (r.error_text e))
  io_result panicked = unwound

  -- `map_err(|e| Self::storage_error(&e.to_string()))` around the inner error.
  abbrev rewrap {ℓ} : {A : Type ℓ} → Fallible IoError A → Fallible IoError A
  rewrap (done a) = done a
  rewrap (failed e) = failed (io_read (r.io_error_text e))
  rewrap unwound = unwound

module _ (r : RaftTypes) (b : StorageBackend) where
  -- `Snapshot` is the storage's snapshot type.
  pub record StateMachine (Snapshot : Type 0) : Type 0 where
    pub app : b.State
    pub last_applied_log_id : Option r.LogId
    pub last_membership : r.StoredMembership
    pub snapshot_idx : ℕ
    pub current_snapshot : Option Snapshot

  abbrev after_inner {ℓ} :
      {A : Type ℓ} → Outcome A → b.State → b.State × BatchOutcome → b.State × BatchOutcome
  after_inner (ok _) s rest = rest
  after_inner (err e) s rest = (s, first_error (r.error_text e))
  after_inner panicked s rest = (s, panics)

  unfoldable pub batch_loop : Operations → b.State → b.State × BatchOutcome
  batch_loop nil s = (s, finished)
  batch_loop (cons (write w) rest) s =
      let (s', result) = b.put s w.key w.value in after_inner result s' (batch_loop rest s')
  batch_loop (cons (read key) rest) s = after_inner (b.get s key) s (batch_loop rest s)
  batch_loop (cons (delete key) rest) s =
      let (s', result) = b.delete s key in after_inner result s' (batch_loop rest s')
  batch_loop (cons (batch inner) rest) s = (s, first_error "nested batch unsupported")

  abbrev batch_response : b.State × BatchOutcome → b.State × Fallible IoError ReplicationResponse
  batch_response (s, finished) = (s, done (applied_with none no_extra))
  batch_response (s, first_error e) =
      (s, done (record { status = failed_with e; old = none; extra = no_extra }))
  batch_response (s, panics) = (s, unwound)

  unfoldable pub apply_shard_request : Operation → Exec b.State IoError ReplicationResponse
  unfolding batch_loop
  apply_shard_request (write w) = do
    out ← (λ s. ((b.put s w.key w.value).0, io_result r (b.put s w.key w.value).1))
    pure (applied_with none (write_extra out))
  apply_shard_request (read key) = do
    val ← (λ s. (s, io_result r (b.get s key)))
    pure (applied_with val no_extra)
  apply_shard_request (delete key) = do
    _ ← (λ s. ((b.delete s key).0, io_result r (b.delete s key).1))
    pure (applied_with none no_extra)
  apply_shard_request (batch operations) = λ s. batch_response (batch_loop operations s)

module _ (r : RaftTypes) {b : StorageBackend} {Snapshot : Type 0} where
  unfoldable pub new : b.State → StateMachine r b Snapshot
  new app = record {
    app = app;
    last_applied_log_id = none;
    last_membership = r.default_membership;
    snapshot_idx = 0;
    current_snapshot = none;
  }

  -- The `match &entry.payload`, after `last_applied_log_id` was set.
  unfoldable pub apply_payload :
      r.LogId → EntryPayload r → Exec (StateMachine r b Snapshot) IoError ReplicationResponse
  unfolding apply_shard_request
  apply_payload log_id blank m = (m, done (applied_with none no_extra))
  apply_payload log_id (normal request) m =
      let (app', response) = apply_shard_request r b request m.app in
      (record m { app = app' }, rewrap r response)
  apply_payload log_id (membership change) m = (
    record m { last_membership = r.stored_membership (some log_id) change },
    done (applied_with none no_extra),
  )

  -- The loop: an error ends it, and skips the invalidation of the snapshot.
  unfoldable pub apply_loop :
      List (Entry r) → Exec (StateMachine r b Snapshot) IoError (List ReplicationResponse)
  unfolding apply_payload
  apply_loop [] = pure []
  apply_loop (entry ∷ entries) = do
    response ← (λ m.
        apply_payload entry.log_id entry.payload
          (record m { last_applied_log_id = some entry.log_id }))
    responses ← apply_loop entries
    pure (response ∷ responses)

  -- `state_changed` is set by every entry.
  abbrev pub invalidate : List (Entry r) → StateMachine r b Snapshot → StateMachine r b Snapshot
  invalidate [] m = m
  invalidate (entry ∷ entries) m = record m { current_snapshot = none }

  unfoldable pub apply :
      List (Entry r) → Exec (StateMachine r b Snapshot) IoError (List ReplicationResponse)
  unfolding apply_loop
  apply entries = do responses ← apply_loop entries; λ m. (invalidate entries m, done responses)

  unfoldable pub applied_state : StateMachine r b Snapshot → Option r.LogId × r.StoredMembership
  applied_state m = (m.last_applied_log_id, m.last_membership)

  -- The builder is a copy of the machine with the new index.
  unfoldable pub get_snapshot_builder : StateMachine r b Snapshot → StateMachine r b Snapshot
  get_snapshot_builder m = record m { snapshot_idx = (m.snapshot_idx + 1) % u64_mod }
