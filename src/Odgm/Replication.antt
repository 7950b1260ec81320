-- ===== src/Odgm/Replication.antt =====
-- The replication layer of a shard: the requests, responses and errors of
-- data-plane/oprc-odgm/src/replication/mod.rs, and the trait's `replicate_write` as an interface.
-- The timestamp and the source node of a request, and the metadata of a response, which no modelled
-- code reads or sets, are left out.
pub mod Direct
pub mod StateMachine
pub mod Mst
mod Examples
pub mod Failing
pub mod Applied
pub mod Performs
pub mod Spec
use Prim.Native.String.{String}
use oaa_s_io_t.Prelude.{ℕ, List, [], ◌∷◌, Bool, Option, none, false}
use oaa_s_io_t.Std.Bytes.{Bytes}
use oaa_s_io_t.Storage.Outcome.{Outcome, ok, err, panicked, StorageError}
use oaa_s_io_t.Odgm.Fallible.{Fallible, done, failed, unwound, Exec}

pub data ReplicationError : Type 0 where
  storage_error : StorageError → ReplicationError
  network_error consensus_error membership_change unsupported_operation : String → ReplicationError
  serialization_error timeout conflict : String → ReplicationError

pub data ResponseStatus : Type 0 where
  applied : ResponseStatus
  not_leader : Option ℕ → ResponseStatus
  failed_with : String → ResponseStatus
  conflict_detected : String → ResponseStatus
  retry : ResponseStatus

pub data OperationExtra : Type 0 where
  no_extra : OperationExtra
  write_extra : Bool → OperationExtra

pub record WriteOperation : Type 0 where
  pub key : Bytes
  pub value : Bytes
  pub ttl : Option ℕ
  pub return_old : Bool

mutual
  pub data Operation : Type 0 where
    write : WriteOperation → Operation
    read : Bytes → Operation
    delete : Bytes → Operation
    batch : Operations → Operation

  pub data Operations : Type 0 where
    nil : Operations
    cons : Operation → Operations → Operations

pub record ReplicationResponse : Type 0 where
  pub status : ResponseStatus
  pub old : Option Bytes
  pub extra : OperationExtra

-- `WriteOperation { key, value, ..Default::default() }`
abbrev pub plain_write : Bytes → Bytes → WriteOperation
plain_write key value = record { key = key; value = value; ttl = none; return_old = false }

-- `ReplicationResponse { status: Applied, data, extra, ..Default::default() }`
abbrev pub applied_with : Option Bytes → OperationExtra → ReplicationResponse
applied_with old extra = record { status = applied; old = old; extra = extra }

abbrev pub of_storage {ℓ} : {A : Type ℓ} → Outcome A → Fallible ReplicationError A
of_storage (ok a) = done a
of_storage (err e) = failed (storage_error e)
of_storage panicked = unwound

-- The trait `ReplicationLayer` over the state of the shard's storage.
pub record ReplicationLayer (State : Type 0) : Type 0 where
  pub replicate_write : Operation → Exec State ReplicationError ReplicationResponse
