-- ===== src/Odgm/Replication/Examples.antt =====
-- The replication layers at work on the in-memory backend, and on one that refuses writes.
use oaa_s_io_t.Prelude.{ℕ, ◌≡◌, refl, List, [], ◌∷◌, false, Option, none, some}
use oaa_s_io_t.Std.Bytes.{Bytes}
use oaa_s_io_t.Storage.Outcome.{ok, err, transaction}
use oaa_s_io_t.Storage.Stats
use oaa_s_io_t.Storage.Memory.{MemoryStorage}
use oaa_s_io_t.Storage.Contract.{StorageBackend}
use oaa_s_io_t.Storage.Contract.InMemory.{memory_backend, memory_reliable}
use oaa_s_io_t.Storage.Contract.Application.{memory_application, memory_application_reliable}
use oaa_s_io_t.Odgm.Fallible.{done}
use oaa_s_io_t.Odgm.Replication.{
  Operation, write, read, delete, batch, Operations, nil, cons, plain_write, ReplicationResponse,
  failed_with, no_extra,
}
use oaa_s_io_t.Odgm.Replication.Direct.{replicate_write}
use oaa_s_io_t.Odgm.Replication.StateMachine.{
  RaftTypes, StateMachine, Entry, blank, normal, membership, apply, apply_shard_request, batch_loop,
}
use oaa_s_io_t.Odgm.Replication.Applied.{answers, HasApplied, kept, apply_lem, layers_agree}
use oaa_s_io_t.Odgm.Replication.Failing.{followed_by, batch_stops}

abbrev types : RaftTypes
types = record {
  LogId = ℕ;
  Membership = List ℕ;
  StoredMembership = Option ℕ × List ℕ;
  stored_membership = λ id members. (id, members);
  default_membership = (none, []);
  error_text = λ e. "storage";
  io_error_text = λ e. "io";
}

abbrev puts : Operation
puts = batch (cons (write (plain_write (1 ∷ []) (5 ∷ []))) (cons (delete (2 ∷ [])) nil))

abbrev log : List (Entry types)
log =
    record { log_id = 4; payload = blank }
    ∷ record { log_id = 5; payload = membership (1 ∷ 2 ∷ []) }
    ∷ record { log_id = 6; payload = normal puts }
    ∷ record { log_id = 7; payload = normal (read (1 ∷ [])) }
    ∷ []

abbrev stored : MemoryStorage
stored = record { entries = (2 ∷ [], 8 ∷ []) ∷ []; stats = Stats.new }

abbrev machine : StateMachine types memory_backend ℕ
unfolding memory_backend
machine = record {
  app = stored;
  last_applied_log_id = some 3;
  last_membership = (none, []);
  snapshot_idx = 2;
  current_snapshot = some 9;
}

machine-Valid : memory_reliable.Valid machine.app
unfolding memory_backend memory_reliable machine
machine-Valid = (tt, tt)

apply_lem_example :
    (n : StateMachine types memory_backend ℕ) × (apply types log machine
      ≡ (n, done (answers log (memory_reliable.entries machine.app))))
    × HasApplied types memory_reliable machine n log
    × (n.current_snapshot ≡ kept log machine.current_snapshot)
apply_lem_example =
    apply_lem types memory_reliable log machine (tt, (tt, ((refl, (tt, tt)), (tt, tt))))
      machine-Valid

abbrev direct_state : memory_application.backend.State
unfolding memory_application memory_backend
direct_state = stored

direct-Valid : memory_application_reliable.base.Valid direct_state
unfolding memory_application memory_application_reliable memory_reliable direct_state
direct-Valid = (tt, tt)

same_entries :
    memory_application_reliable.base.entries direct_state ≡ memory_reliable.entries machine.app
unfolding memory_application memory_application_reliable memory_reliable direct_state machine
same_entries = refl

layers_agree_example :
    (x : ReplicationResponse) × ((replicate_write memory_application puts direct_state).1 ≡ done x)
    × ((apply_shard_request types memory_backend puts machine.app).1 ≡ done x)
    × (memory_application_reliable.base.entries
          (replicate_write memory_application puts direct_state).0
        ≡ memory_reliable.entries (apply_shard_request types memory_backend puts machine.app).0)
layers_agree_example =
    layers_agree types memory_application_reliable memory_reliable puts direct_state machine.app
      (refl, (tt, tt)) direct-Valid machine-Valid same_entries

-- A backend with one place, which it fills once.
abbrev one_place : StorageBackend
one_place = record {
  State = Option (Bytes × Bytes);
  get = λ s k. ok none;
  put = λ s k v. elim s [
    | none ↦ (some (k, v), ok false)
    | some e ↦ (some e, err (transaction "full"))
  ];
  delete = λ s k. (s, ok tt);
  delete_range = λ s lo hi. (s, ok 0);
  scan = λ s prefix. ok [];
  scan_range = λ s lo hi. ok [];
  get_last = λ s. ok none;
  flush = λ s. ok tt;
}

abbrev first : Operations
first = cons (write (plain_write (1 ∷ []) (5 ∷ []))) nil

batch_stops_example :
    apply_shard_request types one_place
      (batch (
        followed_by first
          (cons (write (plain_write (2 ∷ []) (6 ∷ []))) (cons (delete (1 ∷ [])) nil))))
      none
    ≡ (
      (one_place.put (batch_loop types one_place first none).0 (2 ∷ []) (6 ∷ [])).0,
      done (record { status = failed_with "storage"; old = none; extra = no_extra }),
    )
batch_stops_example =
    batch_stops types one_place first (cons (delete (1 ∷ [])) nil) (plain_write (2 ∷ []) (6 ∷ []))
      (transaction "full") none (unfold batch_loop in refl) (unfold batch_loop in refl)
