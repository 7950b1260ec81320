-- ===== src/Odgm/RaftLog/Examples.antt =====
-- The log-store theorems over two in-memory backends, with numbers as log identifiers and votes.
use oaa_s_io_t.Prelude.{
  ℕ, zero, suc, ◌≡◌, refl, List, [], ◌∷◌, Option, none, some, Bool, false, arith,
}
use oaa_s_io_t.Std.Bytes.{Bytes, bytes_ord}
use oaa_s_io_t.Std.BTreeMap.{included, unbounded, above, below}
use oaa_s_io_t.Std.Order.{nat_ord}
use oaa_s_io_t.Storage.Outcome.{Outcome, ok, err, not_found}
use oaa_s_io_t.Storage.Memory
use oaa_s_io_t.Storage.Contract.{StorageBackend}
use oaa_s_io_t.Storage.Contract.InMemory.{memory_backend, memory_reliable}
use oaa_s_io_t.Odgm.RaftLog.Types.{Openraft, Json, done, io_error, LogStore, logs, write}
use oaa_s_io_t.Odgm.RaftLog.Metadata.{read_vote, read_committed}
use oaa_s_io_t.Odgm.RaftLog.Entries.{
  append, truncate, purge, start_index, end_index, try_get_log_entries, get_log_state, append_loop,
}
use oaa_s_io_t.Odgm.RaftLog.Spec.{IsFaithful, IsRoundTrip, RaftState}
use oaa_s_io_t.Odgm.RaftLog.Represents.{Represents}
use oaa_s_io_t.Odgm.RaftLog.Changes.{append_lem, truncate_lem, purge_lem}
use oaa_s_io_t.Odgm.RaftLog.Errors.{append_stops}
use oaa_s_io_t.Odgm.RaftLog.Run.{
  RaftCall, vote_call, committed_call, append_call, truncate_call, purge_call, run, empty_state,
  reads_after_run, empty-Represents,
}

abbrev read_number : Bytes → Option ℕ
read_number (n ∷ []) = some n
read_number _ = none

abbrev write_option : Option ℕ → Option Bytes
write_option none = some []
write_option (some n) = some (n ∷ [])

abbrev read_option : Bytes → Option (Option ℕ)
read_option [] = some none
read_option (n ∷ []) = some (some n)
read_option _ = none

abbrev number_json : Json ℕ
number_json = record { to_vec = λ n. some (n ∷ []); from_slice = read_number }

abbrev option_json : Json (Option ℕ)
option_json = record { to_vec = write_option; from_slice = read_option }

-- An entry is its own index.
abbrev raft : Openraft
raft = record {
  LogId = ℕ;
  Vote = ℕ;
  Entry = ℕ;
  index = λ n. n;
  log_id = λ n. n;
  log_id_json = number_json;
  committed_json = option_json;
  vote_json = number_json;
  entry_json = number_json;
}

number_trip : IsRoundTrip number_json
number_trip n = (n ∷ [], refl, refl)

option_trip : IsRoundTrip option_json
option_trip none = ([], refl, refl)
option_trip (some n) = (n ∷ [], refl, refl)

raft-IsFaithful : IsFaithful raft
raft-IsFaithful = record {
  log_id_trip = number_trip;
  committed_trip = option_trip;
  vote_trip = number_trip;
  entry_trip = number_trip;
}

abbrev new_store : LogStore memory_backend memory_backend
unfolding memory_backend
new_store = record { log_backend = Memory.new; metadata_backend = Memory.new }

abbrev calls : List (RaftCall raft)
calls =
    vote_call 7
    ∷ append_call (1 ∷ 2 ∷ 3 ∷ [])
    ∷ truncate_call 3
    ∷ committed_call (some 2)
    ∷ purge_call 1
    ∷ []

reads_after_run_example :
    (read_vote raft (run raft new_store calls).0 ≡ done (some 7))
    × (read_committed raft (run raft new_store calls).0 ≡ done (some 2))
    × (get_log_state raft (run raft new_store calls).0
        ≡ done (record { last_purged_log_id = some 1; last_log_id = some 2 }))
    × (try_get_log_entries raft (included 1) unbounded (run raft new_store calls).0 ≡ done (2 ∷ []))
unfolding Memory.new memory_backend memory_reliable above below nat_ord
reads_after_run_example =
    reads_after_run raft-IsFaithful memory_reliable memory_reliable new_store calls (included 1)
      unbounded tt tt refl refl (tt, ((ground arith), (tt, (tt, (ground arith, tt)))))
      (ground arith) tt (unfold start_index end_index in ground arith)

-- A store that holds the entries 1 to 3.
abbrev three : LogStore memory_backend memory_backend
three = (append raft (1 ∷ 2 ∷ 3 ∷ []) new_store).0

new_store-Represents :
    Represents raft-IsFaithful memory_reliable memory_reliable empty_state new_store
unfolding Memory.new memory_backend memory_reliable
new_store-Represents =
    empty-Represents raft-IsFaithful memory_reliable memory_reliable new_store tt tt refl refl

abbrev holding : List ℕ → RaftState raft
holding entries = record { entries = entries; vote = none; committed = none; last_purged = none }

three-Represents :
    Represents raft-IsFaithful memory_reliable memory_reliable (holding (1 ∷ 2 ∷ 3 ∷ [])) three
three-Represents =
    (append_lem raft-IsFaithful memory_reliable memory_reliable (1 ∷ 2 ∷ 3 ∷ []) empty_state
      new_store new_store-Represents (ground arith)).0

append_lem_example :
    Represents raft-IsFaithful memory_reliable memory_reliable
      (holding (1 ∷ 2 ∷ 3 ∷ 8 ∷ []))
      (append raft (8 ∷ []) three).0
    × ((append raft (8 ∷ []) three).1 ≡ done tt)
    × ((append raft (8 ∷ []) three).2 ≡ some (done tt))
append_lem_example =
    append_lem raft-IsFaithful memory_reliable memory_reliable (8 ∷ []) (holding (1 ∷ 2 ∷ 3 ∷ []))
      three three-Represents (ground arith)

truncate_lem_example :
    Represents raft-IsFaithful memory_reliable memory_reliable
      (holding (1 ∷ []))
      (truncate raft 2 three).0
    × ((truncate raft 2 three).1 ≡ done tt)
truncate_lem_example =
    truncate_lem raft-IsFaithful memory_reliable memory_reliable 2 (holding (1 ∷ 2 ∷ 3 ∷ [])) three
      three-Represents

purge_lem_example :
    Represents raft-IsFaithful memory_reliable memory_reliable
      (record { entries = 3 ∷ []; vote = none; committed = none; last_purged = some 2 })
      (purge raft 2 three).0
    × ((purge raft 2 three).1 ≡ done tt)
purge_lem_example =
    purge_lem raft-IsFaithful memory_reliable memory_reliable 2 (holding (1 ∷ 2 ∷ 3 ∷ [])) three
      three-Represents (ground arith)

-- A backend that accepts the index 1 alone.
abbrev picky_put : Bytes → Bytes → Bytes → Bytes × Outcome Bool
picky_put kept key (suc zero ∷ []) = (1 ∷ kept, ok false)
picky_put kept key value = (kept, err not_found)

abbrev picky_backend : StorageBackend
picky_backend = record {
  State = Bytes;
  get = λ s k. ok none;
  put = picky_put;
  delete = λ s k. (s, ok tt);
  delete_range = λ s lo hi. (s, ok 0);
  scan = λ s prefix. ok [];
  scan_range = λ s lo hi. ok [];
  get_last = λ s. ok none;
  flush = λ s. ok tt;
}

abbrev picky_store : LogStore picky_backend picky_backend
picky_store = record { log_backend = []; metadata_backend = [] }

append_stops_example : append raft (1 ∷ 2 ∷ 3 ∷ []) picky_store ≡ (
  record { log_backend = 1 ∷ []; metadata_backend = [] },
  io_error logs write,
  some (io_error logs write),
)
unfolding append_loop
append_stops_example =
    append_stops raft (1 ∷ []) (3 ∷ []) 2 (2 ∷ []) not_found picky_store refl refl refl
