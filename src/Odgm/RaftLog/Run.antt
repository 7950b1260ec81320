-- ===== src/Odgm/RaftLog/Run.antt =====
-- Any sequence of the writes of data-plane/oprc-odgm/src/replication/raft/raft_log.rs against its
-- specification.
use oaa_s_io_t.Prelude.{ℕ, ◌≤◌, ◌≡◌, refl, List, [], ◌∷◌, ◌++◌, Option, none, some, All, inr}
use oaa_s_io_t.Std.Bytes.{bytes_ord}
use oaa_s_io_t.Std.BTreeMap
use oaa_s_io_t.Std.BTreeMap.{Bound}
use oaa_s_io_t.Storage.Contract.{StorageBackend, IsReliable}
use oaa_s_io_t.Odgm.RaftLog.Types.{Openraft, RaftResult, done, LogStore}
use oaa_s_io_t.Odgm.RaftLog.Metadata.{save_vote, save_committed, read_vote, read_committed}
use oaa_s_io_t.Odgm.RaftLog.Entries.{
  append, truncate, purge, start_index, end_index, try_get_log_entries, get_log_state, entry_log_id,
}
use oaa_s_io_t.Odgm.RaftLog.Spec.{
  IsFaithful, HasNext, IsLog, last, RaftState, between, append_to, truncate_from, purge_to,
}
use oaa_s_io_t.Odgm.RaftLog.Represents.{Represents, metadata_reads}
use oaa_s_io_t.Odgm.RaftLog.Reads.{FitsStart, FitsEnd, try_get_lem, get_log_state_lem}
use oaa_s_io_t.Odgm.RaftLog.Writes.{save_vote_lem, save_committed_lem}
use oaa_s_io_t.Odgm.RaftLog.Changes.{append_lem, truncate_lem, purge_lem}

-- A write of the store.
pub data RaftCall (r : Openraft) : Type 0 where
  vote_call : r.Vote → RaftCall r
  committed_call : Option r.LogId → RaftCall r
  append_call : List r.Entry → RaftCall r
  truncate_call purge_call : r.LogId → RaftCall r

module _ {r : Openraft} where
  abbrev pub spec_step : RaftState r → RaftCall r → RaftState r
  spec_step a (vote_call v) = record a { vote = some v }
  spec_step a (committed_call id) = record a { committed = id }
  spec_step a (append_call new) = append_to r new a
  spec_step a (truncate_call id) = truncate_from r id a
  spec_step a (purge_call id) = purge_to r id a

  -- Raft appends entries that continue the log, and purges at an index that has a successor.
  abbrev pub IsAllowed : RaftState r → RaftCall r → Type 0
  IsAllowed a (append_call new) = IsLog r (a.entries ++ new)
  IsAllowed a (purge_call id) = HasNext r (r.index id)
  IsAllowed a _ = Unit

  abbrev pub AreAllowed : RaftState r → List (RaftCall r) → Type 0
  AreAllowed a [] = Unit
  AreAllowed a (c ∷ calls) = IsAllowed a c × AreAllowed (spec_step a c) calls

  abbrev pub spec_run : RaftState r → List (RaftCall r) → RaftState r
  spec_run a [] = a
  spec_run a (c ∷ calls) = spec_run (spec_step a c) calls

  abbrev pub empty_state : RaftState r
  empty_state = record { entries = []; vote = none; committed = none; last_purged = none }

module _ (r : Openraft) {L M : StorageBackend} where
  abbrev pub step : LogStore L M → RaftCall r → LogStore L M × RaftResult (Unit {0})
  step s (vote_call v) = save_vote r v s
  step s (committed_call id) = save_committed r id s
  step s (append_call new) = ((append r new s).0, (append r new s).1)
  step s (truncate_call id) = truncate r id s
  step s (purge_call id) = purge r id s

  -- The store after a sequence of writes, and their results.
  abbrev pub run : LogStore L M → List (RaftCall r) → LogStore L M × List (RaftResult (Unit {0}))
  run s [] = (s, [])
  run s (c ∷ calls) = ((run (step s c).0 calls).0, (step s c).1 ∷ (run (step s c).0 calls).1)

module _ {r : Openraft} (f : IsFaithful r) {L M : StorageBackend} (l : IsReliable L)
    (m : IsReliable M) where
  step_lem :
      (a : RaftState r) (s : LogStore L M) (c : RaftCall r)
      → Represents f l m a s
      → IsAllowed a c
      → Represents f l m (spec_step a c) (step r s c).0 × ((step r s c).1 ≡ done tt)
  step_lem a s (vote_call v) h ok = save_vote_lem f l m v a s h
  step_lem a s (committed_call id) h ok = save_committed_lem f l m id a s h
  step_lem a s (append_call new) h ok =
      let appended = append_lem f l m new a s h ok in (appended.0, appended.1)
  step_lem a s (truncate_call id) h ok = truncate_lem f l m id a s h
  step_lem a s (purge_call id) h ok = purge_lem f l m id a s h ok

  -- Every allowed sequence of writes succeeds, write by write, and leaves a store that represents
  -- what the specification says.
  pub run_lem :
      (a : RaftState r) (s : LogStore L M) (calls : List (RaftCall r))
      → Represents f l m a s
      → AreAllowed a calls
      → Represents f l m (spec_run a calls) (run r s calls).0
        × All (λ result. result ≡ done tt) (run r s calls).1
  run_lem a s [] h ok = (h, tt)
  run_lem a s (c ∷ calls) h ok =
      let (now, fine) = step_lem a s c h ok.0 in
      let (later, all_fine) = run_lem (spec_step a c) (step r s c).0 calls now ok.1 in
      (later, (fine, all_fine))

  -- A store with empty backends represents the empty state.
  pub empty-Represents :
      (s : LogStore L M)
      → l.Valid s.log_backend
      → m.Valid s.metadata_backend
      → l.entries s.log_backend ≡ []
      → m.entries s.metadata_backend ≡ []
      → Represents f l m empty_state s
  unfolding BTreeMap.get
  empty-Represents s p q e g = record {
    log_valid = p;
    metadata_valid = q;
    is_log = tt;
    log_entries = e;
    vote = rw g refl;
    last_purged = rw g refl;
    committed = inr (rw g refl, refl);
  }

  -- After any allowed sequence of writes on a store with empty backends, every read answers from the
  -- specified state: the vote, the committed identifier, the log state, and each range of entries
  -- that is not inverted and whose additions do not wrap around.
  pub reads_after_run :
      (s : LogStore L M) (calls : List (RaftCall r)) (lo hi : Bound ℕ)
      → l.Valid s.log_backend
      → m.Valid s.metadata_backend
      → l.entries s.log_backend ≡ []
      → m.entries s.metadata_backend ≡ []
      → AreAllowed empty_state calls
      → FitsStart lo
      → FitsEnd hi
      → start_index lo ≤ end_index hi
      → (read_vote r (run r s calls).0 ≡ done (spec_run empty_state calls).vote)
        × (read_committed r (run r s calls).0 ≡ done (spec_run empty_state calls).committed)
        × (get_log_state r (run r s calls).0
            ≡ done (record {
              last_purged_log_id = (spec_run empty_state calls).last_purged;
              last_log_id = entry_log_id r (last r (spec_run empty_state calls).entries);
            }))
        × (try_get_log_entries r lo hi (run r s calls).0
            ≡ done (between r lo hi (spec_run empty_state calls).entries))
  reads_after_run s calls lo hi p q e g ok fits_lo fits_hi order =
      let (h, _) = run_lem empty_state s calls (empty-Represents s p q e g) ok in
      let (votes, committed, _) =
        metadata_reads f l m (spec_run empty_state calls) (run r s calls).0 h in
      (
        votes,
        committed,
        get_log_state_lem f l m (spec_run empty_state calls) (run r s calls).0 h,
        try_get_lem f l m (spec_run empty_state calls) (run r s calls).0 lo hi h fits_lo fits_hi
            order,
      )
