-- ===== src/Odgm/RaftLog/Spec.antt =====
-- What a Raft log store promises, on a list of entries in the order of their indexes: the contract of
-- data-plane/oprc-odgm/src/replication/raft/raft_log.rs.
use oaa_s_io_t.Prelude.{
  ℕ, ◌+◌, ◌<◌, ◌≡◌, List, [], ◌∷◌, ◌++◌, ltb, ◌&&◌, Option, none, some, All, filter,
}
use oaa_s_io_t.Std.BTreeMap.{Bound, above, below}
use oaa_s_io_t.Std.Order.{nat_ord}
use oaa_s_io_t.Storage.Stats.{u64_mod}
use oaa_s_io_t.Odgm.RaftLog.Types.{Openraft, Json}

-- `serde_json` writes every value of the type, and reads back what it wrote.
abbrev pub IsRoundTrip : {A : Type 0} → Json A → Type 0
IsRoundTrip {A} json =
    (a : A) → (bytes : List ℕ) × (json.to_vec a ≡ some bytes) × (json.from_slice bytes ≡ some a)

pub record IsFaithful (r : Openraft) : Type 0 where
  pub log_id_trip : IsRoundTrip r.log_id_json
  pub committed_trip : IsRoundTrip r.committed_json
  pub vote_trip : IsRoundTrip r.vote_json
  pub entry_trip : IsRoundTrip r.entry_json

module _ (r : Openraft) where
  abbrev pub index_of : r.Entry → ℕ
  index_of e = r.index (r.log_id e)

  -- An index whose successor is still a `u64`.
  abbrev pub HasNext : ℕ → Type 0
  HasNext i = i + 1 < u64_mod

  -- Indexes that increase, and have successors.
  abbrev pub IsLog : List r.Entry → Type 0
  IsLog [] = Unit
  IsLog (e ∷ log) = HasNext (index_of e) × All (λ f. index_of e < index_of f) log × IsLog log

  abbrev pub last : List r.Entry → Option r.Entry
  last [] = none
  last (e ∷ []) = some e
  last (e ∷ f ∷ log) = last (f ∷ log)

  -- The state that the store stands for.
  pub record RaftState : Type 0 where
    pub entries : List r.Entry
    pub vote : Option r.Vote
    pub committed : Option r.LogId
    pub last_purged : Option r.LogId

  abbrev pub between : Bound ℕ → Bound ℕ → List r.Entry → List r.Entry
  between lo hi log = filter (λ e. above lo (index_of e) && below hi (index_of e)) log

  abbrev pub append_to : List r.Entry → RaftState → RaftState
  append_to new s = record s { entries = s.entries ++ new }

  -- Everything from the identifier on is deleted.
  abbrev pub truncate_from : r.LogId → RaftState → RaftState
  truncate_from id s = record s { entries = filter (λ e. ltb (index_of e) (r.index id)) s.entries }

  -- Everything up to the identifier is deleted.
  abbrev pub purge_to : r.LogId → RaftState → RaftState
  purge_to id s = record s {
    entries = filter (λ e. ltb (r.index id) (index_of e)) s.entries;
    last_purged = some id;
  }
