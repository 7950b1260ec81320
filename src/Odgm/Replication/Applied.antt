-- ===== src/Odgm/Replication/Applied.antt =====
-- `apply` of data-plane/oprc-odgm/src/replication/raft/state_machine.rs over a piece of the log, and
-- its agreement with the layer without replication on single requests.
use oaa_s_io_t.Prelude.{◌≡◌, refl, ap, ◌∙◌, sym, List, [], ◌∷◌, Option, none, some}
use oaa_s_io_t.Storage.Contract.{StorageBackend, IsReliable, Entries}
use oaa_s_io_t.Storage.Contract.Application.{ApplicationDataStorage, IsReliableApplication}
use oaa_s_io_t.Odgm.Fallible.{done}
use oaa_s_io_t.Odgm.Replication.{Operation, ReplicationResponse, applied_with, no_extra}
use oaa_s_io_t.Odgm.Replication.Spec.{IsPlain, replay, answer}
use oaa_s_io_t.Odgm.Replication.Direct.{replicate_write}
use oaa_s_io_t.Odgm.Replication.StateMachine.{
  RaftTypes, StateMachine, Entry, EntryPayload, blank, normal, membership, apply_payload,
  apply_loop, apply, invalidate, apply_shard_request,
}
use oaa_s_io_t.Odgm.Replication.Performs.{direct-Performs, machine-Performs}

module _ {r : RaftTypes} where
  abbrev pub IsPlainPayload : EntryPayload r → Type 0
  IsPlainPayload (normal o) = IsPlain o
  IsPlainPayload blank = Unit {0}
  IsPlainPayload (membership change) = Unit {0}

  abbrev pub ArePlain : List (Entry r) → Type 0
  ArePlain [] = Unit {0}
  ArePlain (e ∷ es) = IsPlainPayload e.payload × ArePlain es

  abbrev pub replay_payload : EntryPayload r → Entries → Entries
  replay_payload (normal o) m = replay o m
  replay_payload blank m = m
  replay_payload (membership change) m = m

  abbrev pub answer_payload : EntryPayload r → Entries → ReplicationResponse
  answer_payload (normal o) m = answer o m
  answer_payload blank m = applied_with none no_extra
  answer_payload (membership change) m = applied_with none no_extra

  abbrev pub replay_log : List (Entry r) → Entries → Entries
  replay_log [] m = m
  replay_log (e ∷ es) m = replay_log es (replay_payload e.payload m)

  abbrev pub answers : List (Entry r) → Entries → List ReplicationResponse
  answers [] m = []
  answers (e ∷ es) m = answer_payload e.payload m ∷ answers es (replay_payload e.payload m)

  abbrev pub last_id : Option r.LogId → List (Entry r) → Option r.LogId
  last_id id [] = id
  last_id id (e ∷ es) = last_id (some e.log_id) es

  abbrev member_of : r.LogId → EntryPayload r → r.StoredMembership → r.StoredMembership
  member_of id (membership change) old = r.stored_membership (some id) change
  member_of id blank old = old
  member_of id (normal o) old = old

  abbrev pub last_member : r.StoredMembership → List (Entry r) → r.StoredMembership
  last_member old [] = old
  last_member old (e ∷ es) = last_member (member_of e.log_id e.payload old) es

  abbrev pub kept {ℓ} : {A : Type ℓ} → List (Entry r) → Option A → Option A
  kept [] snapshot = snapshot
  kept (e ∷ es) snapshot = none

module _ (r : RaftTypes) {b : StorageBackend} (h : IsReliable b) {Snapshot : Type 0} where
  -- What is asked of a state that has applied entries.
  pub record HasApplied (m m' : StateMachine r b Snapshot) (es : List (Entry r)) : Type 0 where
    pub valid : h.Valid m'.app
    pub entries : h.entries m'.app ≡ replay_log es (h.entries m.app)
    pub last_applied : m'.last_applied_log_id ≡ last_id m.last_applied_log_id es
    pub membership_kept : m'.last_membership ≡ last_member m.last_membership es
    pub index_kept : m'.snapshot_idx ≡ m.snapshot_idx

  payload_lem :
      (id : r.LogId) (p : EntryPayload r) (m : StateMachine r b Snapshot)
      → IsPlainPayload p
      → h.Valid m.app
      → (n : StateMachine r b Snapshot) × (apply_payload r id p m
          ≡ (n, done (answer_payload p (h.entries m.app))))
        × h.Valid n.app
        × (h.entries n.app ≡ replay_payload p (h.entries m.app))
        × (n.last_applied_log_id ≡ m.last_applied_log_id)
        × (n.last_membership ≡ member_of id p m.last_membership)
        × (n.snapshot_idx ≡ m.snapshot_idx)
        × (n.current_snapshot ≡ m.current_snapshot)
  unfolding apply_payload
  payload_lem id blank m p v = (m, refl, v, refl, refl, refl, refl, refl)
  payload_lem id (membership change) m p v = (_, refl, v, refl, refl, refl, refl, refl)
  payload_lem id (normal o) m p v =
      let d = machine-Performs r h o m.app p v in
      (
        record m { app = (apply_shard_request r b o m.app).0 },
        rw d.answered refl,
        d.valid,
        d.entries,
        refl,
        refl,
        refl,
        refl,
      )

  loop_lem :
      (es : List (Entry r)) (m : StateMachine r b Snapshot)
      → ArePlain es
      → h.Valid m.app
      → (n : StateMachine r b Snapshot) × (apply_loop r es m
          ≡ (n, done (answers es (h.entries m.app))))
        × HasApplied m n es
        × (n.current_snapshot ≡ m.current_snapshot)
  unfolding apply_loop
  loop_lem [] m p v = (
    m,
    refl,
    record {
      valid = v;
      entries = refl;
      last_applied = refl;
      membership_kept = refl;
      index_kept = refl;
    },
    refl,
  )
  loop_lem (e ∷ es) m p v =
      let m1 = record m { last_applied_log_id = some e.log_id } in
      let (n, step, v', same, id, member, idx, snap) = payload_lem e.log_id e.payload m1 p.0 v in
      let (n', steps, done_, snap') = loop_lem es n p.1 v' in
      (
        n',
        rw (step, steps)
            (ap
              (λ (t : Entries).
                (n', done (answer_payload e.payload (h.entries m.app) ∷ answers es t)))
              same),
        record {
          valid = done_.valid;
          entries = done_.entries ∙ ap (replay_log es) same;
          last_applied = done_.last_applied ∙ ap (λ (t : Option r.LogId). last_id t es) id;
          membership_kept =
              done_.membership_kept ∙ ap (λ (t : r.StoredMembership). last_member t es) member;
          index_kept = done_.index_kept ∙ idx;
        },
        snap' ∙ snap,
      )

  invalidated :
      (es : List (Entry r)) (m n : StateMachine r b Snapshot)
      → HasApplied m n es
      → n.current_snapshot ≡ m.current_snapshot
      → HasApplied m (invalidate r es n) es
        × ((invalidate r es n).current_snapshot ≡ kept es m.current_snapshot)
  invalidated [] m n a e = (a, e)
  invalidated (x ∷ es) m n a e = (
    record {
      valid = a.valid;
      entries = a.entries;
      last_applied = a.last_applied;
      membership_kept = a.membership_kept;
      index_kept = a.index_kept;
    },
    refl,
  )

  -- On a storage that does not fail, applying log entries that hold no batch within a batch and ask
  -- for no old value succeeds with one specified answer for each entry; the storage then holds what
  -- replaying the entries in order gives, the last applied identifier and the membership are those
  -- of the last entry that sets them, and unless there were no entries the snapshot is dropped.
  pub apply_lem :
      (es : List (Entry r)) (m : StateMachine r b Snapshot)
      → ArePlain es
      → h.Valid m.app
      → (n : StateMachine r b Snapshot) × (apply r es m ≡ (n, done (answers es (h.entries m.app))))
        × HasApplied m n es
        × (n.current_snapshot ≡ kept es m.current_snapshot)
  unfolding apply
  apply_lem es m p v =
      let (n, e, a, s) = loop_lem es m p v in
      let (a', s') = invalidated es m n a s in (invalidate r es n, rw e refl, a', s')

module _ (r : RaftTypes) {a : ApplicationDataStorage} {b : StorageBackend}
    (h : IsReliableApplication a) (k : IsReliable b) where
  -- Over storages that do not fail and hold the same entries, a shard without replication and a Raft
  -- state machine give the same answer to a request, one with no batch within a batch and that asks
  -- for no old value, and their storages hold the same entries afterwards.
  pub layers_agree :
      (o : Operation) (s : a.backend.State) (t : b.State)
      → IsPlain o
      → h.base.Valid s
      → k.Valid t
      → h.base.entries s ≡ k.entries t
      → (x : ReplicationResponse) × ((replicate_write a o s).1 ≡ done x)
        × ((apply_shard_request r b o t).1 ≡ done x)
        × (h.base.entries (replicate_write a o s).0 ≡ k.entries (apply_shard_request r b o t).0)
  layers_agree o s t p v u same =
      let d = direct-Performs h o s p v in
      let m = machine-Performs r k o t p u in
      (
        answer o (k.entries t),
        d.answered ∙ ap (λ (e : Entries). done (answer o e)) same,
        m.answered,
        d.entries ∙ ap (replay o) same ∙ sym m.entries,
      )
