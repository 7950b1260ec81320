-- ===== src/Odgm/Replication/Performs.antt =====
-- The direct layer and the Raft state machine on a storage that does not fail: both do what the
-- specification says.
use oaa_s_io_t.Prelude.{◌≡◌, refl, ap, ◌∙◌, sym, subst, false, arith}
use oaa_s_io_t.Storage.Contract.{StorageBackend, IsReliable, Entries}
use oaa_s_io_t.Storage.Contract.Application.{ApplicationDataStorage, IsReliableApplication}
use oaa_s_io_t.Odgm.Fallible.{Fallible, done}
use oaa_s_io_t.Odgm.Replication.{
  Operation, WriteOperation, write, read, delete, batch, Operations, nil, cons, ReplicationResponse,
}
use oaa_s_io_t.Odgm.Replication.Spec.{IsPlain, IsSingle, AreSingle, replay, replay_all, answer}
use oaa_s_io_t.Odgm.Replication.Direct.{write_operation, replicate_write, replicate_all}
use oaa_s_io_t.Odgm.Replication.StateMachine.{RaftTypes, finished, batch_loop, apply_shard_request}

-- The outcome of a request: the storage stays valid, its entries and the answer are the specified
-- ones.
pub record Performs {b : StorageBackend} (h : IsReliable b) {E : Type 0} (operation : Operation)
    (m : Entries) (outcome : b.State × Fallible E ReplicationResponse) : Type 0 where
  pub valid : h.Valid outcome.0
  pub entries : h.entries outcome.0 ≡ replay operation m
  pub answered : outcome.1 ≡ done (answer operation m)

-- An outcome that is known as a pair.
Performs-of :
    {b : StorageBackend} (h : IsReliable b) {E : Type 0} (o : Operation) (m : Entries)
    (outcome : b.State × Fallible E ReplicationResponse) (s : b.State)
    → outcome ≡ (s, done (answer o m))
    → h.Valid s
    → h.entries s ≡ replay o m
    → Performs h o m outcome
Performs-of h o m outcome s e v same =
    subst (Performs h o m) (sym e) (record { valid = v; entries = same; answered = refl })

module _ {a : ApplicationDataStorage} (h : IsReliableApplication a) where
  direct_write :
      (w : WriteOperation) (s : a.backend.State)
      → w.return_old ≡ false
      → h.base.Valid s
      → write_operation a w s
        ≡ ((a.backend.put s w.key w.value).0, done (answer (write w) (h.base.entries s)))
  unfolding write_operation answer
  direct_write w s p v = ground (arith, h.base.put_ok s w.key w.value v)

  direct_single :
      (o : Operation) (s : a.backend.State)
      → IsSingle o
      → h.base.Valid s
      → Performs h.base o (h.base.entries s) (replicate_write a o s)
  unfolding replicate_write replay answer
  direct_single (write w) s p v =
      Performs-of h.base (write w) _ _ _ (direct_write w s p v) (h.base.put-Valid s w.key w.value v)
        (h.base.put_entries s w.key w.value v)
  direct_single (read key) s p v =
      Performs-of h.base (read key) _ _ s (rw (h.base.get_lem s key v) refl) v refl
  direct_single (delete key) s p v =
      Performs-of h.base (delete key) _ _ _ (rw (h.base.delete_ok s key v) refl)
        (h.base.delete-Valid s key v) (h.base.delete_entries s key v)
  direct_single (batch operations) s p v = elim p [ ]

  direct_all :
      (os : Operations) (s : a.backend.State)
      → AreSingle os
      → h.base.Valid s
      → (t : a.backend.State) × (replicate_all a os s ≡ (t, done tt))
        × h.base.Valid t
        × (h.base.entries t ≡ replay_all os (h.base.entries s))
  unfolding replicate_write replay
  direct_all nil s p v = (s, refl, v, refl)
  direct_all (cons o os) s p v =
      let d = direct_single o s p.0 v in
      let (t, e, v', same) = direct_all os (replicate_write a o s).0 p.1 d.valid in
      (t, rw d.answered e, v', same ∙ ap (replay_all os) d.entries)

  pub direct-Performs :
      (o : Operation) (s : a.backend.State)
      → IsPlain o
      → h.base.Valid s
      → Performs h.base o (h.base.entries s) (replicate_write a o s)
  unfolding replicate_write replay answer
  direct-Performs (batch os) s p v =
      let (t, e, v', same) = direct_all os s p v in
      Performs-of h.base (batch os) _ _ t (rw e refl) v' same
  direct-Performs (write w) s p v = direct_single (write w) s p v
  direct-Performs (read key) s p v = direct_single (read key) s p v
  direct-Performs (delete key) s p v = direct_single (delete key) s p v

module _ (r : RaftTypes) {b : StorageBackend} (h : IsReliable b) where
  machine_all :
      (os : Operations) (s : b.State)
      → AreSingle os
      → h.Valid s
      → (t : b.State) × (batch_loop r b os s ≡ (t, finished))
        × h.Valid t
        × (h.entries t ≡ replay_all os (h.entries s))
  unfolding batch_loop replay
  machine_all nil s p v = (s, refl, v, refl)
  machine_all (cons (write w) os) s p v =
      let (t, e, v', same) = machine_all os _ p.1 (h.put-Valid s w.key w.value v) in
      (
        t,
        rw (h.put_ok s w.key w.value v) e,
        v',
        same ∙ ap (replay_all os) (h.put_entries s w.key w.value v),
      )
  machine_all (cons (read key) os) s p v =
      let (t, e, v', same) = machine_all os s p.1 v in (t, rw (h.get_lem s key v) e, v', same)
  machine_all (cons (delete key) os) s p v =
      let (t, e, v', same) = machine_all os _ p.1 (h.delete-Valid s key v) in
      (t, rw (h.delete_ok s key v) e, v', same ∙ ap (replay_all os) (h.delete_entries s key v))
  machine_all (cons (batch inner) os) s p v = elim p.0 [ ]

  pub machine-Performs :
      (o : Operation) (s : b.State)
      → IsPlain o
      → h.Valid s
      → Performs h o (h.entries s) (apply_shard_request r b o s)
  unfolding apply_shard_request replay answer
  machine-Performs (batch os) s p v =
      let (t, e, v', same) = machine_all os s p v in
      Performs-of h (batch os) _ _ t (rw e refl) v' same
  machine-Performs (write w) s p v =
      Performs-of h (write w) _ _ _ (rw (h.put_ok s w.key w.value v) refl)
        (h.put-Valid s w.key w.value v) (h.put_entries s w.key w.value v)
  machine-Performs (read key) s p v =
      Performs-of h (read key) _ _ s (rw (h.get_lem s key v) refl) v refl
  machine-Performs (delete key) s p v =
      Performs-of h (delete key) _ _ _ (rw (h.delete_ok s key v) refl) (h.delete-Valid s key v)
        (h.delete_entries s key v)
