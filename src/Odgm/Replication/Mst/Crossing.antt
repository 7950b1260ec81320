-- ===== src/Odgm/Replication/Mst/Crossing.antt =====
-- Two replicas that exchange their values again and again, each time crossing, under the merge function
-- that data-plane/oprc-odgm/src/shard/builder.rs configures: the remote value is taken.
use oaa_s_io_t.Prelude.{
  ℕ, ◌≡◌, ap, ◌∙◌, ◌==◌, List, [], ◌∷◌, true, false, Option, none, some, arith,
}
use oaa_s_io_t.Std.Bytes.{Bytes, bytes_ord}
use oaa_s_io_t.Storage.Contract.{IsReliable}
use oaa_s_io_t.Odgm.Fallible.{done}
use oaa_s_io_t.Odgm.Replication.Mst.{
  Setting, MstReplicationLayer, GenericNetworkPage, take_remote, get_raw,
}
use oaa_s_io_t.Odgm.Replication.Mst.Reads.{Encodes, IsReplica, get_raw_lem}
use oaa_s_io_t.Odgm.Replication.Mst.Pages.{in_pages}
use oaa_s_io_t.Odgm.Replication.Mst.Peer.{numbered, replica_after}
use oaa_s_io_t.Odgm.Replication.Mst.Sync.{pages_to_load}
use oaa_s_io_t.Odgm.Replication.Mst.Exchange.{first_after, second_after}

-- The pages that each of the two hears of in a round.
abbrev pub Round : Type 0
Round = List GenericNetworkPage × List GenericNetworkPage

-- Which of two values is in the first place after the rounds, if each swaps them.
abbrev pub alternate : {T : Type 0} → List Round → T → T → T
alternate [] a b = a
alternate (r ∷ rounds) a b = alternate rounds b a

module _ (c : Setting) (j : ℕ) where
  -- In a round, each replica answers from the state that it had before the round.
  abbrev pub cross :
      List Round
      → MstReplicationLayer c
      → MstReplicationLayer (numbered c j)
      → MstReplicationLayer c × MstReplicationLayer (numbered c j)
  cross [] s t = (s, t)
  cross ((p, q) ∷ rounds) s t = cross rounds (first_after c j p s t) (second_after c j q s t)

  -- In every round, both load a page with the key.
  abbrev pub Loads :
      Bytes → List Round → MstReplicationLayer c → MstReplicationLayer (numbered c j) → Type 0
  Loads key [] s t = Unit {0}
  Loads key ((p, q) ∷ rounds) s t =
      (in_pages c (pages_to_load c s.mst p) key ≡ true)
      × (in_pages c (pages_to_load c t.mst q) key ≡ true)
      × Loads key rounds (first_after c j p s t) (second_after c j q s t)

module _ (c : Setting) (j : ℕ) (h : IsReliable c.storage) (codec : Encodes c) (key : Bytes)
    (apart : (j == c.shard_id) ≡ false)
    (takes : (a b : c.T) (n : ℕ) → c.config.merge_function a b n ≡ take_remote a b n) where
  -- Two replicas over storages that do not fail, without a dispatcher and with different numbers, hear of
  -- each other's pages in rounds; in each round both load the pages with a key, each from the other
  -- as it was before the round. With a merge that takes the remote value, as shards are built with,
  -- the values that both have under the key change places in every round: after an even number of
  -- rounds each replica reads its own first value again, after an odd number the other's.
  pub take_remote_swaps :
      (rounds : List Round) (s : MstReplicationLayer c) (t : MstReplicationLayer (numbered c j))
      (f g : Bytes → Option c.T) (a b : c.T)
      → IsReplica {c = c} h s f
      → IsReplica {c = numbered c j} h t g
      → s.v2_dispatcher ≡ none
      → t.v2_dispatcher ≡ none
      → f key ≡ some a
      → g key ≡ some b
      → Loads c j key rounds s t
      → ((get_raw c key (cross c j rounds s t).0).1 ≡ done (some (alternate rounds a b)))
        × ((get_raw (numbered c j) key (cross c j rounds s t).1).1
            ≡ done (some (alternate rounds b a)))
  take_remote_swaps [] s t f g a b r r' quiet quiet' p q loads = (
    ap (λ x. x.1) (get_raw_lem {c = c} h key s f r) ∙ ap done p,
    ap (λ x. x.1) (get_raw_lem {c = numbered c j} h key t g r') ∙ ap done q,
  )
  take_remote_swaps ((pages, pages') ∷ rounds) s t f g a b r r' quiet quiet' p q
        (in_s, in_t, loads) =
      let (r1, quiet1) = replica_after c h codec j pages s t f g r r' quiet apart in
      let (r2, quiet2) =
        replica_after (numbered c j) h codec c.shard_id pages' t s g f r' r quiet'
          (ground (arith, apart)) in
      take_remote_swaps rounds (first_after c j pages s t) (second_after c j pages' s t) _ _ b a r1
        r2 quiet1 quiet2 (rw (in_s, p, q) (ap some (takes a b c.shard_id)))
        (rw (in_t, p, q) (ap some (takes b a j))) loads
