-- ===== src/Odgm/Replication/Mst/Peer.antt =====
-- A replica that hears of the pages of a peer, fetches those that differ, and merges their values:
-- `handle_page_update` of data-plane/oprc-odgm/src/replication/mst/mst_network.rs, with the peer's
-- `handle` as the remote call.
use Prim.Native.String.{String}
use oaa_s_io_t.Prelude.{
  ℕ, ◌≡◌, refl, ap, ◌∙◌, ◌==◌, ◌⊎◌, inl, inr, List, [], ◌∷◌, true, false, Option, none,
  if◌then◌else◌,
}
use oaa_s_io_t.Std.Bytes.{Bytes, bytes_ord}
use oaa_s_io_t.Std.BTreeMap
use oaa_s_io_t.Std.BTreeMap.Sorted.{IsSorted}
use oaa_s_io_t.Storage.Contract.{IsReliable}
use oaa_s_io_t.Odgm.Fallible.{Fallible, done, failed, unwound}
use oaa_s_io_t.Odgm.Replication.Mst.{
  Setting, MstReplicationLayer, GenericPageQuery, GenericNetworkPage, get_raw,
}
use oaa_s_io_t.Odgm.Replication.Mst.Reads.{Encodes, IsReplica, get_raw_lem}
use oaa_s_io_t.Odgm.Replication.Mst.Merging.{joined_if, merge_items_lem}
use oaa_s_io_t.Odgm.Replication.Mst.Pages.{in_pages, handle_lem}
use oaa_s_io_t.Odgm.Replication.Mst.Sync.{
  Items, RemoteCall, handle, fetch_and_merge, pages_to_load, handle_page_update,
}

-- The same replica with another number.
abbrev pub numbered : Setting → ℕ → Setting
numbered c j = record c { shard_id = j }

-- A peer's handler as the remote call: the same answer at every attempt.
abbrev pub answered : {E T : Type 0} → Fallible E T → String ⊎ T
answered (done items) = inr items
answered (failed e) = inl "refused"
answered unwound = inl "lost"

abbrev pub peer : (c : Setting) (j : ℕ) → MstReplicationLayer (numbered c j) → RemoteCall c
peer c j t n queries = answered (handle (numbered c j) queries t.storage)

-- What a replica reads under a key after it loaded pages from a peer.
abbrev pub after_pages :
    (c : Setting)
    → List GenericPageQuery
    → (Bytes → Option c.T)
    → (Bytes → Option c.T)
    → Bytes
    → Option c.T
after_pages c queries f g k = joined_if c (f k) (if in_pages c queries k then g k else none)

module _ (c : Setting) (h : IsReliable c.storage) (codec : Encodes c) where
  fetch_lem :
      (call : RemoteCall c) (queries : List GenericPageQuery) (s : MstReplicationLayer c)
      (f g : Bytes → Option c.T)
      → IsReplica h s f
      → s.v2_dispatcher ≡ none
      → ((queries : List GenericPageQuery)
          → (items : Items c) × (call 1 queries ≡ inr items)
            × IsSorted items
            × ((k : Bytes) → BTreeMap.get items k ≡ (if in_pages c queries k then g k else none)))
      → (s' : MstReplicationLayer c) × (fetch_and_merge c call queries s ≡ (s', done tt))
        × IsReplica h s' (after_pages c queries f g)
        × (s'.v2_dispatcher ≡ none)
  fetch_lem call [] s f g r quiet answers = (s, refl, r, quiet)
  fetch_lem call (q ∷ queries) s f g r quiet answers =
      let (items, e, sorted, gets) = answers (q ∷ queries) in
      let (s', e', r', quiet') = merge_items_lem h codec items s f r quiet sorted in
      (
        s',
        rw e e',
        record {
          valid = r'.valid;
          reads = λ k. r'.reads k ∙ ap (λ x. inr (joined_if c (f k) x)) (gets k);
        },
        quiet',
      )

  -- The whole update, which leaves the replica without a dispatcher.
  page_update_lem :
      (j : ℕ) (pages : List GenericNetworkPage) (s : MstReplicationLayer c)
      (t : MstReplicationLayer (numbered c j)) (f g : Bytes → Option c.T)
      → IsReplica {c = c} h s f
      → IsReplica {c = numbered c j} h t g
      → s.v2_dispatcher ≡ none
      → (j == c.shard_id) ≡ false
      → (s' : MstReplicationLayer c) × (handle_page_update c (peer c j t) j pages s ≡ (s', done tt))
        × IsReplica h s' (after_pages c (pages_to_load c s.mst pages) f g)
        × (s'.v2_dispatcher ≡ none)
  unfolding handle_page_update
  page_update_lem j pages s t f g r r' quiet other =
      let (s', e, r'', quiet') =
        fetch_lem (peer c j t) (pages_to_load c s.mst pages) s f g r quiet λ queries.
          let (items, e, sorted, gets) = handle_lem (numbered c j) h queries t g r' in
          (items, rw e refl, sorted, gets) in
      (s', rw other e, r'', quiet')

  -- Where every value has an encoding and the storages do not fail: a replica without a dispatcher that
  -- hears of the pages of a peer with another number, and gets its request answered, returns. Under
  -- each key of the pages that it loads it then reads the peer's value merged with its own, or the
  -- one that there is, and under other keys what it read before.
  pub handle_page_update_lem :
      (j : ℕ) (pages : List GenericNetworkPage) (s : MstReplicationLayer c)
      (t : MstReplicationLayer (numbered c j)) (f g : Bytes → Option c.T)
      → IsReplica {c = c} h s f
      → IsReplica {c = numbered c j} h t g
      → s.v2_dispatcher ≡ none
      → (j == c.shard_id) ≡ false
      → (s' : MstReplicationLayer c) × (handle_page_update c (peer c j t) j pages s ≡ (s', done tt))
        × IsReplica h s' (after_pages c (pages_to_load c s.mst pages) f g)
  handle_page_update_lem j pages s t f g r r' quiet other =
      let (s', e, r'', quiet') = page_update_lem j pages s t f g r r' quiet other in (s', e, r'')

  -- The state that the update leaves, as a replica.
  pub replica_after :
      (j : ℕ) (pages : List GenericNetworkPage) (s : MstReplicationLayer c)
      (t : MstReplicationLayer (numbered c j)) (f g : Bytes → Option c.T)
      → IsReplica {c = c} h s f
      → IsReplica {c = numbered c j} h t g
      → s.v2_dispatcher ≡ none
      → (j == c.shard_id) ≡ false
      → IsReplica h
          (handle_page_update c (peer c j t) j pages s).0
          (after_pages c (pages_to_load c s.mst pages) f g)
        × ((handle_page_update c (peer c j t) j pages s).0.v2_dispatcher ≡ none)
  replica_after j pages s t f g r r' quiet other =
      let (s', e, r'', quiet') = page_update_lem j pages s t f g r r' quiet other in
      rw e (r'', quiet')

  pub read_after :
      (j : ℕ) (pages : List GenericNetworkPage) (s : MstReplicationLayer c)
      (t : MstReplicationLayer (numbered c j)) (f g : Bytes → Option c.T) (key : Bytes)
      → IsReplica {c = c} h s f
      → IsReplica {c = numbered c j} h t g
      → s.v2_dispatcher ≡ none
      → (j == c.shard_id) ≡ false
      → in_pages c (pages_to_load c s.mst pages) key ≡ true
      → (get_raw c key (handle_page_update c (peer c j t) j pages s).0).1
        ≡ done (joined_if c (f key) (g key))
  read_after j pages s t f g key r r' quiet other inside =
      let (s', e, r'') = handle_page_update_lem j pages s t f g r r' quiet other in
      ap (λ x. (get_raw c key x.0).1) e
      ∙ ap (λ x. x.1) (get_raw_lem {c = c} h key s' _ r'')
      ∙ rw inside refl
