-- ===== src/Odgm/Replication/Mst/Merging.antt =====
-- What a replica holds after it merged values of another one: the loop of `handle_page_update` in
-- data-plane/oprc-odgm/src/replication/mst/mst_network.rs.
use oaa_s_io_t.Prelude.{
  ◌≡◌, refl, ap, subst, ◌∙◌, inl, inr, [], ◌∷◌, Option, none, some, if◌then◌else◌, Bool-cases,
}
use oaa_s_io_t.Std.Bytes.{Bytes, bytes_ord}
use oaa_s_io_t.Std.Order.{key_eq, key_eq→eq, key_eq_sym}
use oaa_s_io_t.Std.BTreeMap
use oaa_s_io_t.Std.BTreeMap.Sorted.{IsSorted, Above, get-Above}
use oaa_s_io_t.Storage.Contract.{IsReliable}
use oaa_s_io_t.Odgm.Fallible.{done}
use oaa_s_io_t.Odgm.Replication.Mst.{Setting, MstReplicationLayer}
use oaa_s_io_t.Odgm.Replication.Mst.Reads.{
  Encodes, joined, updated, resolve_lem, IsReplica, put-IsReplica,
}
use oaa_s_io_t.Odgm.Replication.Mst.Sync.{Items, announce, merge_item, merge_items}

-- A read of the value that comes with a key, if one does.
abbrev pub joined_if : (c : Setting) → Option c.T → Option c.T → Option c.T
joined_if c old none = old
joined_if c old (some v) = some (joined c old v)

-- A value that came for a key is not met again among the later ones.
merged_first :
    (c : Setting) (key : Bytes) (v : c.T) (items : Items c) (f : Bytes → Option c.T) (k : Bytes)
    → Above key items
    → joined_if c (updated f key (some (joined c (f key) v)) k) (BTreeMap.get items k)
      ≡ joined_if c (f k) (if key_eq k key then some v else BTreeMap.get items k)
merged_first c key v items f k above = elim (Bool-cases (key_eq key k)) [
  | inl hit ↦
      let e = key_eq→eq key k hit in
      rw
        (
          key_eq_sym k key,
          hit,
          subst (λ x. BTreeMap.get items x ≡ none) e (get-Above key items above),
        )
        (ap (λ x. some (joined c (f x) v)) e)
  | inr other ↦ rw (key_eq_sym k key, other) refl
]

module _ {c : Setting} (h : IsReliable c.storage) where
  announce_quiet :
      (key : Bytes) (value : Option Bytes) (s : MstReplicationLayer c)
      → s.v2_dispatcher ≡ none
      → announce c key value s ≡ (s, done tt)
  unfolding announce
  announce_quiet key value s e = rw e refl

  -- The merge of one value into a replica without a dispatcher.
  merge_item_lem :
      (codec : Encodes c) (key : Bytes) (v : c.T) (s : MstReplicationLayer c)
      (f : Bytes → Option c.T)
      → IsReplica h s f
      → s.v2_dispatcher ≡ none
      → (t : MstReplicationLayer c) × (merge_item c key v s ≡ (t, done tt))
        × IsReplica h t (updated f key (some (joined c (f key) v)))
        × (t.v2_dispatcher ≡ none)
  unfolding merge_item
  merge_item_lem codec key v s f r quiet =
      let v' = joined c (f key) v in
      let (b, e, d) = codec v' in
      (
        record s { storage = (c.storage.put s.storage key b).0; mst = c.tree.upsert s.mst key v' },
        rw
            (
              h.get_lem s.storage key r.valid,
              resolve_lem c (BTreeMap.get (h.entries s.storage) key) (f key) v (r.reads key),
              e,
              h.put_ok s.storage key b r.valid,
              announce_quiet key _
                  (record s {
                    storage = (c.storage.put s.storage key b).0;
                    mst = c.tree.upsert s.mst key v';
                  })
                  quiet,
            )
            refl,
        put-IsReplica h key b v' s _ f d r refl,
        quiet,
      )

  -- Merging a sorted batch of values returns, and each key then reads as its value merged with what
  -- was there, or as before.
  pub merge_items_lem :
      (codec : Encodes c) (items : Items c) (s : MstReplicationLayer c) (f : Bytes → Option c.T)
      → IsReplica h s f
      → s.v2_dispatcher ≡ none
      → IsSorted items
      → (t : MstReplicationLayer c) × (merge_items c items s ≡ (t, done tt))
        × IsReplica h t (λ k. joined_if c (f k) (BTreeMap.get items k))
        × (t.v2_dispatcher ≡ none)
  unfolding merge_items BTreeMap.get
  merge_items_lem codec [] s f r quiet sorted = (s, refl, r, quiet)
  merge_items_lem codec ((key, v) ∷ items) s f r quiet sorted =
      let (t, e, r', quiet') = merge_item_lem codec key v s f r quiet in
      let (u, e', r'', quiet'') = merge_items_lem codec items t _ r' quiet' sorted.1 in
      (
        u,
        rw (e, e') refl,
        record {
          valid = r''.valid;
          reads = λ k. r''.reads k ∙ ap inr (merged_first c key v items f k sorted.0);
        },
        quiet'',
      )
