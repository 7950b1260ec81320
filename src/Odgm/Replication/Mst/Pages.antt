-- ===== src/Odgm/Replication/Mst/Pages.antt =====
-- Which values a replica hands out: `handle` of
-- data-plane/oprc-odgm/src/replication/mst/mst_network.rs.
use oaa_s_io_t.Prelude.{
  ◌≡◌, refl, ap, subst, ◌∙◌, ◌⊎◌, inl, inr, List, [], ◌∷◌, Bool, true, false, ◌&&◌, Option, none,
  some, if◌then◌else◌, arith, Bool-cases, any_of,
}
use oaa_s_io_t.Std.Bytes.{Bytes, bytes_ord}
use oaa_s_io_t.Std.Order.{key_eq, key_eq→eq, key_eq_sym}
use oaa_s_io_t.Std.BTreeMap
use oaa_s_io_t.Std.BTreeMap.Laws.{get-insert}
use oaa_s_io_t.Std.BTreeMap.Sorted.{IsSorted, insert-IsSorted, get-Above}
use oaa_s_io_t.Storage.Outcome.{StorageError}
use oaa_s_io_t.Storage.Contract.{IsReliable, Entries}
use oaa_s_io_t.Odgm.Fallible.{done}
use oaa_s_io_t.Odgm.Replication.Mst.{
  Setting, MstReplicationLayer, GenericPageQuery, map_result, decoded,
}
use oaa_s_io_t.Odgm.Replication.Mst.Reads.{IsReplica}
use oaa_s_io_t.Odgm.Replication.Mst.Sync.{Items, in_page, with_item, page_items, page_loop, handle}

abbrev pub in_pages : (c : Setting) → List GenericPageQuery → Bytes → Bool
in_pages c pages key = any_of (λ page. in_page c page key) pages

abbrev readable : {T : Type 0} → StorageError ⊎ Option T → Option T
readable (inl e) = none
readable (inr found) = found

abbrev over : {T : Type 0} → Option T → Option T → Option T
over none old = old
over (some v) old = some v

over_twice : {T : Type 0} (a x : Option T) → over a (over a x) ≡ over a x
over_twice none x = refl
over_twice (some v) x = refl

module _ (c : Setting) where
  get-with_item :
      (items : Items c) (key : Bytes) (x : StorageError ⊎ c.T) (k : Bytes)
      → BTreeMap.get (with_item c items key x) k ≡ (
          if key_eq key k
          then over (readable (map_result some x)) (BTreeMap.get items k)
          else BTreeMap.get items k)
  get-with_item items key (inl e) k = ground arith
  get-with_item items key (inr v) k = rw get-insert refl

  get-step :
      (inside : Bool) (items : Items c) (key : Bytes) (x : StorageError ⊎ c.T) (k : Bytes)
      → BTreeMap.get (if inside then with_item c items key x else items) k ≡ (
          if inside && key_eq key k
          then over (readable (map_result some x)) (BTreeMap.get items k)
          else BTreeMap.get items k)
  get-step true items key x k = get-with_item items key x k
  get-step false items key x k = refl

  with_item-IsSorted :
      (items : Items c) (key : Bytes) (x : StorageError ⊎ c.T)
      → IsSorted items
      → IsSorted (with_item c items key x)
  with_item-IsSorted items key (inl e) sorted = sorted
  with_item-IsSorted items key (inr v) sorted = insert-IsSorted items key v sorted

  page_items-IsSorted :
      (page : GenericPageQuery) (m : Entries) (items : Items c)
      → IsSorted items
      → IsSorted (page_items c page m items)
  unfolding page_items
  page_items-IsSorted page [] items sorted = sorted
  page_items-IsSorted page ((key, value) ∷ m) items sorted =
      elim (Bool-cases (in_page c page key)) [
        | inl inside ↦ rw inside (
            page_items-IsSorted page m _
              (with_item-IsSorted items key (c.config.deserialize value) sorted))
        | inr outside ↦ rw outside (page_items-IsSorted page m items sorted)
      ]

  -- A page's value of a key: the stored one, if the key is in the page.
  get-page_items :
      (page : GenericPageQuery) (m : Entries) (items : Items c) (k : Bytes)
      → IsSorted m
      → BTreeMap.get (page_items c page m items) k ≡ (
          if in_page c page k
          then over (readable (decoded c (BTreeMap.get m k))) (BTreeMap.get items k)
          else BTreeMap.get items k)
  unfolding page_items BTreeMap.get
  get-page_items page [] items k sorted = ground arith
  get-page_items page ((key, value) ∷ m) items k sorted =
      get-page_items page m _ k sorted.1 ∙ elim (Bool-cases (key_eq key k)) [
        | inl hit ↦
            let e = key_eq→eq key k hit in
            rw
              (
                key_eq_sym k key,
                get-step,
                hit,
                ap (in_page c page) e,
                subst (λ x. BTreeMap.get m x ≡ none) e (get-Above key m sorted.0),
              )
              (ground arith)
        | inr other ↦ rw (key_eq_sym k key, get-step, other) (ground arith)
      ]

  -- The loop over the pages succeeds; a key in one of them has its stored value.
  page_loop_lem :
      (h : IsReliable c.storage) (pages : List GenericPageQuery) (items : Items c)
      (s : MstReplicationLayer c) (f : Bytes → Option c.T)
      → IsReplica h s f
      → IsSorted items
      → (found : Items c) × (page_loop c pages items s.storage ≡ done found)
        × IsSorted found
        × ((k : Bytes)
            → BTreeMap.get found k ≡ (
                if in_pages c pages k
                then over (f k) (BTreeMap.get items k)
                else BTreeMap.get items k))
  unfolding page_loop
  page_loop_lem h [] items s f r sorted = (items, refl, sorted, λ k. refl)
  page_loop_lem h (page ∷ pages) items s f r sorted =
      let m = h.entries s.storage in
      let next = page_items c page m items in
      let (found, e, sorted', gets) =
        page_loop_lem h pages next s f r (page_items-IsSorted page m items sorted) in
      (
        found,
        rw (page_loop, h.scan_lem s.storage r.valid) e,
        sorted',
        λ k.
            gets k
            ∙ rw (get-page_items page m items k (h.sorted s.storage r.valid), r.reads k)
                (ground (arith, over_twice (f k) (BTreeMap.get items k))),
      )

  -- A request for pages is answered with the values of the keys in them.
  pub handle_lem :
      (h : IsReliable c.storage) (pages : List GenericPageQuery) (s : MstReplicationLayer c)
      (f : Bytes → Option c.T)
      → IsReplica h s f
      → (found : Items c) × (handle c pages s.storage ≡ done found)
        × IsSorted found
        × ((k : Bytes) → BTreeMap.get found k ≡ (if in_pages c pages k then f k else none))
  unfolding handle BTreeMap.get
  handle_lem h pages s f r =
      let (found, e, sorted, gets) = page_loop_lem h pages [] s f r tt in
      (found, e, sorted, λ k. gets k ∙ ground arith)
