-- ===== src/Odgm/Replication/Mst/Sync.antt =====
-- The exchange between replicas: data-plane/oprc-odgm/src/replication/mst/mst_network.rs. A replica
-- answers a request for pages with the values it stores in them (`handle`), and merges what it
-- gets from another one (`handle_page_update`).
use Prim.Native.String.{String}
use oaa_s_io_t.Prelude.{
  ℕ, ◌⊎◌, inl, inr, List, [], ◌∷◌, Bool, ◌&&◌, ◌==◌, Option, none, some, if◌then◌else◌,
}
use oaa_s_io_t.Std.Bytes.{Bytes, bytes_ord}
use oaa_s_io_t.Std.Order.{key_le}
use oaa_s_io_t.Std.BTreeMap
use oaa_s_io_t.Std.BTreeMap.{BTreeMap}
use oaa_s_io_t.Storage.Outcome.{Outcome, ok, err, panicked, StorageError}
use oaa_s_io_t.Storage.Contract.{Entries}
use oaa_s_io_t.Odgm.Fallible.{Fallible, done, failed, unwound, Exec, pure, ◌>>=◌, ◌>>◌}
use oaa_s_io_t.Odgm.StorageKey.{Parsed, found, invalid, panics}
use oaa_s_io_t.Odgm.GranularKey.{GranularRecord, entry, parse_granular_key}
use oaa_s_io_t.Odgm.Events.{MutationContext, sync, update, EventDispatcher, try_send}
use oaa_s_io_t.Odgm.Replication.Mst.{
  Setting, MstReplicationLayer, GenericPageQuery, GenericNetworkPage, of_result, resolve,
}

pub data MstError : Type 0 where
  mst_error : String → MstError

module _ (c : Setting) where
  abbrev pub Items : Type 0
  Items = BTreeMap Bytes c.T

  abbrev pub in_page : GenericPageQuery → Bytes → Bool
  in_page page key = key_le page.start_bounds key && key_le key page.end_bounds

  -- A value that does not decode is passed over.
  abbrev pub with_item : Items → Bytes → StorageError ⊎ c.T → Items
  with_item items key (inl e) = items
  with_item items key (inr value) = BTreeMap.insert items key value

  unfoldable pub page_items : GenericPageQuery → Entries → Items → Items
  page_items page [] items = items
  page_items page ((key, value) ∷ entries) items =
      page_items page entries
        (if in_page page key then with_item items key (c.config.deserialize value) else items)

  -- The loop over the pages, each with a scan of its own; where a scan fails, nothing is returned.
  unfoldable pub page_loop :
      List GenericPageQuery → Items → c.storage.State → Fallible (Unit {0}) Items
  unfolding page_items
  page_loop [] items s = done items
  page_loop (page ∷ pages) items s =
      let next = λ (entries : Entries). page_loop pages (page_items page entries items) s in
      elim (c.storage.scan s []) [
        | ok entries ↦ next entries
        | err e ↦ done []
        | panicked ↦ unwound
      ]

  unfoldable pub handle : List GenericPageQuery → c.storage.State → Fallible (Unit {0}) Items
  unfolding page_loop
  handle pages s = page_loop pages [] s

  abbrev pub SyncExec : Type 0 → Type 0
  SyncExec A = Exec (MstReplicationLayer c) MstError A

  abbrev pub with_text : {A : Type 0} → Fallible StorageError A → Fallible MstError A
  with_text (done a) = done a
  with_text (failed e) = failed (mst_error (c.error_text e))
  with_text unwound = unwound

  abbrev pub of_outcome : {A : Type 0} → Outcome A → Fallible MstError A
  of_outcome (ok a) = done a
  of_outcome (err e) = failed (mst_error (c.error_text e))
  of_outcome panicked = unwound

  -- `storage.get(key).await.ok().flatten()`
  abbrev pub ok_or_none : Outcome (Option Bytes) → Fallible MstError (Option Bytes)
  ok_or_none (ok bytes) = done bytes
  ok_or_none (err e) = done none
  ok_or_none panicked = unwound

  abbrev pub new_sync : Bytes → Bytes → Option Bytes → MutationContext c.Target
  new_sync id key value = record {
    object_id = id;
    cls_id = c.cls_id;
    partition_id = c.partition_id;
    version_before = 0;
    version_after = 0;
    changed = record { key_canonical = key; action = update; value = value } ∷ [];
    source = sync;
    event_config = none;
  }

  abbrev pub emit :
      Parsed (Bytes × GranularRecord)
      → Option Bytes
      → EventDispatcher c.Target
      → SyncExec (Unit {0})
  emit (found (id, entry key)) value d s =
      (record s { v2_dispatcher = some (try_send (new_sync id key value) d).0 }, done tt)
  emit (found (id, other)) value d s = (s, done tt)
  emit invalid value d s = (s, done tt)
  emit panics value d s = (s, unwound)

  unfoldable pub announce : Bytes → Option Bytes → SyncExec (Unit {0})
  announce key value s = elim s.v2_dispatcher [
    | none ↦ (s, done tt)
    | some d ↦ emit (parse_granular_key key) value d s
  ]

  -- The loop's body: merge one value into the storage and the tree, and announce it.
  unfoldable pub merge_item : Bytes → c.T → SyncExec (Unit {0})
  unfolding announce
  merge_item key remote_value = do
    existing_bytes ← (λ s. (s, ok_or_none (c.storage.get s.storage key)))
    final_value ← (λ s. (s, with_text (of_result (resolve c existing_bytes remote_value))))
    bytes ← (λ s. (s, with_text (of_result (c.config.serialize final_value))))
    _ ← (λ s. (
      record s { storage = (c.storage.put s.storage key bytes).0 },
      of_outcome (c.storage.put s.storage key bytes).1,
    ))
    (λ s. (record s { mst = c.tree.upsert s.mst key final_value }, done tt))
    λ s. announce key (if c.include_entry_values then c.decode_payload bytes else none) s

  unfoldable pub merge_items : Items → SyncExec (Unit {0})
  unfolding merge_item
  merge_items [] = pure tt
  merge_items ((key, value) ∷ items) = do merge_item key value; merge_items items

  abbrev pub from_pages : List GenericNetworkPage → List GenericPageQuery
  from_pages [] = []
  from_pages (p ∷ pages) =
      record { start_bounds = p.start_bounds; end_bounds = p.end_bounds } ∷ from_pages pages

  -- The pages to ask for: the differences; all, where the local tree is empty and there are none.
  abbrev pub fallback :
      List GenericPageQuery
      → List GenericNetworkPage
      → List GenericNetworkPage
      → List GenericPageQuery
  fallback [] [] pages = from_pages pages
  fallback ranges local pages = ranges

  abbrev pub pages_to_load : c.tree.Tree → List GenericNetworkPage → List GenericPageQuery
  pages_to_load mst pages =
      let local = c.tree.serialise_page_ranges mst in fallback (c.tree.diff local pages) local pages

  -- The remote call, given by its answer to each attempt; a third failure is returned.
  abbrev pub RemoteCall : Type 0
  RemoteCall = ℕ → List GenericPageQuery → String ⊎ Items

  abbrev pub or_else : String ⊎ Items → Fallible MstError Items → Fallible MstError Items
  or_else (inl e) next = next
  or_else (inr items) next = done items

  abbrev pub last_attempt : String ⊎ Items → Fallible MstError Items
  last_attempt (inl e) = failed (mst_error e)
  last_attempt (inr items) = done items

  abbrev pub call_with_retry : RemoteCall → List GenericPageQuery → Fallible MstError Items
  call_with_retry call request =
      or_else (call 1 request) (or_else (call 2 request) (last_attempt (call 3 request)))

  abbrev pub fetch_and_merge : RemoteCall → List GenericPageQuery → SyncExec (Unit {0})
  fetch_and_merge call [] = pure tt
  fetch_and_merge call (q ∷ queries) = do
    items ← (λ s. (s, call_with_retry call (q ∷ queries)))
    merge_items items

  -- A replica passes over its own updates.
  unfoldable pub handle_page_update : RemoteCall → ℕ → List GenericNetworkPage → SyncExec (Unit {0})
  unfolding merge_items
  handle_page_update call owner pages s =
      if owner == c.shard_id
      then (s, done tt)
      else fetch_and_merge call (pages_to_load s.mst pages) s
