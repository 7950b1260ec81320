-- ===== src/Odgm/EntryStore/Ends.antt =====
-- How the parts of an operation end, over a storage that does not fail and a replication layer that
-- does what the specification says.
use oaa_s_io_t.Prelude.{
  ℕ, ◌≡◌, refl, ap, ◌∙◌, List, false, Option, none, some, if◌then◌else◌, Bool-cases, inl, inr,
}
use oaa_s_io_t.Std.Bytes.{Bytes, bytes_ord}
use oaa_s_io_t.Std.BTreeMap
use oaa_s_io_t.Storage.Outcome.{ok}
use oaa_s_io_t.Storage.Contract.{Entries}
use oaa_s_io_t.Storage.Contract.Application.{IsReliableApplication}
use oaa_s_io_t.Storage.Memory.{is_some}
use oaa_s_io_t.Odgm.Fallible.{Fallible, done}
use oaa_s_io_t.Odgm.GranularKey.{build_metadata_key}
use oaa_s_io_t.Odgm.ObjectMetadata
use oaa_s_io_t.Odgm.ObjectMetadata.{ObjectMetadata}
use oaa_s_io_t.Odgm.StorageKey.{string_object_event_config_key}
use oaa_s_io_t.Odgm.Replication.{Operation}
use oaa_s_io_t.Odgm.Replication.Spec.{IsPlain, replay}
use oaa_s_io_t.Odgm.Replication.Performs.{Performs}
use oaa_s_io_t.Odgm.Events.{ChangedKey, ObjectEvent}
use oaa_s_io_t.Odgm.EntryStore.Types.{Setting, Shard, ShardError}
use oaa_s_io_t.Odgm.EntryStore.Operations.{
  app_get, app_exists, replicate, decode_metadata, get_metadata, set_metadata, bump_version, notify,
  existed, unwrap_or_default, event_config, event_of, send,
}

pub record IsReliableShard (c : Setting) : Type 1 where
  pub app : IsReliableApplication c.app_storage
  pub performs :
      (o : Operation) (s : c.app_storage.backend.State)
      → IsPlain o
      → app.base.Valid s
      → Performs app.base o (app.base.entries s) (c.replication.replicate_write o s)

module _ {c : Setting} (h : IsReliableShard c) where
  abbrev pub held : Shard c → Entries
  held s = h.app.base.entries s.storage

  abbrev pub IsValid : Shard c → Type 0
  IsValid s = h.app.base.Valid s.storage

  -- The outcome of a method that succeeds: the result, and the entries that are then stored.
  pub record Ends {A : Type 0} (x : A) (m : Entries) (outcome : Shard c × Fallible ShardError A)
      : Type 0 where
    pub valid : IsValid outcome.0
    pub stored : held outcome.0 ≡ m
    pub result : outcome.1 ≡ done x

  pub Ends-here :
      {A : Type 0} (x : A) (s : Shard c) {m : Entries}
      → IsValid s
      → held s ≡ m
      → Ends x m (s, done x)
  Ends-here x s v e = record { valid = v; stored = e; result = refl }

  pub app_get-Ends :
      (key : Bytes) (s : Shard c) {m : Entries}
      → IsValid s
      → held s ≡ m
      → Ends (BTreeMap.get m key) m (app_get c key s)
  app_get-Ends key s v e = record {
    valid = v;
    stored = e;
    result =
        rw (h.app.base.get_lem s.storage key v) (ap (λ (t : Entries). done (BTreeMap.get t key)) e);
  }

  pub app_exists-Ends :
      (key : Bytes) (s : Shard c) {m : Entries}
      → IsValid s
      → held s ≡ m
      → Ends (BTreeMap.contains_key m key) m (app_exists c key s)
  app_exists-Ends key s v e = record {
    valid = v;
    stored = e;
    result =
        rw (h.app.exists_lem s.storage key v)
          (ap (λ (t : Entries). done (BTreeMap.contains_key t key)) e);
  }

  pub replicate-Ends :
      (o : Operation) (s : Shard c) {m : Entries}
      → IsPlain o
      → IsValid s
      → held s ≡ m
      → Ends tt (replay o m) (replicate c o s)
  replicate-Ends o s p v e =
      let d = h.performs o s.storage p v in
      record { valid = d.valid; stored = d.entries ∙ ap (replay o) e; result = rw d.answered refl }

  pub get_metadata-Ends :
      (id : Bytes) (s : Shard c) {m : Entries} {found : Option ObjectMetadata}
      → decode_metadata c (BTreeMap.get m (build_metadata_key id)) ≡ done found
      → IsValid s
      → held s ≡ m
      → Ends found m (get_metadata c id s)
  unfolding get_metadata
  get_metadata-Ends id s d v e =
      rw (app_get-Ends (build_metadata_key id) s v e).result
        record { valid = v; stored = e; result = d }

  pub set_metadata-Ends :
      (id : Bytes) (meta : ObjectMetadata) (s : Shard c) {m : Entries}
      → IsValid s
      → held s ≡ m
      → Ends tt
          (BTreeMap.insert m (build_metadata_key id) (ObjectMetadata.to_bytes meta))
          (set_metadata c id meta s)
  unfolding set_metadata replay
  set_metadata-Ends id meta s v e = replicate-Ends _ s refl v e

  -- The entries after an increment of the object's version.
  abbrev pub bumped : Bytes → Option ObjectMetadata → Entries → Entries
  bumped id found m =
      BTreeMap.insert m (build_metadata_key id)
        (ObjectMetadata.to_bytes (ObjectMetadata.increment_version (unwrap_or_default found)))

  pub bump_version-Ends :
      (id : Bytes) (s : Shard c) {m : Entries} {found : Option ObjectMetadata}
      → decode_metadata c (BTreeMap.get m (build_metadata_key id)) ≡ done found
      → IsValid s
      → held s ≡ m
      → Ends
          (
            (unwrap_or_default found).object_version,
            (ObjectMetadata.increment_version (unwrap_or_default found)).object_version,
          )
          (bumped id found m)
          (bump_version c id s)
  unfolding bump_version
  bump_version-Ends id s {m} {found} d v e =
      let a = get_metadata-Ends id s d v e in
      let meta = ObjectMetadata.increment_version (unwrap_or_default found) in
      let b = set_metadata-Ends id meta (get_metadata c id s).0 a.valid a.stored in
      rw (a.result, b.result) (Ends-here _ _ b.valid b.stored)

  pub event_config_reads :
      (id : Bytes) (s : Shard c)
      → IsValid s
      → (event : Option (ObjectEvent c.formats.Target)) × ((event_config c id s).1 ≡ done event)
  event_config_reads id s v =
      let key = string_object_event_config_key id in
      rw (h.app.base.get_lem s.storage key v) (read (BTreeMap.get (held s) key))
    where
      read :
          (found : Option Bytes)
          → (event : Option (ObjectEvent c.formats.Target)) × (event_of c (ok found) ≡ done event)
      read none = (none, refl)
      read (some value) = (c.formats.decode_event value, refl)

  pub notify-Ends :
      (id : Bytes) (before after : ℕ) (changed : List ChangedKey) (s : Shard c) {m : Entries}
      → IsValid s
      → held s ≡ m
      → Ends tt m (notify c id before after changed s)
  unfolding notify
  notify-Ends id before after changed s v e = elim (Bool-cases (is_some s.v2_dispatcher)) [
    | inl on ↦
        let (event, reads) = event_config_reads id s v in
        rw on (rw reads (Ends-here tt (send c id before after changed event s).0 v e))
    | inr off ↦ rw off (Ends-here tt s v e)
  ]

  pub existed-Ends :
      (key : Bytes) (s : Shard c) {m : Entries}
      → IsValid s
      → held s ≡ m
      → Ends
          (if is_some s.v2_dispatcher then BTreeMap.contains_key m key else false)
          m
          (existed c key s)
  existed-Ends key s v e = elim (Bool-cases (is_some s.v2_dispatcher)) [
    | inl on ↦ rw on (app_exists-Ends key s v e)
    | inr off ↦ rw off (Ends-here false s v e)
  ]
