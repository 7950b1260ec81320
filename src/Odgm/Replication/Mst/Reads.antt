-- ===== src/Odgm/Replication/Mst/Reads.antt =====
-- A replica of data-plane/oprc-odgm/src/replication/mst as a map of values, and its reads and writes
-- on that map, over a storage of the contract and a round trip of the value's encoding.
use oaa_s_io_t.Prelude.{
  ◌≡◌, refl, ap, ◌⊎◌, inl, inr, Option, none, some, if◌then◌else◌, arith, Bool-cases,
}
use oaa_s_io_t.Std.Bytes.{Bytes, bytes_ord}
use oaa_s_io_t.Std.Order.{key_eq}
use oaa_s_io_t.Std.BTreeMap
use oaa_s_io_t.Std.BTreeMap.Laws.{get-insert, get-remove}
use oaa_s_io_t.Storage.Outcome.{StorageError}
use oaa_s_io_t.Storage.Contract.{IsReliable}
use oaa_s_io_t.Odgm.Fallible.{done}
use oaa_s_io_t.Odgm.Replication.Mst.{
  Setting, MstReplicationLayer, map_result, decoded, resolve, get_raw, set_raw, delete_raw,
}

-- Every value has an encoding, which decodes to it.
abbrev pub Encodes : Setting → Type 0
Encodes c =
    (v : c.T) → (b : Bytes) × (c.config.serialize v ≡ inr b) × (c.config.deserialize b ≡ inr v)

-- A value beside the one that is there, as the configuration merges them.
abbrev pub joined : (c : Setting) → Option c.T → c.T → c.T
joined c none v = v
joined c (some old) v = c.config.merge_function old v c.shard_id

abbrev pub updated : {T : Type 0} → (Bytes → Option T) → Bytes → Option T → Bytes → Option T
updated f key value k = if key_eq key k then value else f k

abbrev map_some : {A B : Type 0} → (A → B) → Option A → Option B
map_some f none = none
map_some f (some a) = some (f a)

resolve_some :
    (c : Setting) (x : StorageError ⊎ c.T) (old : Option c.T) (v : c.T)
    → map_result some x ≡ inr old
    → map_result (λ w. c.config.merge_function w v c.shard_id) x ≡ inr (joined c old v)
resolve_some c (inl e) old v p = ground arith
resolve_some c (inr w) none v p = ground arith
resolve_some c (inr w) (some u) v p = ground arith

pub resolve_lem :
    (c : Setting) (found : Option Bytes) (old : Option c.T) (v : c.T)
    → decoded c found ≡ inr old
    → resolve c found v ≡ inr (joined c old v)
resolve_lem c none none v e = refl
resolve_lem c none (some w) v e = ground arith
resolve_lem c (some bytes) old v e = resolve_some c (c.config.deserialize bytes) old v e

module _ {c : Setting} (h : IsReliable c.storage) where
  -- The replica is well formed and stands for the map `f`: every key reads as `f` says.
  pub record IsReplica (s : MstReplicationLayer c) (f : Bytes → Option c.T) : Type 0 where
    pub valid : h.Valid s.storage
    pub reads : (k : Bytes) → decoded c (BTreeMap.get (h.entries s.storage) k) ≡ inr (f k)

  pub get_raw_lem :
      (key : Bytes) (s : MstReplicationLayer c) (f : Bytes → Option c.T)
      → IsReplica s f
      → get_raw c key s ≡ (s, done (f key))
  unfolding get_raw
  get_raw_lem key s f r = rw (h.get_lem s.storage key r.valid, r.reads key) refl

  -- After a value is put under a key, the replica stands for the updated map.
  pub put-IsReplica :
      (key bytes : Bytes) (v : c.T) (s t : MstReplicationLayer c) (f : Bytes → Option c.T)
      → c.config.deserialize bytes ≡ inr v
      → IsReplica s f
      → t.storage ≡ (c.storage.put s.storage key bytes).0
      → IsReplica t (updated f key (some v))
  put-IsReplica key bytes v s t f e r same = record {
    valid = rw same (h.put-Valid s.storage key bytes r.valid);
    reads = λ k.
        rw (same, h.put_entries s.storage key bytes r.valid, get-insert)
          (elim (Bool-cases (key_eq key k)) [
            | inl hit ↦ rw (hit, e) refl
            | inr other ↦ rw other (r.reads k)
          ]);
  }

  -- Where every value has an encoding and the storage does not fail, `set_raw` returns, and the replica
  -- then reads as before but for the key, which reads as the new value, merged with the old one if
  -- there was one.
  pub set_raw_lem :
      (codec : Encodes c) (key : Bytes) (v : c.T) (s : MstReplicationLayer c)
      (f : Bytes → Option c.T)
      → IsReplica s f
      → (t : MstReplicationLayer c) × (set_raw c key v s ≡ (t, done tt))
        × IsReplica t (updated f key (some (joined c (f key) v)))
  unfolding set_raw
  set_raw_lem codec key v s f r =
      let v' = joined c (f key) v in
      let (b, e, d) = codec v' in
      (
        record s { storage = (c.storage.put s.storage key b).0; mst = c.tree.upsert s.mst key v' },
        rw
            (
              h.get_lem s.storage key r.valid,
              resolve_lem c (BTreeMap.get (h.entries s.storage) key) (f key) v (r.reads key),
              e,
              h.put_ok s.storage key b r.valid,
            )
            refl,
        put-IsReplica key b v' s _ f d r refl,
      )

  -- `delete_raw` removes the key from the replica.
  pub delete_raw_lem :
      (key : Bytes) (s : MstReplicationLayer c) (f : Bytes → Option c.T)
      → IsReplica s f
      → (t : MstReplicationLayer c) × (delete_raw c key s ≡ (t, done tt))
        × IsReplica t (updated f key none)
        × (t.mst ≡ s.mst)
  unfolding delete_raw
  delete_raw_lem key s f r = (
    record s { storage = (c.storage.delete s.storage key).0 },
    ap (λ x. (record s { storage = (c.storage.delete s.storage key).0 }, x))
        (rw (h.delete_ok s.storage key r.valid) refl),
    record {
      valid = h.delete-Valid s.storage key r.valid;
      reads = λ k.
          rw (h.delete_entries s.storage key r.valid, get-remove)
            (elim (Bool-cases (key_eq key k)) [
              | inl hit ↦ rw hit refl
              | inr other ↦ rw other (r.reads k)
            ]);
    },
    refl,
  )
