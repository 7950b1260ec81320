-- ===== src/Odgm/EntryStore/BatchErrors.antt =====
-- The error paths of `batch_set_entries`, over any storage and any replication layer.
use oaa_s_io_t.Prelude.{◌≡◌, refl, ◌∷◌, Option, none}
use oaa_s_io_t.Std.Bytes.{Bytes}
use oaa_s_io_t.Storage.Outcome.{Outcome, ok, err, panicked}
use oaa_s_io_t.Odgm.Fallible.{done, continue}
use oaa_s_io_t.Odgm.GranularKey.{build_metadata_key}
use oaa_s_io_t.Odgm.ObjectMetadata
use oaa_s_io_t.Odgm.ObjectMetadata.{ObjectMetadata}
use oaa_s_io_t.Odgm.Replication.{write, batch, Operations, plain_write, ReplicationResponse}
use oaa_s_io_t.Odgm.EntryStore.Types.{Setting, Shard, Val, of_outcome}
use oaa_s_io_t.Odgm.EntryStore.Operations.{get_metadata, unwrap_or_default, notify, decode_metadata}
use oaa_s_io_t.Odgm.EntryStore.Batch.{Values, pre_exist, write_operations, batch_set_entries}

module _ (c : Setting) where
  -- Reading the metadata changes nothing.
  get_metadata-state : (id : Bytes) (s : Shard c) → (get_metadata c id s).0 ≡ s
  unfolding get_metadata
  get_metadata-state id s = state (c.app_storage.backend.get s.storage (build_metadata_key id))
    where
      state :
          (o : Outcome (Option Bytes))
          → (continue {S = Shard c} (of_outcome o) (λ found t. (t, decode_metadata c found)) s).0
            ≡ s
      state (ok found) = refl
      state (err e) = refl
      state panicked = refl

  -- The response of the replication layer is not looked at: on a shard without events, a batch that
  -- the layer answers with any status, "failed" included, leaves the layer's storage as it is and
  -- returns the new version as if it had been written.
  pub batch_set_ignores_status :
      (id k : Bytes) (w : Val c) (values : Values c) (found : Option ObjectMetadata) (s : Shard c)
      (operations : Operations) (response : ReplicationResponse)
      → s.v2_dispatcher ≡ none
      → (get_metadata c id s).1 ≡ done found
      → write_operations c id ((k, w) ∷ values) (
          write (
            plain_write (build_metadata_key id) (
              ObjectMetadata.to_bytes
                (ObjectMetadata.increment_version (unwrap_or_default found)))))
        ≡ done operations
      → (c.replication.replicate_write (batch operations) s.storage).1 ≡ done response
      → ((batch_set_entries c id ((k, w) ∷ values) none s).1
          ≡ done (ObjectMetadata.increment_version (unwrap_or_default found)).object_version)
        × ((batch_set_entries c id ((k, w) ∷ values) none s).0.storage
            ≡ (c.replication.replicate_write (batch operations) s.storage).0)
  unfolding batch_set_entries notify pre_exist
  batch_set_ignores_status id k w values found s operations response quiet e enc answered =
      rw (e, get_metadata-state id s, quiet, enc, answered) (refl, refl)
