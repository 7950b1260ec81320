-- ===== src/Odgm/EntryStore/Examples.antt =====
-- A shard without replication over the in-memory backend, and the theorems at work on it.
use oaa_s_io_t.Prelude.{
  ℕ, ◌≡◌, ◌≢◌, refl, any_of, if◌then◌else◌, [], ◌∷◌, true, Option, none, some, arith,
}
use oaa_s_io_t.Std.Bytes.{Bytes, bytes_ord}
use oaa_s_io_t.Std.Order.{key_eq}
use oaa_s_io_t.Std.Utf8.{is_utf8}
use oaa_s_io_t.Std.BTreeMap
use oaa_s_io_t.Storage.Stats
use oaa_s_io_t.Storage.Memory
use oaa_s_io_t.Storage.Contract.InMemory.{memory_reliable}
use oaa_s_io_t.Odgm.Varint.{encode_varint}
use oaa_s_io_t.Odgm.StorageKey.{string_object_entry_key_string, string_object_meta_key}
use oaa_s_io_t.Odgm.StorageKey.RoundTrip.{IsIdText}
use oaa_s_io_t.Storage.Contract.Application.{memory_application, memory_application_reliable}
use oaa_s_io_t.Odgm.Fallible.{done}
use oaa_s_io_t.Odgm.GranularKey.{build_entry_key, build_metadata_key}
use oaa_s_io_t.Odgm.ObjectMetadata
use oaa_s_io_t.Odgm.Replication.{
  Operations, nil, cons, write, batch, plain_write, failed_with, no_extra,
}
use oaa_s_io_t.Odgm.EntryStore.Types.{Formats, ObjectVal, Setting, Shard, Val}
use oaa_s_io_t.Odgm.EntryStore.Operations.{
  set_entry, get_entry, get_metadata, delete_entry, delete_object_granular, unwrap_or_default,
}
use oaa_s_io_t.Odgm.EntryStore.Direct.{direct_setting, direct_reliable}
use oaa_s_io_t.Odgm.EntryStore.Ends.{IsReliableShard, IsValid, held}
use oaa_s_io_t.Odgm.EntryStore.Names.{IsName}
use oaa_s_io_t.Odgm.EntryStore.Writes.{
  IsStorable, next, KeepsOthers, set_entry_lem, delete_entry_lem,
}
use oaa_s_io_t.Odgm.EntryStore.Batch.{batch_set_entries, batch_delete_entries, write_operations}
use oaa_s_io_t.Odgm.EntryStore.BatchWritten.{Encodes}
use oaa_s_io_t.Odgm.EntryStore.BatchSet.{HasBatch, batch_set_lem}
use oaa_s_io_t.Odgm.EntryStore.BatchErrors.{batch_set_ignores_status}
use oaa_s_io_t.Odgm.EntryStore.BatchDeleted.{present}
use oaa_s_io_t.Odgm.EntryStore.BatchDelete.{batch_delete_lem}
use oaa_s_io_t.Odgm.EntryStore.DeleteObject.{delete_object_lem}

abbrev plain_decode : Bytes → Option (ObjectVal ℕ)
plain_decode [] = none
plain_decode (t ∷ p) = some (record { payload = p; val_type = t })

abbrev plain_formats : Formats
plain_formats = record {
  ValType = ℕ;
  Target = ℕ;
  to_allocvec = λ v. done (v.val_type ∷ v.payload);
  from_bytes = plain_decode;
  decode_event = λ bytes. none;
}

abbrev setting : Setting
setting = direct_setting plain_formats memory_application (99 ∷ []) 3 true

abbrev reliable : IsReliableShard setting
reliable =
    direct_reliable plain_formats memory_application (99 ∷ []) 3 true memory_application_reliable

abbrev a_id : Bytes
a_id = 97 ∷ []

abbrev k_key : Bytes
k_key = 107 ∷ []

abbrev val : Val setting
val = record { payload = 1 ∷ 2 ∷ []; val_type = 7 }

-- The object has one entry, and no metadata yet.
abbrev shard : Shard setting
unfolding memory_application
shard = record {
  storage = record { entries = (build_entry_key a_id k_key, 7 ∷ 9 ∷ []) ∷ []; stats = Stats.new };
  entry_reads = 0;
  entry_writes = 0;
  entry_deletes = 0;
  v2_dispatcher = none;
}

a_text : IsIdText a_id
unfolding is_utf8
a_text = record { utf8 = refl; nonzero = ground arith }

a_name : IsName a_id k_key
unfolding is_utf8 build_entry_key string_object_entry_key_string encode_varint
a_name = record { id_text = a_text; key_text = refl; fits = ground arith }

no_metadata : (get_metadata setting a_id shard).1 ≡ done none
unfolding get_metadata memory_application Memory.get BTreeMap.get bytes_ord build_entry_key
    build_metadata_key string_object_entry_key_string string_object_meta_key encode_varint
no_metadata = refl

new-IsStorable : IsStorable (unwrap_or_default none)
unfolding ObjectMetadata.new
new-IsStorable = record { version = omega arith; short = tt; few = omega arith }

shard-IsValid : IsValid reliable shard
unfolding memory_application memory_application_reliable memory_reliable
shard-IsValid = (tt, tt)

set_entry_lem_example :
    (t : Shard setting) × (set_entry setting a_id k_key val shard ≡ (t, done tt))
    × IsValid reliable t
    × ((get_entry setting a_id k_key t).1 ≡ done (some val))
    × ((get_metadata setting a_id t).1 ≡ done (some (next none)))
    × KeepsOthers reliable a_id k_key a_name shard t
set_entry_lem_example =
    set_entry_lem reliable a_id k_key a_name val (7 ∷ 1 ∷ 2 ∷ []) none shard refl refl
      new-IsStorable shard-IsValid no_metadata

delete_entry_lem_example :
    (t : Shard setting) × (delete_entry setting a_id k_key shard ≡ (t, done tt))
    × IsValid reliable t
    × ((get_entry setting a_id k_key t).1 ≡ done none)
    × ((get_metadata setting a_id t).1
        ≡ done (
            if BTreeMap.contains_key (held reliable shard) (build_entry_key a_id k_key)
            then some (next none)
            else none))
    × KeepsOthers reliable a_id k_key a_name shard t
delete_entry_lem_example =
    delete_entry_lem reliable a_id k_key a_name none shard new-IsStorable shard-IsValid no_metadata

plain_codec : Encodes setting
plain_codec v = (v.val_type ∷ v.payload, refl, refl)

batch_set_lem_example :
    (t : Shard setting) × (batch_set_entries setting a_id ((k_key, val) ∷ []) (some 0) shard
      ≡ (t, done (next none).object_version))
    × IsValid reliable t
    × HasBatch reliable plain_codec a_id ((k_key, val) ∷ []) none shard t
batch_set_lem_example =
    batch_set_lem reliable plain_codec a_id k_key val [] (some 0) none shard (a_name, tt)
      new-IsStorable shard-IsValid no_metadata (unfold ObjectMetadata.new in refl)

-- A layer that answers every request with the status "failed", and writes nothing.
abbrev failing : Setting
failing = record setting {
  replication = record {
    replicate_write =
        λ o s. (s, done (record { status = failed_with "storage"; old = none; extra = no_extra }));
  };
}

abbrev failing_shard : Shard failing
unfolding memory_application
failing_shard = record {
  storage = record { entries = (build_entry_key a_id k_key, 7 ∷ 9 ∷ []) ∷ []; stats = Stats.new };
  entry_reads = 0;
  entry_writes = 0;
  entry_deletes = 0;
  v2_dispatcher = none;
}

abbrev one_write : Operations
one_write = cons (write (plain_write (build_entry_key a_id k_key) (7 ∷ 1 ∷ 2 ∷ []))) (
    cons
      (write (
        plain_write (build_metadata_key a_id)
          (ObjectMetadata.to_bytes (ObjectMetadata.increment_version (unwrap_or_default none)))))
      nil)

batch_set_ignores_status_example :
    ((batch_set_entries failing a_id ((k_key, val) ∷ []) none failing_shard).1
      ≡ done (ObjectMetadata.increment_version (unwrap_or_default none)).object_version)
    × ((batch_set_entries failing a_id ((k_key, val) ∷ []) none failing_shard).0.storage
        ≡ (failing.replication.replicate_write (batch one_write) failing_shard.storage).0)
unfolding failing_shard
batch_set_ignores_status_example =
    batch_set_ignores_status failing a_id k_key val [] none failing_shard one_write
      (record { status = failed_with "storage"; old = none; extra = no_extra }) refl
      (unfold get_metadata memory_application Memory.get BTreeMap.get bytes_ord build_entry_key
          build_metadata_key string_object_entry_key_string string_object_meta_key encode_varint in
        refl)
      (unfold write_operations in refl) refl

batch_delete_lem_example :
    (t : Shard setting) × (batch_delete_entries setting a_id (k_key ∷ []) shard ≡ (t, done tt))
    × IsValid reliable t
    × ((key : Bytes)
        → IsName a_id key
        → (get_entry setting a_id key t).1 ≡ (
            if any_of (λ k. key_eq k key) (k_key ∷ [])
            then done none
            else (get_entry setting a_id key shard).1))
    × ((get_metadata setting a_id t).1
        ≡ done (
            if any_of (present a_id (held reliable shard)) (k_key ∷ [])
            then some (next none)
            else none))
    × ((id' key' : Bytes)
        → IsName id' key'
        → a_id ≢ id'
        → (get_entry setting id' key' t).1 ≡ (get_entry setting id' key' shard).1)
batch_delete_lem_example =
    batch_delete_lem reliable a_id (k_key ∷ []) none shard (a_name, tt) new-IsStorable shard-IsValid
      no_metadata

delete_object_lem_example :
    (t : Shard setting) × (delete_object_granular setting a_id shard ≡ (t, done tt))
    × IsValid reliable t
    × ((key : Bytes) → (get_entry setting a_id key t).1 ≡ done none)
    × ((get_metadata setting a_id t).1 ≡ done none)
    × ((id' key' : Bytes)
        → IsIdText id'
        → a_id ≢ id'
        → ((get_entry setting id' key' t).1 ≡ (get_entry setting id' key' shard).1)
          × ((get_metadata setting id' t).1 ≡ (get_metadata setting id' shard).1))
delete_object_lem_example = delete_object_lem reliable a_id shard a_text shard-IsValid
