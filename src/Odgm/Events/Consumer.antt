-- ===== src/Odgm/Events/Consumer.antt =====
-- `run_event_consumer`: what one received event makes the consumer do.
pub mod Loop
pub mod Triggers
use native.Mathlib.Nat.{zero-add}
use oaa_s_io_t.Prelude.{
  ℕ, zero, suc, ◌+◌, ◌-◌, ◌%◌, ◌<◌, ◌≡◌, refl, ap, subst, sym, ◌∙◌, List, [], ◌∷◌, ◌++◌,
  append_assoc, append-nil, Bool, true, false, ltb, leb, Option, none, some, map, if◌then◌else◌,
  length, take, drop, arith, min,
}
use oaa_s_io_t.Std.Bytes.{Bytes, bytes_ord}
use oaa_s_io_t.Storage.Stats.{u64_mod}
use oaa_s_io_t.Odgm.Events.{
  ChangedKey, ObjectEvent, MutationContext, QueuedEvent, EventType, data_create, data_update,
  data_delete, TriggerExecutionContext, EventDispatcher, bump, map_changed_key_to_event_type,
  collect_matching_triggers_inline,
}

abbrev pub key_of : ChangedKey → Bytes
key_of ck = ck.key_canonical

module _ {Target : Type 0} where
  abbrev pub executions :
      MutationContext Target → EventType → List Target → List (TriggerExecutionContext Target)
  executions ctx event_type targets =
      map
        (λ target. record {
          object_id = ctx.object_id;
          class_id = ctx.cls_id;
          partition_id = ctx.partition_id;
          event_type = event_type;
          target = target;
        })
        targets

  abbrev pub count_type : EventType → EventDispatcher Target → EventDispatcher Target
  count_type (data_create key) d = record d { emitted_create = bump d.emitted_create }
  count_type (data_update key) d = record d { emitted_update = bump d.emitted_update }
  count_type (data_delete key) d = record d { emitted_delete = bump d.emitted_delete }

  abbrev pub run_targets :
      MutationContext Target
      → EventType
      → List Target
      → EventDispatcher Target
      → EventDispatcher Target
  run_targets ctx event_type [] d = d
  run_targets ctx event_type (target ∷ targets) d =
      count_type event_type
        (record d { executed = d.executed ++ executions ctx event_type (target ∷ targets) })

  abbrev pub run_config :
      MutationContext Target
      → EventType
      → Option (ObjectEvent Target)
      → EventDispatcher Target
      → EventDispatcher Target
  run_config ctx event_type none d = d
  run_config ctx event_type (some object_event) d =
      run_targets ctx event_type (collect_matching_triggers_inline object_event event_type) d

  -- The body of the loop over the changed keys.
  unfoldable pub process_key :
      MutationContext Target → ChangedKey → EventDispatcher Target → EventDispatcher Target
  unfolding map_changed_key_to_event_type collect_matching_triggers_inline
  process_key ctx ck d =
      let counted = record d { emitted_events = bump d.emitted_events } in
      if d.has_trigger_processor
      then run_config ctx (map_changed_key_to_event_type ck) ctx.event_config counted
      else counted

  unfoldable pub key_loop :
      ℕ
      → ℕ
      → MutationContext Target
      → List ChangedKey
      → EventDispatcher Target
      → EventDispatcher Target × ℕ
  unfolding process_key
  key_loop fanout_cap emitted ctx [] d = (d, emitted)
  key_loop fanout_cap emitted ctx (ck ∷ changed) d =
      let rest = key_loop fanout_cap (emitted + 1) ctx changed (process_key ctx ck d) in
      if leb fanout_cap emitted then (d, emitted) else rest

  -- The summary of a truncated event.
  unfoldable pub summarise :
      ℕ
      → QueuedEvent Target
      → ℕ
      → EventDispatcher Target
      → QueuedEvent Target × EventDispatcher Target
  summarise sample_limit evt emitted d =
      let changed_len = length evt.ctx.changed in
      if ltb emitted changed_len
      then (
        record evt {
          summary = some (record {
            changed_total = changed_len;
            emitted = emitted;
            sample_remaining_keys = map key_of (take sample_limit (drop emitted evt.ctx.changed));
            version_after = evt.ctx.version_after;
          });
        },
        record d { truncated_batches = bump d.truncated_batches },
      )
      else (evt, d)

  abbrev pub finish : QueuedEvent Target × EventDispatcher Target → EventDispatcher Target
  finish (evt, d) = record d {
    broadcast = d.broadcast ++ evt ∷ [];
    queue_len = (d.queue_len + u64_mod - 1) % u64_mod;
  }

  -- What the consumer does with an event that it received. The counters, the executed triggers and the
  -- broadcast are its own; of what senders change it touches `queue_len` alone, in its last step.
  abbrev pub process_event :
      ℕ → ℕ → QueuedEvent Target → EventDispatcher Target → EventDispatcher Target
  process_event fanout_cap sample_limit evt d =
      let (d', emitted) = key_loop fanout_cap 0 evt.ctx evt.ctx.changed d in
      finish (summarise sample_limit evt emitted d')

  abbrev pub receive :
      ℕ → ℕ → List (QueuedEvent Target) → EventDispatcher Target → EventDispatcher Target
  receive fanout_cap sample_limit [] d = d
  receive fanout_cap sample_limit (evt ∷ rest) d =
      process_event fanout_cap sample_limit evt (record d { queue = rest })

  -- One turn of the consumer, with no sender between its steps; on an empty queue it waits.
  unfoldable pub consume : ℕ → ℕ → EventDispatcher Target → EventDispatcher Target
  unfolding key_loop summarise
  consume fanout_cap sample_limit d = receive fanout_cap sample_limit d.queue d
