-- ===== src/Odgm/Events.antt =====
-- Events of changed objects: data-plane/oprc-odgm/src/events/mutation.rs, and the dispatcher with its
-- consumer, data-plane/oprc-odgm/src/events/dispatcher.rs. A dispatcher is shared: the steps of its
-- senders and of its consumer, which other tasks can come between, are functions of their own, and
-- Queue runs them in any order. The two exporters (telemetry, the message
-- bus) and the counters' observers are left out; the calls of `execute_trigger` are recorded.
pub mod Consumer
pub mod Queue
mod Examples
use oaa_s_io_t.Prelude.{
  ℕ, ◌+◌, ◌/◌, ◌&&◌, ◌-◌, ◌%◌, List, [], ◌∷◌, ◌++◌, Bool, true, false, ltb, leb, Option, none, some,
  map, if◌then◌else◌, length, take, drop,
}
use oaa_s_io_t.Std.Bytes.{Bytes, bytes_ord}
use oaa_s_io_t.Std.BTreeMap
use oaa_s_io_t.Std.BTreeMap.{BTreeMap}
use oaa_s_io_t.Storage.Stats.{u64_mod}

pub data MutAction : Type 0 where
  create update delete : MutAction

pub data MutationSource : Type 0 where
  local sync : MutationSource

pub record ChangedKey : Type 0 where
  pub key_canonical : Bytes
  pub action : MutAction
  pub value : Option Bytes

-- `Target` stands for the generated type of a trigger's target.
pub record DataTrigger (Target : Type 0) : Type 0 where
  pub on_create : List Target
  pub on_update : List Target
  pub on_delete : List Target

-- `data_trigger`; function triggers are read elsewhere.
pub record ObjectEvent (Target : Type 0) : Type 0 where
  pub data_trigger : BTreeMap Bytes (DataTrigger Target)

pub record MutationContext (Target : Type 0) : Type 0 where
  pub object_id : Bytes
  pub cls_id : Bytes
  pub partition_id : ℕ
  pub version_before : ℕ
  pub version_after : ℕ
  pub changed : List ChangedKey
  pub source : MutationSource
  pub event_config : Option (ObjectEvent Target)

pub record EventSummary : Type 0 where
  pub changed_total : ℕ
  pub emitted : ℕ
  pub sample_remaining_keys : List Bytes
  pub version_after : ℕ

pub record QueuedEvent (Target : Type 0) : Type 0 where
  pub seq : ℕ
  pub ctx : MutationContext Target
  pub summary : Option EventSummary

-- The data cases of `EventType`; the function cases have no changed key.
pub data EventType : Type 0 where
  data_create data_update data_delete : Bytes → EventType

pub record TriggerExecutionContext (Target : Type 0) : Type 0 where
  pub object_id : Bytes
  pub class_id : Bytes
  pub partition_id : ℕ
  pub event_type : EventType
  pub target : Target

-- The channel with its bound, the counters, and what went out: the executed triggers and the
-- broadcast, in their order.
pub record EventDispatcher (Target : Type 0) : Type 0 where
  pub seq : ℕ
  pub bound : ℕ
  pub closed : Bool
  pub queue : List (QueuedEvent Target)
  pub emitted_events : ℕ
  pub emitted_create : ℕ
  pub emitted_update : ℕ
  pub emitted_delete : ℕ
  pub truncated_batches : ℕ
  pub queue_drops_total : ℕ
  pub queue_len : ℕ
  pub has_trigger_processor : Bool
  pub executed : List (TriggerExecutionContext Target)
  pub broadcast : List (QueuedEvent Target)

-- The channel's answer: `Ok`, `TrySendError::Full` or `TrySendError::Closed`.
pub data Offered : Type 0 where
  accepted refused_full refused_closed : Offered

abbrev pub bump : ℕ → ℕ
bump n = (n + 1) % u64_mod

unfoldable pub map_changed_key_to_event_type : ChangedKey → EventType
map_changed_key_to_event_type ck = elim ck.action [
  | create ↦ data_create ck.key_canonical
  | update ↦ data_update ck.key_canonical
  | delete ↦ data_delete ck.key_canonical
]

module _ {Target : Type 0} where
  abbrev pub new_context :
      Bytes
      → Bytes
      → ℕ
      → ℕ
      → ℕ
      → List ChangedKey
      → Option (ObjectEvent Target)
      → MutationContext Target
  new_context object_id cls_id partition_id before after changed event_config = record {
    object_id = object_id;
    cls_id = cls_id;
    partition_id = partition_id;
    version_before = before;
    version_after = after;
    changed = changed;
    source = local;
    event_config = event_config;
  }

  abbrev pub fresh : ℕ → Bool → EventDispatcher Target
  fresh queue_bound has_trigger_processor = record {
    seq = 1;
    bound = queue_bound;
    closed = false;
    queue = [];
    emitted_events = 0;
    emitted_create = 0;
    emitted_update = 0;
    emitted_delete = 0;
    truncated_batches = 0;
    queue_drops_total = 0;
    queue_len = 0;
    has_trigger_processor = has_trigger_processor;
    executed = [];
    broadcast = [];
  }

  -- `none` is a panic of one of tokio's two channels, as documented: at a capacity of 0, and above
  -- `usize::MAX >> 3` permits of the queue or `usize::MAX / 2` values of the broadcast.
  unfoldable pub new : ℕ → ℕ → Bool → Option (EventDispatcher Target)
  new queue_bound bcast_bound has_trigger_processor =
      if leb 1 queue_bound
        && leb queue_bound (u64_mod / 8 - 1)
        && leb 1 bcast_bound
        && leb bcast_bound (u64_mod / 2 - 1)
      then some (fresh queue_bound has_trigger_processor)
      else none

  -- The three steps of `try_send`, between which other tasks run: `next_seq` takes a number, the
  -- channel takes the event or does not, and a counter says so.
  unfoldable pub next_seq : EventDispatcher Target → EventDispatcher Target × ℕ
  next_seq d = (record d { seq = bump d.seq }, d.seq)

  unfoldable pub offer :
      QueuedEvent Target → EventDispatcher Target → EventDispatcher Target × Offered
  offer evt d =
      if d.closed
      then (d, refused_closed)
      else if ltb (length d.queue) d.bound
      then (record d { queue = d.queue ++ evt ∷ [] }, accepted)
      else (d, refused_full)

  unfoldable pub settle : Offered → EventDispatcher Target → EventDispatcher Target × Bool
  settle accepted d = (record d { queue_len = bump d.queue_len }, true)
  settle refused_full d = (record d { queue_drops_total = bump d.queue_drops_total }, false)
  settle refused_closed d = (d, false)

  -- The steps of one call, with no other task between them.
  unfoldable pub try_send :
      MutationContext Target → EventDispatcher Target → EventDispatcher Target × Bool
  unfolding next_seq offer settle
  try_send ctx d =
      let (d1, seq) = next_seq d in
      let (d2, offered) = offer (record { seq = seq; ctx = ctx; summary = none }) d1 in
      settle offered d2

  abbrev pub trigger_targets :
      (DataTrigger Target → List Target) → Option (DataTrigger Target) → List Target
  trigger_targets field none = []
  trigger_targets field (some t) = field t

  unfoldable pub collect_matching_triggers_inline : ObjectEvent Target → EventType → List Target
  collect_matching_triggers_inline object_event (data_create key) =
      trigger_targets (λ t. t.on_create) (BTreeMap.get object_event.data_trigger key)
  collect_matching_triggers_inline object_event (data_update key) =
      trigger_targets (λ t. t.on_update) (BTreeMap.get object_event.data_trigger key)
  collect_matching_triggers_inline object_event (data_delete key) =
      trigger_targets (λ t. t.on_delete) (BTreeMap.get object_event.data_trigger key)
