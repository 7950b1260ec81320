-- ===== src/Odgm/Events/Consumer/Loop.antt =====
-- The loop over the changed keys of an event, `run_event_consumer` in
-- data-plane/oprc-odgm/src/events/dispatcher.rs: the triggers it runs and what it counts.
use oaa_s_io_t.Prelude.{
  ℕ, zero, suc, ◌+◌, ◌%◌, ◌<◌, ◌≡◌, refl, ap, subst, sym, ◌∙◌, List, [], ◌∷◌, ◌++◌, append_assoc,
  append-nil, Bool, true, false, Option, none, some, if◌then◌else◌, length, take, arith,
}
use oaa_s_io_t.Std.Bytes.{Bytes, bytes_ord}
use oaa_s_io_t.Std.BTreeMap
use oaa_s_io_t.Storage.Stats.{u64_mod}
use oaa_s_io_t.Odgm.Events.{
  ChangedKey, MutAction, create, update, delete, DataTrigger, ObjectEvent, MutationContext,
  EventType, data_create, data_update, data_delete, TriggerExecutionContext, EventDispatcher, bump,
  map_changed_key_to_event_type, collect_matching_triggers_inline,
}
use oaa_s_io_t.Odgm.Events.Consumer.{executions, run_targets, run_config, process_key, key_loop}

module _ {Target : Type 0} where
  -- One execution for each target, with the object, the class and the partition of the event.
  abbrev pub asked :
      MutationContext Target → EventType → List Target → List (TriggerExecutionContext Target)
  asked ctx event_type [] = []
  asked ctx event_type (target ∷ targets) =
      record {
        object_id = ctx.object_id;
        class_id = ctx.cls_id;
        partition_id = ctx.partition_id;
        event_type = event_type;
        target = target;
      }
      ∷ asked ctx event_type targets

  -- What a configured trigger asks for when its key is created, updated or deleted.
  abbrev pub wanted_for :
      MutationContext Target
      → Bytes
      → MutAction
      → DataTrigger Target
      → List (TriggerExecutionContext Target)
  wanted_for ctx key create trigger = asked ctx (data_create key) trigger.on_create
  wanted_for ctx key update trigger = asked ctx (data_update key) trigger.on_update
  wanted_for ctx key delete trigger = asked ctx (data_delete key) trigger.on_delete

  abbrev pub wanted_if :
      MutationContext Target
      → ChangedKey
      → Option (DataTrigger Target)
      → List (TriggerExecutionContext Target)
  wanted_if ctx ck none = []
  wanted_if ctx ck (some trigger) = wanted_for ctx ck.key_canonical ck.action trigger

  -- The triggers of a changed key, as the object's configuration says.
  abbrev pub key_triggers :
      MutationContext Target
      → Option (ObjectEvent Target)
      → ChangedKey
      → List (TriggerExecutionContext Target)
  key_triggers ctx none ck = []
  key_triggers ctx (some object_event) ck =
      wanted_if ctx ck (BTreeMap.get object_event.data_trigger ck.key_canonical)

  abbrev pub triggers :
      MutationContext Target → List ChangedKey → List (TriggerExecutionContext Target)
  triggers ctx [] = []
  triggers ctx (ck ∷ changed) = key_triggers ctx ctx.event_config ck ++ triggers ctx changed

  abbrev pub if_processor :
      Bool → List (TriggerExecutionContext Target) → List (TriggerExecutionContext Target)
  if_processor true l = l
  if_processor false l = []

  -- What the loop changes and what it keeps: `e` events are counted then, and `ran` was executed.
  pub record Advanced (d d' : EventDispatcher Target) (e : ℕ)
      (ran : List (TriggerExecutionContext Target)) : Type 0 where
    pub emitted : d'.emitted_events ≡ e
    pub executed : d'.executed ≡ d.executed ++ ran
    pub queue : d'.queue ≡ d.queue
    pub broadcast : d'.broadcast ≡ d.broadcast
    pub truncated : d'.truncated_batches ≡ d.truncated_batches
    pub processor : d'.has_trigger_processor ≡ d.has_trigger_processor
    pub len : d'.queue_len ≡ d.queue_len
    pub seq : d'.seq ≡ d.seq
    pub bound : d'.bound ≡ d.bound
    pub drops : d'.queue_drops_total ≡ d.queue_drops_total

  idle : (d : EventDispatcher Target) → Advanced d d d.emitted_events []
  idle d = record {
    emitted = refl;
    executed = sym (append-nil d.executed);
    queue = refl;
    broadcast = refl;
    truncated = refl;
    processor = refl;
    len = refl;
    seq = refl;
    bound = refl;
    drops = refl;
  }

  run_targets_lem :
      (ctx : MutationContext Target) (t : EventType) (targets : List Target)
      (d : EventDispatcher Target)
      → Advanced d (run_targets ctx t targets d) d.emitted_events (executions ctx t targets)
  run_targets_lem ctx t [] d = idle d
  run_targets_lem ctx (data_create key) (x ∷ xs) d = ground arith
  run_targets_lem ctx (data_update key) (x ∷ xs) d = ground arith
  run_targets_lem ctx (data_delete key) (x ∷ xs) d = ground arith

  executions-asked :
      (ctx : MutationContext Target) (t : EventType) (targets : List Target)
      → executions ctx t targets ≡ asked ctx t targets
  executions-asked ctx t [] = refl
  executions-asked ctx t (x ∷ xs) =
      ap
        (λ (l : List (TriggerExecutionContext Target)).
          record {
            object_id = ctx.object_id;
            class_id = ctx.cls_id;
            partition_id = ctx.partition_id;
            event_type = t;
            target = x;
          }
          ∷ l)
        (executions-asked ctx t xs)

  chosen :
      (ctx : MutationContext Target) (oe : ObjectEvent Target) (key : Bytes) (a : MutAction)
      (value : Option Bytes) (found : Option (DataTrigger Target))
      → BTreeMap.get oe.data_trigger key ≡ found
      → executions ctx
          (map_changed_key_to_event_type
            (record { key_canonical = key; action = a; value = value }))
          (collect_matching_triggers_inline oe (
            map_changed_key_to_event_type
              (record { key_canonical = key; action = a; value = value })))
        ≡ wanted_if ctx (record { key_canonical = key; action = a; value = value }) found
  unfolding map_changed_key_to_event_type collect_matching_triggers_inline
  chosen ctx oe key create value none e = rw e refl
  chosen ctx oe key update value none e = rw e refl
  chosen ctx oe key delete value none e = rw e refl
  chosen ctx oe key create value (some t) e =
      rw e (executions-asked ctx (data_create key) t.on_create)
  chosen ctx oe key update value (some t) e =
      rw e (executions-asked ctx (data_update key) t.on_update)
  chosen ctx oe key delete value (some t) e =
      rw e (executions-asked ctx (data_delete key) t.on_delete)

  -- The code's choice of the targets is the configured one.
  collected :
      (ctx : MutationContext Target) (oe : ObjectEvent Target) (ck : ChangedKey)
      → executions ctx
          (map_changed_key_to_event_type ck)
          (collect_matching_triggers_inline oe (map_changed_key_to_event_type ck))
        ≡ key_triggers ctx (some oe) ck
  collected ctx oe ck = chosen ctx oe ck.key_canonical ck.action ck.value _ refl

  run_config_lem :
      (ctx : MutationContext Target) (ck : ChangedKey) (c : Option (ObjectEvent Target))
      (d : EventDispatcher Target)
      → Advanced d
          (run_config ctx (map_changed_key_to_event_type ck) c d)
          d.emitted_events
          (key_triggers ctx c ck)
  run_config_lem ctx ck none d = idle d
  run_config_lem ctx ck (some oe) d =
      subst
        (Advanced d (run_config ctx (map_changed_key_to_event_type ck) (some oe) d)
          d.emitted_events)
        (collected ctx oe ck) (run_targets_lem ctx _ _ d)

  moved :
      (b : Bool) (ctx : MutationContext Target) (ck : ChangedKey) (d : EventDispatcher Target)
      → Advanced d
          (if b then run_config ctx (map_changed_key_to_event_type ck) ctx.event_config d else d)
          d.emitted_events
          (if_processor b (key_triggers ctx ctx.event_config ck))
  moved true ctx ck d = run_config_lem ctx ck ctx.event_config d
  moved false ctx ck d = idle d

  process_key_lem :
      (ctx : MutationContext Target) (ck : ChangedKey) (d : EventDispatcher Target)
      → Advanced d
          (process_key ctx ck d)
          (bump d.emitted_events)
          (if_processor d.has_trigger_processor (key_triggers ctx ctx.event_config ck))
  unfolding process_key
  process_key_lem ctx ck d =
      let a =
        moved d.has_trigger_processor ctx ck
          (record d { emitted_events = bump d.emitted_events }) in
      record {
        emitted = a.emitted;
        executed = a.executed;
        queue = a.queue;
        broadcast = a.broadcast;
        truncated = a.truncated;
        processor = a.processor;
        len = a.len;
        seq = a.seq;
        bound = a.bound;
        drops = a.drops;
      }

  if-append :
      (b : Bool) (xs ys : List (TriggerExecutionContext Target))
      → if_processor b xs ++ if_processor b ys ≡ if_processor b (xs ++ ys)
  if-append true xs ys = refl
  if-append false xs ys = refl

  nothing : (b : Bool) → [] ≡ if_processor b []
  nothing true = refl
  nothing false = refl

  stopped :
      (b : Bool) (d : EventDispatcher Target)
      → d.emitted_events < u64_mod
      → Advanced d d ((d.emitted_events + 0) % u64_mod) (if_processor b [])
  stopped b d h =
      let e : d.emitted_events ≡ (d.emitted_events + 0) % u64_mod = omega arith in
      subst (λ (t : ℕ). Advanced d d t (if_processor b [])) e
        (subst (Advanced d d d.emitted_events) (nothing b) (idle d))

  -- The loop goes over the first keys, as many as the cap leaves.
  pub key_loop_lem :
      (n e : ℕ) (ctx : MutationContext Target) (changed : List ChangedKey)
      (d : EventDispatcher Target)
      → d.emitted_events < u64_mod
      → (d' : EventDispatcher Target) × (key_loop (e + n) e ctx changed d
          ≡ (d', e + length (take n changed)))
        × Advanced d d'
            ((d.emitted_events + length (take n changed)) % u64_mod)
            (if_processor d.has_trigger_processor (triggers ctx (take n changed)))
  unfolding key_loop
  key_loop_lem zero e ctx [] d h = (d, ground arith, stopped _ d h)
  key_loop_lem (suc n) e ctx [] d h = (d, ground arith, stopped _ d h)
  key_loop_lem zero e ctx (ck ∷ changed) d h = (d, ground arith, stopped _ d h)
  key_loop_lem (suc n) e ctx (ck ∷ changed) d h =
      let a = process_key_lem ctx ck d in
      let (d', l, b) =
        key_loop_lem n (e + 1) ctx changed (process_key ctx ck d) (rw a.emitted (omega arith)) in
      let shift : e + suc n ≡ e + 1 + n = omega arith in
      (
        d',
        ground (arith, shift, l),
        record {
          emitted = b.emitted ∙ rw a.emitted (omega arith);
          executed =
              b.executed
              ∙ rw (a.executed, a.processor)
                  (append_assoc d.executed _ _
                    ∙ ap (λ (t : List (TriggerExecutionContext Target)). d.executed ++ t)
                        (if-append d.has_trigger_processor _ _));
          queue = b.queue ∙ a.queue;
          broadcast = b.broadcast ∙ a.broadcast;
          truncated = b.truncated ∙ a.truncated;
          processor = b.processor ∙ a.processor;
          len = b.len ∙ a.len;
          seq = b.seq ∙ a.seq;
          bound = b.bound ∙ a.bound;
          drops = b.drops ∙ a.drops;
        },
      )
