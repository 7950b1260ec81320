-- ===== src/Odgm/Events/Consumer/Triggers.antt =====
-- The triggers that the consumer executes are those of the changed keys, up to the cap on their number.
use native.Mathlib.Nat.{zero-add}
use oaa_s_io_t.Prelude.{
  ℕ, zero, suc, ◌+◌, ◌-◌, ◌%◌, ◌<◌, ◌≡◌, refl, ap, subst, sym, List, [], ◌∷◌, ◌++◌, ltb, some, map,
  if◌then◌else◌, length, take, drop, arith, min,
}
use oaa_s_io_t.Std.Bytes.{bytes_ord}
use oaa_s_io_t.Storage.Stats.{u64_mod}
use oaa_s_io_t.Odgm.Events.{QueuedEvent, EventDispatcher, bump}
use oaa_s_io_t.Odgm.Events.Consumer.{key_of, summarise, receive, consume}
use oaa_s_io_t.Odgm.Events.Consumer.Loop.{triggers, if_processor, key_loop_lem}

length-take-min : {A : Type 0} (n : ℕ) (l : List A) → length (take n l) ≡ min n (length l)
length-take-min zero l = omega arith
length-take-min (suc n) [] = omega arith
length-take-min (suc n) (x ∷ l) = omega (arith, length-take-min n l)

module _ {Target : Type 0} where
  -- The event as it is broadcast.
  abbrev pub published : ℕ → ℕ → QueuedEvent Target → QueuedEvent Target
  published fanout_cap sample_limit evt =
      if ltb fanout_cap (length evt.ctx.changed)
      then record evt {
        summary = some (record {
          changed_total = length evt.ctx.changed;
          emitted = fanout_cap;
          sample_remaining_keys = map key_of (take sample_limit (drop fanout_cap evt.ctx.changed));
          version_after = evt.ctx.version_after;
        });
      }
      else evt

  summarise_lem :
      (most limit : ℕ) (evt : QueuedEvent Target) (d : EventDispatcher Target)
      → summarise limit evt (length (take most evt.ctx.changed)) d ≡ (
        published most limit evt,
        record d {
          truncated_batches =
              if ltb most (length evt.ctx.changed)
              then bump d.truncated_batches
              else d.truncated_batches;
        },
      )
  unfolding summarise
  summarise_lem most limit evt d = ground (arith, length-take-min most evt.ctx.changed)

  -- What `d` is after one turn on the event, with `rest` still queued.
  pub record Consumed (fanout_cap sample_limit : ℕ) (evt : QueuedEvent Target)
      (rest : List (QueuedEvent Target)) (d d' : EventDispatcher Target) : Type 0 where
    pub queue : d'.queue ≡ rest
    pub broadcast : d'.broadcast ≡ d.broadcast ++ published fanout_cap sample_limit evt ∷ []
    pub executed :
        d'.executed
        ≡ d.executed
          ++ if_processor d.has_trigger_processor
              (triggers evt.ctx (take fanout_cap evt.ctx.changed))
    pub emitted_events :
        d'.emitted_events ≡ (d.emitted_events + min fanout_cap (length evt.ctx.changed)) % u64_mod
    pub truncated_batches : d'.truncated_batches ≡ (
        if ltb fanout_cap (length evt.ctx.changed)
        then bump d.truncated_batches
        else d.truncated_batches)
    pub queue_len : d'.queue_len ≡ (d.queue_len + u64_mod - 1) % u64_mod
    pub others :
        (d'.seq ≡ d.seq) × (d'.bound ≡ d.bound) × (d'.queue_drops_total ≡ d.queue_drops_total)

  pub receive_lem :
      (most limit : ℕ) (evt : QueuedEvent Target) (rest : List (QueuedEvent Target))
      (d : EventDispatcher Target)
      → d.emitted_events < u64_mod
      → Consumed most limit evt rest d (receive most limit (evt ∷ rest) d)
  receive_lem most limit evt rest d h =
      let (d', l, a) = key_loop_lem most 0 evt.ctx evt.ctx.changed (record d { queue = rest }) h in
      let l' = rw (zero-add, zero-add) at l in
      rw (l', summarise_lem most limit evt d')
        record {
          queue = a.queue;
          broadcast = rw a.broadcast refl;
          executed = a.executed;
          emitted_events = rw a.emitted (rw (length-take-min most evt.ctx.changed) refl);
          truncated_batches = rw a.truncated refl;
          queue_len = rw a.len refl;
          others = (a.seq, a.bound, a.drops);
        }

  -- From a queue that is not empty and a count of events that is a `u64`, the consumer takes the oldest
  -- event. It executes exactly the configured triggers of its changed keys in their order (of the
  -- first ones, where there are more than the cap, and none where there is no trigger processor or no
  -- configuration), each with the event's object, class and partition. It broadcasts the event, with
  -- a summary of the keys left out exactly if there are some, counts the keys that it went over and
  -- the events with keys left out, takes one from the length of the queue, and leaves the sequence
  -- number, the bound and the count of drops alone.
  pub consume_lem :
      (fanout_cap sample_limit : ℕ) (evt : QueuedEvent Target) (rest : List (QueuedEvent Target))
      (d : EventDispatcher Target)
      → d.queue ≡ evt ∷ rest
      → d.emitted_events < u64_mod
      → Consumed fanout_cap sample_limit evt rest d (consume fanout_cap sample_limit d)
  unfolding consume
  consume_lem most limit evt rest d q h =
      subst
        (λ (l : List (QueuedEvent Target)). Consumed most limit evt rest d (receive most limit l d))
        (sym q) (receive_lem most limit evt rest d h)

  -- On an empty queue it waits.
  pub consume_empty :
      (fanout_cap sample_limit : ℕ) (d : EventDispatcher Target)
      → d.queue ≡ []
      → consume fanout_cap sample_limit d ≡ d
  unfolding consume
  consume_empty most limit d q = ap (λ (l : List (QueuedEvent Target)). receive most limit l d) q
