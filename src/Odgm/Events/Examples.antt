-- ===== src/Odgm/Events/Examples.antt =====
-- The dispatcher at work on an event with more changed keys than the cap.
use oaa_s_io_t.Prelude.{ℕ, ◌≡◌, refl, List, [], ◌∷◌, true, none, some, arith}
use oaa_s_io_t.Odgm.Events.{
  ChangedKey, MutAction, ObjectEvent, MutationContext, new_context, QueuedEvent, EventDispatcher,
  new, fresh,
}
use oaa_s_io_t.Odgm.Events.Consumer.{consume}
use oaa_s_io_t.Odgm.Events.Consumer.Triggers.{consume_lem, Consumed}
use oaa_s_io_t.Odgm.Events.Queue.{Step, number, offer_at, settle_at, receive, finish, run, started}
use oaa_s_io_t.Odgm.Events.Queue.Invariant.{IsShared}
use oaa_s_io_t.Odgm.Events.Queue.Shared.{run-IsShared}

abbrev config : ObjectEvent ℕ
config = record {
  data_trigger =
      (1 ∷ [], record { on_create = 7 ∷ 8 ∷ []; on_update = []; on_delete = 9 ∷ [] }) ∷ [];
}

abbrev created : ChangedKey
created = record { key_canonical = 1 ∷ []; action = MutAction.create; value = none }

abbrev deleted : ChangedKey
deleted = record { key_canonical = 1 ∷ []; action = MutAction.delete; value = none }

abbrev ctx : MutationContext ℕ
ctx = new_context (97 ∷ []) (99 ∷ []) 3 4 5 (created ∷ deleted ∷ []) (some config)

abbrev event : QueuedEvent ℕ
event = record { seq = 1; ctx = ctx; summary = none }

abbrev waiting : EventDispatcher ℕ
waiting = record (fresh 4 true) { queue = event ∷ []; queue_len = 1; seq = 2 }

consume_lem_example : Consumed 1 8 event [] waiting (consume 1 8 waiting)
consume_lem_example = consume_lem 1 8 event [] waiting refl (omega arith)

-- Two calls take their numbers, and offer their events in the other order; the consumer is done with
-- one before any of the calls counts it.
abbrev crossing : List (Step ℕ)
crossing =
    number ctx
    ∷ number ctx
    ∷ offer_at 0
    ∷ receive
    ∷ offer_at 0
    ∷ finish
    ∷ settle_at 1
    ∷ settle_at 0
    ∷ []

new_two : new {Target = ℕ} 2 16 true ≡ some (fresh 2 true)
unfolding new
new_two = refl

run-IsShared_example : IsShared (run 1 8 crossing (started (fresh 2 true)))
run-IsShared_example = run-IsShared 2 16 1 8 true crossing (fresh 2 true) new_two (omega arith)
