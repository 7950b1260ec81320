-- ===== src/Odgm/Events/Queue.antt =====
-- The dispatcher as it is shared, data-plane/oprc-odgm/src/events/dispatcher.rs: any number of calls of
-- `try_send` in progress and the consumer, whose steps come in any order.
pub mod Invariant
pub mod Shared
use oaa_s_io_t.Prelude.{ℕ, zero, suc, ◌+◌, ◌-◌, ◌%◌, List, [], ◌∷◌, Option, none, some}
use oaa_s_io_t.Storage.Stats.{u64_mod}
use oaa_s_io_t.Odgm.Events.{
  MutationContext, QueuedEvent, EventDispatcher, Offered, next_seq, offer, settle,
}
use oaa_s_io_t.Odgm.Events.Consumer.{process_event}

-- The element at a place, and the others.
abbrev pub pull {ℓ} : {A : Type ℓ} → ℕ → List A → Option (A × List A)
pull i [] = none
pull zero (x ∷ xs) = some (x, xs)
pull (suc i) (x ∷ xs) = elim (pull i xs) [ none ↦ none | some p ↦ some (p.0, x ∷ p.1) ]

-- The calls of `try_send` that have a number and are before the channel, those that have the channel's
-- answer and did not count it, and the event that the consumer received and works on.
pub record System (Target : Type 0) : Type 0 where
  pub dispatcher : EventDispatcher Target
  pub sending : List (QueuedEvent Target)
  pub answered : List Offered
  pub received : Option (QueuedEvent Target)

-- A step of one task: a new call takes its number, a call offers its event to the channel, a call
-- counts the answer, the consumer receives, and the consumer works on what it received.
pub data Step (Target : Type 0) : Type 0 where
  number : MutationContext Target → Step Target
  offer_at : ℕ → Step Target
  settle_at : ℕ → Step Target
  receive : Step Target
  finish : Step Target

module _ {Target : Type 0} where
  abbrev pub numbered : MutationContext Target → System Target → System Target
  numbered ctx s =
      let (d, seq) = next_seq s.dispatcher in
      record s {
        dispatcher = d;
        sending = record { seq = seq; ctx = ctx; summary = none } ∷ s.sending;
      }

  abbrev pub offered :
      Option (QueuedEvent Target × List (QueuedEvent Target)) → System Target → System Target
  offered none s = s
  offered (some (evt, others)) s =
      let (d, answer) = offer evt s.dispatcher in
      record s { dispatcher = d; sending = others; answered = answer ∷ s.answered }

  abbrev pub settled : Option (Offered × List Offered) → System Target → System Target
  settled none s = s
  settled (some (answer, others)) s = record s {
    dispatcher = (settle answer s.dispatcher).0;
    answered = others;
  }

  -- The consumer receives when it has nothing to work on.
  abbrev pub taken :
      Option (QueuedEvent Target) → List (QueuedEvent Target) → System Target → System Target
  taken none (evt ∷ rest) s = record s {
    dispatcher = record s.dispatcher { queue = rest };
    received = some evt;
  }
  taken none [] s = s
  taken (some evt) queue s = s

  abbrev pub finished : ℕ → ℕ → Option (QueuedEvent Target) → System Target → System Target
  finished fanout_cap sample_limit none s = s
  finished fanout_cap sample_limit (some evt) s = record s {
    dispatcher = process_event fanout_cap sample_limit evt s.dispatcher;
    received = none;
  }

  -- A step that no task can take leaves everything as it is.
  unfoldable pub step : ℕ → ℕ → Step Target → System Target → System Target
  step fanout_cap sample_limit (number ctx) s = numbered ctx s
  step fanout_cap sample_limit (offer_at i) s = offered (pull i s.sending) s
  step fanout_cap sample_limit (settle_at i) s = settled (pull i s.answered) s
  step fanout_cap sample_limit receive s = taken s.received s.dispatcher.queue s
  step fanout_cap sample_limit finish s = finished fanout_cap sample_limit s.received s

  unfoldable pub run : ℕ → ℕ → List (Step Target) → System Target → System Target
  unfolding step
  run fanout_cap sample_limit [] s = s
  run fanout_cap sample_limit (c ∷ cs) s =
      run fanout_cap sample_limit cs (step fanout_cap sample_limit c s)

  abbrev pub started : EventDispatcher Target → System Target
  started d = record { dispatcher = d; sending = []; answered = []; received = none }
