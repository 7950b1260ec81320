-- ===== src/Odgm/Events/Queue/Shared.antt =====
-- What holds of the shared dispatcher under any interleaving of its senders and its consumer
-- (dispatcher.rs).
use oaa_s_io_t.Prelude.{
  ℕ, ◌+◌, ◌≤◌, ◌<◌, ◌≡◌, refl, ap, subst, List, [], ◌∷◌, Option, none, some, Bool, length, arith,
}
use oaa_s_io_t.Storage.Stats.{u64_mod}
use oaa_s_io_t.Odgm.Events.{
  QueuedEvent, EventDispatcher, Offered, accepted, refused_full, refused_closed, next_seq, offer,
  settle, new, fresh,
}
use oaa_s_io_t.Odgm.Events.Consumer.{process_event}
use oaa_s_io_t.Odgm.Events.Consumer.Triggers.{Consumed, receive_lem, published}
use oaa_s_io_t.Odgm.Events.Queue.{
  System, Step, number, offer_at, settle_at, receive, finish, pull, offered, settled, taken,
  finished, step, run, started,
}
use oaa_s_io_t.Odgm.Events.Queue.Invariant.{
  sum_by, sum_by-append, sum_by-pull, is_accepted, bump_next, is_number, in_hand, one, IsShared,
  number-IsShared, offered-IsShared, settled-IsShared,
}

module _ {Target : Type 0} where
  receive-IsShared :
      (r : Option (QueuedEvent Target)) (l : List (QueuedEvent Target)) (s : System Target)
      → s.received ≡ r
      → s.dispatcher.queue ≡ l
      → IsShared s
      → IsShared (taken r l s)
  receive-IsShared none [] s r e q = q
  receive-IsShared (some evt) l s r e q = q
  receive-IsShared none (evt ∷ rest) s r e q =
      let long : length s.dispatcher.queue ≡ length rest + 1 = rw e (omega arith) in
      record {
        bounded = omega (arith, q.bounded, long);
        counted = omega (arith, q.counted, long, ap (in_hand one) r);
        once =
            λ n. omega (arith, q.once n, ap (sum_by (is_number n)) e, ap (in_hand (is_number n)) r);
        emitted = q.emitted;
      }

  published-seq : (most limit : ℕ) (e : QueuedEvent Target) → (published most limit e).seq ≡ e.seq
  published-seq most limit e = ground arith

  finish-IsShared :
      (most limit : ℕ) (r : Option (QueuedEvent Target)) (s : System Target)
      → s.received ≡ r
      → IsShared s
      → IsShared (finished most limit r s)
        × ((finished most limit r s).dispatcher.seq ≡ s.dispatcher.seq)
  finish-IsShared most limit none s r q = (q, refl)
  finish-IsShared most limit (some evt) s r q =
      let c : Consumed most limit evt s.dispatcher.queue s.dispatcher
          (process_event most limit evt s.dispatcher) =
        receive_lem most limit evt s.dispatcher.queue s.dispatcher q.emitted in
      (
        record {
          bounded = rw (c.queue, c.others.1) q.bounded;
          counted = rw (c.queue, c.queue_len) (omega (arith, q.counted, ap (in_hand one) r));
          once = λ n.
              rw (c.queue, c.broadcast, c.others.0, sum_by-append, published-seq)
                (omega (arith, q.once n, ap (in_hand (is_number n)) r));
          emitted = rw c.emitted_events (omega arith);
        },
        c.others.0,
      )

  step-IsShared :
      (most limit : ℕ) (c : Step Target) (s : System Target)
      → s.dispatcher.seq + 1 < u64_mod
      → IsShared s
      → IsShared (step most limit c s)
  unfolding step
  step-IsShared most limit (number ctx) s b q = number-IsShared ctx s b q
  step-IsShared most limit (offer_at i) s b q =
      offered-IsShared (pull i s.sending) s (λ n. sum_by-pull (is_number n) i s.sending) q
  step-IsShared most limit (settle_at i) s b q =
      settled-IsShared (pull i s.answered) s (sum_by-pull is_accepted i s.answered) q
  step-IsShared most limit receive s b q =
      receive-IsShared s.received s.dispatcher.queue s refl refl q
  step-IsShared most limit finish s b q = (finish-IsShared most limit s.received s refl q).0

  offered-seq :
      (p : Option (QueuedEvent Target × List (QueuedEvent Target))) (s : System Target)
      → (offered p s).dispatcher.seq ≡ s.dispatcher.seq
  unfolding offer
  offered-seq none s = refl
  offered-seq (some (evt, others)) s = ground arith

  settled-seq :
      (p : Option (Offered × List Offered)) (s : System Target)
      → (settled p s).dispatcher.seq ≡ s.dispatcher.seq
  unfolding settle
  settled-seq none s = refl
  settled-seq (some (accepted, others)) s = refl
  settled-seq (some (refused_full, others)) s = refl
  settled-seq (some (refused_closed, others)) s = refl

  taken-seq :
      (r : Option (QueuedEvent Target)) (l : List (QueuedEvent Target)) (s : System Target)
      → (taken r l s).dispatcher.seq ≡ s.dispatcher.seq
  taken-seq none [] s = refl
  taken-seq none (evt ∷ rest) s = refl
  taken-seq (some evt) l s = refl

  -- A step takes at most one number.
  step-seq :
      (most limit : ℕ) (c : Step Target) (s : System Target)
      → s.dispatcher.seq + 1 < u64_mod
      → IsShared s
      → (step most limit c s).dispatcher.seq ≤ s.dispatcher.seq + 1
  unfolding step next_seq
  step-seq most limit (number ctx) s b q = omega (arith, bump_next s.dispatcher.seq b)
  step-seq most limit (offer_at i) s b q = omega (arith, offered-seq (pull i s.sending) s)
  step-seq most limit (settle_at i) s b q = omega (arith, settled-seq (pull i s.answered) s)
  step-seq most limit receive s b q = omega (arith, taken-seq s.received s.dispatcher.queue s)
  step-seq most limit finish s b q =
      omega (arith, (finish-IsShared most limit s.received s refl q).1)

  run_from-IsShared :
      (most limit : ℕ) (cs : List (Step Target)) (s : System Target)
      → s.dispatcher.seq + length cs < u64_mod
      → IsShared s
      → IsShared (run most limit cs s)
  unfolding run
  run_from-IsShared most limit [] s b q = q
  run_from-IsShared most limit (c ∷ cs) s b q =
      run_from-IsShared most limit cs (step most limit c s)
        (omega (arith, step-seq most limit c s (omega (arith, b)) q))
        (step-IsShared most limit c s (omega (arith, b)) q)

  fresh_of :
      (bound wide : ℕ) (processor : Bool) (d : EventDispatcher Target)
      → new bound wide processor ≡ some d
      → fresh bound processor ≡ d
  unfolding new
  fresh_of bound wide processor d e = ground arith

  -- From a dispatcher that `new` makes, after fewer than 2^64 - 1 steps of any calls of `try_send` and of
  -- the consumer, in any order: the queue is within its bound; the counter, with the accepted events
  -- still to be counted, is the number of events that are queued or in the consumer's hand, modulo
  -- 2^64; and each number is on at most one of the events that were broadcast, are in the consumer's
  -- hand, are queued, or are about to be offered, and on none unless it was taken.
  pub run-IsShared :
      (bound wide most limit : ℕ) (processor : Bool) (cs : List (Step Target))
      (d : EventDispatcher Target)
      → new bound wide processor ≡ some d
      → 1 + length cs < u64_mod
      → IsShared (run most limit cs (started d))
  run-IsShared bound wide most limit processor cs d e b =
      let same = fresh_of bound wide processor d e in
      subst (λ (x : EventDispatcher Target). IsShared (run most limit cs (started x))) same
        (run_from-IsShared most limit cs (started (fresh bound processor)) b record {
          bounded = omega arith;
          counted = refl;
          once = λ n. ground arith;
          emitted = omega arith;
        })
