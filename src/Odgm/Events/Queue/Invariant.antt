-- ===== src/Odgm/Events/Queue/Invariant.antt =====
-- The invariant of the shared dispatcher (dispatcher.rs), and that the steps of `try_send` keep it.
use oaa_s_io_t.Prelude.{
  ℕ, zero, suc, ◌+◌, ◌%◌, ◌≤◌, ◌<◌, ◌≡◌, refl, List, [], ◌∷◌, ◌++◌, Option, none, some, length,
  length-append, arith, inl, inr, ◌==◌, ltb, ltb→lt, Bool-cases, if◌then◌else◌,
}
use oaa_s_io_t.Storage.Stats.{u64_mod}
use oaa_s_io_t.Odgm.Events.{
  MutationContext, QueuedEvent, Offered, accepted, refused_full, refused_closed, next_seq, offer,
  settle, bump,
}
use oaa_s_io_t.Odgm.Events.Queue.{System, pull, numbered, offered, settled}

-- The sum of a weight over a list.
abbrev pub sum_by {ℓ} : {A : Type ℓ} → (A → ℕ) → List A → ℕ
sum_by w [] = 0
sum_by w (x ∷ xs) = w x + sum_by w xs

pub sum_by-append {ℓ} :
    {A : Type ℓ} (w : A → ℕ) (xs ys : List A) → sum_by w (xs ++ ys) ≡ sum_by w xs + sum_by w ys
sum_by-append w [] ys = omega arith
sum_by-append w (x ∷ xs) ys = omega (arith, sum_by-append w xs ys)

abbrev pub Pulled {ℓ} : {A : Type ℓ} → (A → ℕ) → Option (A × List A) → ℕ → Type 0
Pulled w none n = Unit
Pulled w (some (x, rest)) n = n ≡ w x + sum_by w rest

-- Taking an element out of a list takes its weight out of the sum.
pub sum_by-pull {ℓ} :
    {A : Type ℓ} (w : A → ℕ) (i : ℕ) (xs : List A) → Pulled w (pull i xs) (sum_by w xs)
sum_by-pull w i [] = tt
sum_by-pull w zero (x ∷ xs) = refl
sum_by-pull w (suc i) (x ∷ xs) = ground (arith, sum_by-pull w i xs)

abbrev pub is_accepted : Offered → ℕ
is_accepted accepted = 1
is_accepted refused_full = 0
is_accepted refused_closed = 0

pub bump_next : (n : ℕ) → n + 1 < u64_mod → bump n ≡ n + 1
bump_next n h = omega arith

module _ {Target : Type 0} where
  -- How often a number occurs: 1 where the event has it.
  abbrev pub is_number : ℕ → QueuedEvent Target → ℕ
  is_number n evt = if evt.seq == n then 1 else 0

  abbrev pub in_hand : (QueuedEvent Target → ℕ) → Option (QueuedEvent Target) → ℕ
  in_hand w none = 0
  in_hand w (some evt) = w evt

  -- The events with the number: broadcast, in the consumer's hand, queued, or about to be offered.
  abbrev pub occurrences : ℕ → System Target → ℕ
  occurrences n s =
      sum_by (is_number n) s.dispatcher.broadcast
      + in_hand (is_number n) s.received
      + sum_by (is_number n) s.dispatcher.queue
      + sum_by (is_number n) s.sending

  abbrev pub one : QueuedEvent Target → ℕ
  one evt = 1

  -- The queue keeps its bound; the counter, with the accepted events that are still to be counted, is
  -- the number of events that are queued or in the consumer's hand, modulo 2^64; and every number below
  -- the next one belongs to at most one event, the others to none.
  pub record IsShared (s : System Target) : Type 0 where
    pub bounded : length s.dispatcher.queue ≤ s.dispatcher.bound
    pub counted :
        (s.dispatcher.queue_len + sum_by is_accepted s.answered) % u64_mod
        ≡ (length s.dispatcher.queue + in_hand one s.received) % u64_mod
    pub once : (n : ℕ) → occurrences n s ≤ (if ltb n s.dispatcher.seq then 1 else 0)
    pub emitted : s.dispatcher.emitted_events < u64_mod

  pub number-IsShared :
      (ctx : MutationContext Target) (s : System Target)
      → s.dispatcher.seq + 1 < u64_mod
      → IsShared s
      → IsShared (numbered ctx s)
  unfolding next_seq
  number-IsShared ctx s b q = record {
    bounded = q.bounded;
    counted = q.counted;
    once = λ n. rw (bump_next s.dispatcher.seq b) (ground (arith, q.once n));
    emitted = q.emitted;
  }

  offer-IsShared :
      (evt : QueuedEvent Target) (others : List (QueuedEvent Target)) (s : System Target)
      → ((n : ℕ) → sum_by (is_number n) s.sending ≡ is_number n evt + sum_by (is_number n) others)
      → IsShared s
      → IsShared (offered (some (evt, others)) s)
  unfolding offer
  offer-IsShared evt others s out q = elim (Bool-cases s.dispatcher.closed) [
    | inl c ↦ rw c record {
      bounded = q.bounded;
      counted = omega (arith, q.counted);
      once = λ n. omega (arith, q.once n, out n);
      emitted = q.emitted;
    }
    | inr c ↦ elim (Bool-cases (ltb (length s.dispatcher.queue) s.dispatcher.bound)) [
      | inl room ↦
          rw (c, room)
            record {
              bounded = omega (arith, ltb→lt, length-append s.dispatcher.queue);
              counted = omega (arith, length-append s.dispatcher.queue (evt ∷ []), q.counted);
              once = λ n. omega (
                arith,
                q.once n,
                out n,
                sum_by-append (is_number n) s.dispatcher.queue (evt ∷ []),
              );
              emitted = q.emitted;
            }
      | inr full ↦
          rw (c, full)
            record {
              bounded = q.bounded;
              counted = omega (arith, q.counted);
              once = λ n. omega (arith, q.once n, out n);
              emitted = q.emitted;
            }
    ]
  ]

  settle-IsShared :
      (answer : Offered) (others : List Offered) (s : System Target)
      → sum_by is_accepted s.answered ≡ is_accepted answer + sum_by is_accepted others
      → IsShared s
      → IsShared (settled (some (answer, others)) s)
  unfolding settle
  settle-IsShared accepted others s out q = record {
    bounded = q.bounded;
    counted = omega (arith, q.counted, out);
    once = q.once;
    emitted = q.emitted;
  }
  settle-IsShared refused_full others s out q = record {
    bounded = q.bounded;
    counted = omega (arith, q.counted, out);
    once = q.once;
    emitted = q.emitted;
  }
  settle-IsShared refused_closed others s out q = record {
    bounded = q.bounded;
    counted = omega (arith, q.counted, out);
    once = q.once;
    emitted = q.emitted;
  }

  pub offered-IsShared :
      (p : Option (QueuedEvent Target × List (QueuedEvent Target))) (s : System Target)
      → ((n : ℕ) → Pulled (is_number n) p (sum_by (is_number n) s.sending))
      → IsShared s
      → IsShared (offered p s)
  offered-IsShared none s out q = q
  offered-IsShared (some (evt, others)) s out q = offer-IsShared evt others s out q

  pub settled-IsShared :
      (p : Option (Offered × List Offered)) (s : System Target)
      → Pulled is_accepted p (sum_by is_accepted s.answered)
      → IsShared s
      → IsShared (settled p s)
  settled-IsShared none s out q = q
  settled-IsShared (some (answer, others)) s out q = settle-IsShared answer others s out q
