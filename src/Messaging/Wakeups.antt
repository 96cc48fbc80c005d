-- ===== src/Messaging/Wakeups.antt =====
-- src/include/messaging/messageQueue.hpp with any number of producers and consumers: `push` stores
-- under the mutex and calls `notify_one` after it has released it, and a waiting consumer tests
-- and falls asleep in one step under the mutex.
use boilerplate_thread_messa.Prelude.{
  ℕ, ◌+◌, ◌-◌, ◌≤◌, ◌<◌, ◌≡◌, refl, ◌⊎◌, inl, inr, true, false, [], ◌∷◌, length, length-append,
  arith,
}
use boilerplate_thread_messa.Messaging.Message.{SharedPtr}
use boilerplate_thread_messa.Messaging.Queue.{MessageQueue, push_ptr, try_pop, pop, clear, has_item}

-- `notices` counts the pushes that have stored and not yet notified; `awake` the consumers that
-- were woken and have not yet tested again.
pub record Traffic {ℓ} (M : Type ℓ) : Type ℓ where
  pub queue : MessageQueue M
  pub notices : ℕ
  pub asleep : ℕ
  pub awake : ℕ

pub data Step {ℓ} {M : Type ℓ} (s : Traffic M) : Traffic M → Type ℓ where
  store :
      (p : SharedPtr M) → Step s (record s { queue = push_ptr p s.queue; notices = s.notices + 1 })
  notify_nobody : 0 < s.notices → s.asleep ≡ 0 → Step s (record s { notices = s.notices - 1 })
  notify_one :
      0 < s.notices
      → 0 < s.asleep
      → Step s (record s { notices = s.notices - 1; asleep = s.asleep - 1; awake = s.awake + 1 })
  -- A consumer that begins a wait.
  take_at_once : has_item s.queue ≡ true → Step s (record s { queue = (pop s.queue).1 })
  fall_asleep : has_item s.queue ≡ false → Step s (record s { asleep = s.asleep + 1 })
  -- A spurious wake, or the timeout of `wait_for`.
  wake_up : 0 < s.asleep → Step s (record s { asleep = s.asleep - 1; awake = s.awake + 1 })
  -- A woken consumer tests again; after a timeout it may give up where there is nothing.
  take_awake :
      0 < s.awake
      → has_item s.queue ≡ true
      → Step s (record s { queue = (pop s.queue).1; awake = s.awake - 1 })
  sleep_again :
      0 < s.awake
      → has_item s.queue ≡ false
      → Step s (record s { asleep = s.asleep + 1; awake = s.awake - 1 })
  give_up : 0 < s.awake → has_item s.queue ≡ false → Step s (record s { awake = s.awake - 1 })
  take_without_waiting : Step s (record s { queue = (try_pop s.queue).1 })
  clear_all : Step s (record s { queue = clear s.queue })

abbrev pub quiet {ℓ} : {M : Type ℓ} → MessageQueue M → Traffic M
quiet q = record { queue = q; notices = 0; asleep = 0; awake = 0 }

pub data Reach {ℓ} {M : Type ℓ} (s : Traffic M) : Traffic M → Type ℓ where
  here : Reach s s
  later : {t u : Traffic M} → Reach s t → Step t u → Reach s u

-- While someone sleeps, each message has a notification or a woken consumer to its name.
pub record Covered {ℓ} {M : Type ℓ} (s : Traffic M) : Type 0 where
  pub covered : (s.asleep ≡ 0) ⊎ (length s.queue ≤ s.notices + s.awake)

module _ {ℓ} {M : Type ℓ} where
  pub length-pop : (q : MessageQueue M) → length (pop q).1 ≡ length q - 1
  unfolding pop
  length-pop [] = omega arith
  length-pop (p ∷ q) = omega arith

  length-push_ptr : (p : SharedPtr M) (q : MessageQueue M) → length (push_ptr p q) ≡ length q + 1
  unfolding push_ptr
  length-push_ptr p q = length-append q (p ∷ [])

  length_of_no_item : (q : MessageQueue M) → has_item q ≡ false → length q ≡ 0
  length_of_no_item [] h = refl
  length_of_no_item (p ∷ q) h = cc

  length_of_item : (q : MessageQueue M) → has_item q ≡ true → 0 < length q
  length_of_item [] h = cc
  length_of_item (p ∷ q) h = omega arith

  Step-Covered : {s t : Traffic M} → Step s t → Covered s → Covered t
  unfolding clear try_pop
  Step-Covered {s} (store p) c = record {
    covered = ground (arith, c.covered, length-push_ptr p s.queue);
  }
  Step-Covered (notify_nobody n a) c = record { covered = inl a }
  Step-Covered (notify_one n a) c = record { covered = ground (arith, c.covered) }
  Step-Covered {s} (take_at_once h) c = record {
    covered = ground (arith, c.covered, length-pop s.queue);
  }
  Step-Covered {s} (fall_asleep h) c = record {
    covered = inr (omega (arith, length_of_no_item s.queue h));
  }
  Step-Covered (wake_up a) c = record { covered = ground (arith, c.covered) }
  Step-Covered {s} (take_awake a h) c = record {
    covered = ground (arith, c.covered, length-pop s.queue, length_of_item s.queue h);
  }
  Step-Covered {s} (sleep_again a h) c = record {
    covered = inr (omega (arith, length_of_no_item s.queue h));
  }
  Step-Covered {s} (give_up a h) c = record {
    covered = inr (omega (arith, length_of_no_item s.queue h));
  }
  Step-Covered {s} take_without_waiting c = record {
    covered = ground (arith, c.covered, length-pop s.queue);
  }
  Step-Covered clear_all c = record { covered = inr (omega arith) }

  Reach-Covered : {s t : Traffic M} → Covered s → Reach s t → Covered t
  Reach-Covered c here = c
  Reach-Covered c (later r st) = Step-Covered st (Reach-Covered c r)

  -- No wake-up is lost. From any queue at which nobody waits yet, whatever producers and consumers
  -- have done: while a consumer sleeps, the messages in the queue are no more than the pushes that
  -- are still to notify and the woken consumers that are still to test.
  pub no_lost_wakeup :
      (q : MessageQueue M) {s : Traffic M}
      → Reach (quiet q) s
      → 0 < s.asleep
      → length s.queue ≤ s.notices + s.awake
  no_lost_wakeup q r h = ground (arith, (Reach-Covered (record { covered = inl refl }) r).covered)
