-- ===== src/SafeQueue/Wakeups.antt =====
-- src/include/threading/threadSafeQueue.hpp with any number of producers and of consumers in
-- `waitPop`. `push` stores under the mutex and calls `notify_one` after it has released it; a
-- consumer tests and falls asleep in one step under the mutex. No other method notifies.
use boilerplate_thread_messa.Prelude.{
  ℕ, ◌+◌, ◌-◌, ◌≤◌, ◌<◌, ◌≡◌, refl, ◌⊎◌, inl, inr, Bool, true, false, List, [], ◌∷◌, length,
  length-append, is_empty, arith,
}
use boilerplate_thread_messa.SafeQueue.{push, try_pop}

-- `notices` counts the pushes that have stored and not yet notified, `asleep` the consumers that
-- sleep, `awake` those that were woken and have not yet tested again; `stop` is what the stop
-- predicate says.
pub record Traffic {ℓ} (T : Type ℓ) : Type ℓ where
  pub queue : List T
  pub stop : Bool
  pub notices : ℕ
  pub asleep : ℕ
  pub awake : ℕ

pub data Step {ℓ} {T : Type ℓ} (s : Traffic T) : Traffic T → Type ℓ where
  store : (x : T) → Step s (record s { queue = push x s.queue; notices = s.notices + 1 })
  notify_nobody : 0 < s.notices → s.asleep ≡ 0 → Step s (record s { notices = s.notices - 1 })
  notify_one :
      0 < s.notices
      → 0 < s.asleep
      → Step s (record s { notices = s.notices - 1; asleep = s.asleep - 1; awake = s.awake + 1 })
  stops : (b : Bool) → Step s (record s { stop = b })
  -- A consumer that begins `waitPop`.
  take_at_once : is_empty s.queue ≡ false → Step s (record s { queue = (try_pop s.queue).1 })
  leave_at_once : is_empty s.queue ≡ true → s.stop ≡ true → Step s s
  fall_asleep :
      is_empty s.queue ≡ true → s.stop ≡ false → Step s (record s { asleep = s.asleep + 1 })
  -- A spurious wake.
  wake_up : 0 < s.asleep → Step s (record s { asleep = s.asleep - 1; awake = s.awake + 1 })
  -- A woken consumer tests again.
  take_awake :
      0 < s.awake
      → is_empty s.queue ≡ false
      → Step s (record s { queue = (try_pop s.queue).1; awake = s.awake - 1 })
  leave_awake :
      0 < s.awake
      → is_empty s.queue ≡ true
      → s.stop ≡ true
      → Step s (record s { awake = s.awake - 1 })
  sleep_again :
      0 < s.awake
      → is_empty s.queue ≡ true
      → s.stop ≡ false
      → Step s (record s { asleep = s.asleep + 1; awake = s.awake - 1 })
  take_without_waiting : Step s (record s { queue = (try_pop s.queue).1 })

abbrev pub quiet {ℓ} : {T : Type ℓ} → List T → Bool → Traffic T
quiet q stop = record { queue = q; stop = stop; notices = 0; asleep = 0; awake = 0 }

pub data Reach {ℓ} {T : Type ℓ} (s : Traffic T) : Traffic T → Type ℓ where
  here : Reach s s
  later : {t u : Traffic T} → Reach s t → Step t u → Reach s u

-- While someone sleeps, each value has a notification or a woken consumer to its name.
record Covered {ℓ} {T : Type ℓ} (s : Traffic T) : Type 0 where
  covered : (s.asleep ≡ 0) ⊎ (length s.queue ≤ s.notices + s.awake)

module _ {ℓ} {T : Type ℓ} where
  length-try_pop : (q : List T) → length (try_pop q).1 ≡ length q - 1
  unfolding try_pop
  length-try_pop [] = omega arith
  length-try_pop (x ∷ q) = omega arith

  length-push : (x : T) (q : List T) → length (push x q) ≡ length q + 1
  unfolding push
  length-push x q = length-append q (x ∷ [])

  length_of_empty : (q : List T) → is_empty q ≡ true → length q ≡ 0
  length_of_empty [] h = refl
  length_of_empty (x ∷ q) h = cc

  length_of_full : (q : List T) → is_empty q ≡ false → 0 < length q
  length_of_full [] h = cc
  length_of_full (x ∷ q) h = omega arith

  Step-Covered : {s t : Traffic T} → Step s t → Covered s → Covered t
  Step-Covered {s} (store x) c = record {
    covered = ground (arith, c.covered, length-push x s.queue);
  }
  Step-Covered (notify_nobody n a) c = record { covered = inl a }
  Step-Covered (notify_one n a) c = record { covered = ground (arith, c.covered) }
  Step-Covered (stops b) c = record { covered = c.covered }
  Step-Covered {s} (take_at_once h) c = record {
    covered = ground (arith, c.covered, length-try_pop s.queue);
  }
  Step-Covered (leave_at_once h g) c = c
  Step-Covered {s} (fall_asleep h g) c = record {
    covered = inr (omega (arith, length_of_empty s.queue h));
  }
  Step-Covered (wake_up a) c = record { covered = ground (arith, c.covered) }
  Step-Covered {s} (take_awake a h) c = record {
    covered = ground (arith, c.covered, length-try_pop s.queue, length_of_full s.queue h);
  }
  Step-Covered {s} (leave_awake a h g) c = record {
    covered = inr (omega (arith, length_of_empty s.queue h));
  }
  Step-Covered {s} (sleep_again a h g) c = record {
    covered = inr (omega (arith, length_of_empty s.queue h));
  }
  Step-Covered {s} take_without_waiting c = record {
    covered = ground (arith, c.covered, length-try_pop s.queue);
  }

  Reach-Covered : {s t : Traffic T} → Covered s → Reach s t → Covered t
  Reach-Covered c here = c
  Reach-Covered c (later r st) = Step-Covered st (Reach-Covered c r)

  -- No wake-up for a value is lost. From any queue at which nobody waits yet, whatever producers and
  -- consumers have done: while a consumer sleeps in `waitPop`, the values in the queue are no more
  -- than the pushes that are still to notify and the woken consumers that are still to test.
  pub no_lost_value :
      (q : List T) (stop : Bool) {s : Traffic T}
      → Reach (quiet q stop) s
      → 0 < s.asleep
      → length s.queue ≤ s.notices + s.awake
  no_lost_value q stop r h =
      ground (arith, (Reach-Covered (record { covered = inl refl }) r).covered)

-- A step that neither pushes nor wakes a thread for no reason.
abbrev pub IsUnpushed {ℓ} : {T : Type ℓ} {s t : Traffic T} → Step s t → Type 0
IsUnpushed (store x) = ⊥
IsUnpushed (wake_up a) = ⊥
IsUnpushed _ = Unit

pub data Unpushed {ℓ} {T : Type ℓ} (s : Traffic T) : Traffic T → Type ℓ where
  here : Unpushed s s
  later : {t u : Traffic T} → Unpushed s t → (st : Step t u) → IsUnpushed st → Unpushed s u

module _ {ℓ} {T : Type ℓ} where
  still_asleep :
      {s t : Traffic T} (st : Step s t)
      → IsUnpushed st
      → s.notices ≡ 0
      → (s.asleep ≤ t.asleep) × (t.notices ≡ 0)
  still_asleep (store x) h e = absurd h
  still_asleep (notify_nobody n a) h e = absurd (omega arith)
  still_asleep (notify_one n a) h e = absurd (omega arith)
  still_asleep (stops b) h e = (omega arith, e)
  still_asleep (take_at_once g) h e = (omega arith, e)
  still_asleep (leave_at_once g f) h e = (omega arith, e)
  still_asleep (fall_asleep g f) h e = (omega arith, e)
  still_asleep (wake_up a) h e = absurd h
  still_asleep (take_awake a g) h e = (omega arith, e)
  still_asleep (leave_awake a g f) h e = (omega arith, e)
  still_asleep (sleep_again a g f) h e = (omega arith, e)
  still_asleep take_without_waiting h e = (omega arith, e)

  -- A stop wakes nobody. In every run from a state with no notification to come, in which there is
  -- no push and no spurious wake, the number of consumers that sleep in `waitPop` never falls and no
  -- notification comes up, whatever the stop predicate becomes.
  pub stop_wakes_nobody :
      {s t : Traffic T} → Unpushed s t → s.notices ≡ 0 → (s.asleep ≤ t.asleep) × (t.notices ≡ 0)
  stop_wakes_nobody Unpushed.here e = (omega arith, e)
  stop_wakes_nobody (Unpushed.later r st h) e =
      let (more, none_to_come) = stop_wakes_nobody r e in
      let (still, none_now) = still_asleep st h none_to_come in
      (omega (arith, more, still), none_now)
