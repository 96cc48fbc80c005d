-- ===== src/SafeQueue/Tests.antt =====
-- Runs of the queue of src/include/threading/threadSafeQueue.hpp, and examples of its theorems.
use boilerplate_thread_messa.Prelude.{ℕ, ◌+◌, ◌≤◌, ◌≡◌, refl, length, arith, true, false, [], ◌∷◌}
use boilerplate_thread_messa.SafeQueue.{push}
use boilerplate_thread_messa.SafeQueue.Wakeups.{
  Traffic, Unpushed, here, later, store, fall_asleep, stops, leave_at_once, no_lost_value,
  stop_wakes_nobody,
}

-- One consumer sleeps, and then a value comes.
abbrev asleep_one : Traffic ℕ
asleep_one = record { queue = []; stop = false; notices = 0; asleep = 1; awake = 0 }

abbrev stored : Traffic ℕ
stored = record asleep_one { queue = 5 ∷ []; notices = 1 }

no_lost_value_example : length stored.queue ≤ stored.notices + stored.awake
unfolding push
no_lost_value_example =
    no_lost_value [] false {s = stored} (later (later here (fall_asleep refl refl)) (store 5))
      (omega arith)

-- The predicate turns true, and another consumer comes and goes.
stop_wakes_nobody_example : (1 ≤ (record asleep_one { stop = true }).asleep) × (◌≡◌ {A = ℕ} 0 0)
stop_wakes_nobody_example =
    stop_wakes_nobody {s = asleep_one} {t = record asleep_one { stop = true }}
      (Unpushed.later (Unpushed.later Unpushed.here (stops true) tt) (leave_at_once refl refl) tt)
      refl
