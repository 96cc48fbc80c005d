-- ===== src/Observer/Tests.antt =====
-- Examples of the theorems on the event maker of src/include/testThreads.hpp.
use boilerplate_thread_messa.Prelude.{
  ℕ, ◌+◌, ◌≡◌, refl, inl, true, false, some, List, [], ◌∷◌, ◌++◌, ◌≤◌, length, map, arith,
}
use boilerplate_thread_messa.CondVar.{woken, timed_out}
use boilerplate_thread_messa.Manager.{new_manager}
use boilerplate_thread_messa.Observer.Commands.{
  Event, tells, serves, History, history, pending, commands_of, clocks_of, commands_in_order,
}
use boilerplate_thread_messa.Events.{ObserverCommand, stop_observing, stress_mode}
use boilerplate_thread_messa.Events.Payloads.{Message}
use boilerplate_thread_messa.Messaging.Endpoint.{World}
use boilerplate_thread_messa.Observer.{new_observer, normal, stress}
use boilerplate_thread_messa.Observer.Effects.{settings_of, obey_all}
use boilerplate_thread_messa.Observer.Stress.{stress_lem}
use boilerplate_thread_messa.Observer.Modes.{Round, one, rounds, pause_lem}

abbrev world : World Message ℕ
world = record { queues = λ j. []; cerr = []; state = 0 }

-- A round whose four readings are `t` and the next three nanoseconds.
abbrev quiet_at : ℕ → Round
quiet_at t = record {
  clock = record { at_command = t; at_stress = t + 1; at_pause = t + 2; at_stamp = t + 3 };
  got = false;
  cmd = record { type = stop_observing; duration_sec = 0 };
}

abbrev stop_at : ℕ → Round
stop_at t = record (quiet_at t) {
  got = true;
  cmd = record { type = stop_observing; duration_sec = 60 };
}

abbrev stress_at : ℕ → Round
stress_at t = record (quiet_at t) {
  got = true;
  cmd = record { type = stress_mode; duration_sec = 0 };
}

pause_lem_example :
    let (o, w) =
      rounds (stop_at 5 ∷ quiet_at 100 ∷ quiet_at 59_000_000_000 ∷ []) new_observer world in
    (o.count ≡ 0) × (w ≡ world)
pause_lem_example =
    pause_lem (stop_at 5) (quiet_at 100 ∷ quiet_at 59_000_000_000 ∷ []) new_observer world refl
      (inl refl) (omega arith) ((inl refl, omega arith), ((inl refl, omega arith), tt))

abbrev stress_key : ObserverCommand
stress_key = record { type = stress_mode; duration_sec = 0 }

abbrev pause_key : ObserverCommand
pause_key = record { type = stop_observing; duration_sec = 60 }

-- Two commands before a round, and one while the task waits.
abbrev keys : List Event
keys =
    tells stress_key
    ∷ tells pause_key
    ∷ serves (timed_out [] ∷ []) (quiet_at 5).clock
    ∷ serves (woken (stress_key ∷ []) ∷ timed_out [] ∷ []) (quiet_at 9).clock
    ∷ serves (timed_out (stress_key ∷ []) ∷ []) (quiet_at 13).clock
    ∷ []

commands_in_order_example :
    (h : History ℕ) × (history new_manager keys new_observer world ≡ some h)
    × (h.accepted ≡ commands_of h.served ++ pending h.observer)
    × (length (pending h.observer) ≤ 7)
    × (map (λ r. r.clock) h.served ≡ clocks_of keys)
    × (settings_of h.observer ≡ obey_all h.served (settings_of new_observer))
commands_in_order_example = commands_in_order new_manager keys world (tt, (tt, (tt, tt)))

stress_lem_example :
    let (o1, w1) = rounds (stress_at 5 ∷ quiet_at 10_000_000 ∷ []) new_observer world in
    let o2 = (one (quiet_at 30_000_000_005) o1 w1).0 in
    (o1.m_mode ≡ stress) × (o1.m_interval ≡ 10) × (o2.m_mode ≡ normal) × (o2.m_interval ≡ 2000)
stress_lem_example =
    stress_lem (stress_at 5) (quiet_at 30_000_000_005) (quiet_at 10_000_000 ∷ []) new_observer world
      refl refl (omega arith) ((inl refl, omega arith), tt) (inl refl) (omega arith)
