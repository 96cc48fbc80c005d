-- ===== src/Chain/Tests.antt =====
-- A run of the test chain in which one file goes all the way, and the theorems on it.
use boilerplate_thread_messa.Prelude.{
  ℕ, ◌+◌, List, ◌≤◌, ◌≡◌, refl, false, some, [], ◌∷◌, ◌++◌, length, arith,
}
use boilerplate_thread_messa.CondVar.{timed_out, wait_for}
use boilerplate_thread_messa.RingBuffer.{init, pop, empty}
use boilerplate_thread_messa.RingBuffer.Wait.{wake_pred, after_wait, wait_pop_for}
use boilerplate_thread_messa.Manager.{default_command, new_command_buffer}
use boilerplate_thread_messa.Observer
use boilerplate_thread_messa.Observer.{
  Readings, emit_file, emit_direct, set_next, set_direct_to_processing,
}
use boilerplate_thread_messa.Chain.Flow.{
  Chain, waits, observes, sends_direct, moved, app_takes, app_works, processing_takes,
  processing_works, fresh, Reach, here, later,
}
use boilerplate_thread_messa.Chain.Works.{names_printed}
use boilerplate_thread_messa.Chain.Delivery.{under_way, file_names}
use boilerplate_thread_messa.Chain.Once.{
  name_of, occurrences, sessions_with, makes, printed_once_a_session,
}
use boilerplate_thread_messa.Chain.Mirrors.{mirrors_pile_up}
use boilerplate_thread_messa.Chain.Progress.{Moved, work, sessions_drain}
use boilerplate_thread_messa.Chain.Sessions.{
  Life, steps, restarts, all_names, Reach-Life, sessions_lose_nothing,
}

abbrev AnyReached : Type 0
AnyReached = (s : Chain) × Reach fresh s

abbrev clock : Readings
clock = record { at_command = 1000; at_stress = 1001; at_pause = 1002; at_stamp = 1003 }

-- The first wait ends by its timeout.
no_command :
    wait_pop_for default_command (timed_out [] ∷ []) new_command_buffer
    ≡ some (false, default_command, new_command_buffer)
unfolding wait_pop_for wait_for after_wait wake_pred init empty pop
no_command = refl

-- The first file is with the processing task, which has taken the direct event first and dropped
-- it; its mirror event is in the queue of the event maker.
one_event : AnyReached
unfolding set_next set_direct_to_processing Observer.until_file
one_event = (
  _,
  later
      (later
        (later
          (later
            (later
              (later
                (later
                  (later here (
                    waits (timed_out [] ∷ []) false default_command new_command_buffer refl refl
                      no_command))
                  (observes clock (false, default_command) refl))
                (moved (app_takes refl)))
              (sends_direct refl))
            (moved app_works))
          (moved (processing_takes refl)))
        (moved processing_works))
      (moved (processing_takes refl)),
)

abbrev AnyLife : List ℕ → Type 0
AnyLife ns = (s : Chain) × Life ns s

-- A restart while the first file is on its way, and then the first file of the second session.
two_sessions : AnyLife (1 ∷ [])
unfolding set_next set_direct_to_processing one_event Observer.until_file init emit_file emit_direct
two_sessions = (
  _,
  steps
      (steps
        (restarts (steps (Reach-Life one_event.1) (moved processing_works)) (record {
          incoming_idle = refl;
          direct_sent = refl;
          app_idle = refl;
          processing_idle = refl;
          transformation_idle = refl;
          result_idle = refl;
        }))
        (waits (timed_out [] ∷ []) false default_command new_command_buffer refl refl no_command))
      (observes clock (false, default_command) refl),
)

sessions_lose_nothing_example :
    names_printed two_sessions.0.world ++ under_way two_sessions.0
    ≡ all_names (1 ∷ []) ++ file_names two_sessions.0.incoming.count
sessions_lose_nothing_example = sessions_lose_nothing two_sessions.1

mirrors_pile_up_example : length (one_event.0.world.queues 0) ≡ one_event.0.app.mirror_counter
mirrors_pile_up_example = mirrors_pile_up one_event.1

sessions_drain_example :
    (n : ℕ) × (t : Chain) × Moved n two_sessions.0 t
    × (n ≤ work two_sessions.0)
    × (names_printed t.world ≡ all_names (1 ∷ []) ++ file_names two_sessions.0.incoming.count)
sessions_drain_example = sessions_drain two_sessions.1

printed_once_a_session_example :
    occurrences (name_of 1) (names_printed two_sessions.0.world ++ under_way two_sessions.0)
    ≡ sessions_with 1 (1 ∷ []) + makes 1 two_sessions.0.incoming.count
printed_once_a_session_example = printed_once_a_session 1 two_sessions.1 (omega arith)
