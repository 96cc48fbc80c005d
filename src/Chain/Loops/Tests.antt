-- ===== src/Chain/Loops/Tests.antt =====
-- A run of the loops of src/include/testThreads.hpp to their end.
use boilerplate_thread_messa.Prelude.{ℕ, ◌≡◌, Bool, true, false, some, List, [], ◌∷◌, arith}
use boilerplate_thread_messa.CondVar.{Wake, woken, timed_out}
use boilerplate_thread_messa.RingBuffer.{init, uninitialized}
use boilerplate_thread_messa.RingBuffer.Invariant.{IsReady, init-IsReady}
use boilerplate_thread_messa.Messaging.Queue.{pushes}
use boilerplate_thread_messa.Events.{ObserverCommand}
use boilerplate_thread_messa.Events.Payloads.{direct_event}
use boilerplate_thread_messa.Manager.{default_command, new_command_buffer}
use boilerplate_thread_messa.Observer.{Observer, Readings, set_next, set_direct_to_processing}
use boilerplate_thread_messa.Chain.{
  AppObserver, ChainWorld, linked_incoming, linked_app, processing_next,
}
use boilerplate_thread_messa.Chain.Flow.{fresh}
use boilerplate_thread_messa.Chain.Loops.{
  ended, Passed, before_stop, Wakes, incoming_pass, app_pass, processing_pass, transformation_pass,
  result_pass, run_incoming, run_app, run_processing, run_transformation, run_result,
}
use boilerplate_thread_messa.Chain.Loops.Ends.{stop_ends_loops}

abbrev clock : Readings
clock = record { at_command = 1000; at_stress = 1001; at_pause = 1002; at_stamp = 1003 }

-- One round, and then the stop.
abbrev rounds : List (Bool × (List (Wake ObserverCommand) × Readings))
rounds = (false, (timed_out [] ∷ [], clock)) ∷ (true, ([], clock)) ∷ []

abbrev some_wakes : Wakes
some_wakes = woken (pushes (some (direct_event (record { counter = 1 }))) ∷ []) ∷ timed_out [] ∷ []

abbrev passes : List (Bool × Wakes)
passes = (false, some_wakes) ∷ (false, timed_out [] ∷ []) ∷ (true, []) ∷ []

abbrev results : List (Bool × (Wakes × ℕ))
results = (false, (timed_out [] ∷ [], 7)) ∷ (true, ([], 8)) ∷ []

buffer_ready : IsReady new_command_buffer 3
buffer_ready = (init-IsReady default_command 3 uninitialized (omega arith)).1

stop_ends_loops_example :
    ((t : Observer × ChainWorld) × (run_incoming rounds linked_incoming fresh.world ≡ ended t)
      × Passed incoming_pass
          (before_stop rounds)
          (record linked_incoming { count = 0 }, fresh.world)
          t)
    × ((t : AppObserver × ChainWorld) × (run_app passes linked_app fresh.world ≡ ended t)
        × Passed app_pass
            (before_stop passes)
            (record linked_app { mirror_counter = 0 }, fresh.world)
            t)
    × ((t : ChainWorld) × (run_processing passes processing_next fresh.world ≡ ended t)
        × Passed (processing_pass processing_next) (before_stop passes) fresh.world t)
    × ((t : ChainWorld) × (run_transformation passes processing_next fresh.world ≡ ended t)
        × Passed (transformation_pass processing_next) (before_stop passes) fresh.world t)
    × ((t : ChainWorld) × (run_result results fresh.world ≡ ended t)
        × Passed result_pass (before_stop results) fresh.world t)
unfolding set_direct_to_processing init set_next
stop_ends_loops_example =
    stop_ends_loops linked_incoming linked_app processing_next fresh.world rounds passes results
      buffer_ready (tt, tt) (tt, (tt, tt)) (tt, tt)
