-- ===== src/Program/Tests.antt =====
-- Examples of the theorems on the main loop of src/src/main.cpp.
use boilerplate_thread_messa.Prelude.{
  ℕ, ◌+◌, List, ◌≡◌, ◌≢◌, refl, true, false, none, some, [], ◌∷◌, arith, inl,
}
use boilerplate_thread_messa.Worker.{Worker, start}
use boilerplate_thread_messa.Daemon.{State, Daemon, new_daemon, k_exit_signal}
use boilerplate_thread_messa.Daemon.Interrupts.{no_gaps}
use boilerplate_thread_messa.Events.{ObserverCommand}
use boilerplate_thread_messa.Manager.{
  all_spawn, Manager, add_task, new_manager, chain_task, get_thread_count,
}
use boilerplate_thread_messa.Manager.Cycle.{Each, IsLive, IsManaged}
use boilerplate_thread_messa.Program.{Turn, in_loop, hung, main_loop}
use boilerplate_thread_messa.Prelude.Text.{text}
use boilerplate_thread_messa.Daemon.Background.{System, child}
use boilerplate_thread_messa.Program.CommandLine.{
  letter_d, letter_v, long_help, exited, process_command_line, process_command_line_lem,
}
use boilerplate_thread_messa.Program.Main.{main, never_ends, new_program}
use boilerplate_thread_messa.Program.Leaving.{IsSettled, IsEnded}
use boilerplate_thread_messa.Program.Ending.{main_settles, main_ends, late_request_ends_main}
use boilerplate_thread_messa.Program.Stuck.{restart_and_quit_never_end}
use boilerplate_thread_messa.Observer.Modes.{rounds}
use boilerplate_thread_messa.Program.Keys.{
  CommandKey, key_p, key_o, key_x, key_n, Press, take, turns, as_rounds, run_rounds, keep_buffer,
  keys_take_effect,
}
use boilerplate_thread_messa.RingBuffer.{SpScRingBuffer, init, uninitialized}
use boilerplate_thread_messa.RingBuffer.Invariant.{IsReady, init-IsReady}
use boilerplate_thread_messa.RingBuffer.Span.{contents}
use boilerplate_thread_messa.Manager.{new_command_buffer, default_command, init_test_chain}
use boilerplate_thread_messa.Messaging.Endpoint.{World}
use boilerplate_thread_messa.Events.Payloads.{Message}
use boilerplate_thread_messa.Observer.{Readings, new_observer}
use boilerplate_thread_messa.Program.Console.{
  pressed, stop_and_restart_keys, restart_and_stop_keys_hang,
}

abbrev serving : Daemon Manager
serving = record new_daemon { state = State.running }

abbrev task : Worker
task = record (chain_task 0) {
  m_running = true;
  m_thread = record {
    joinable = true;
    requested = false;
    external_token = some 0;
    returned = false;
  };
}

abbrev one_task : Manager
one_task = record new_manager { m_tasks = task ∷ [] }

one_task-IsManaged : IsManaged one_task
one_task-IsManaged = record {
  tasks = (
    record {
      sound = record { live = λ e. (refl, refl); dead = λ e. cc; heeds = refl };
      ready = refl;
      linked = λ e. refl;
    },
    tt,
  );
  created = omega arith;
  untouched = λ i h. refl;
}

stop_and_restart_keys_example :
    (m : Manager) × (main_loop all_spawn false
        (pressed b's' ∷ pressed b'r' ∷ [])
        (record { daemon = serving; manager = one_task })
      ≡ in_loop (record { daemon = serving; manager = m }))
    × Each (IsLive m.m_stop_source) m.m_tasks
    × (get_thread_count m ≡ get_thread_count one_task)
    × (m.sources m.m_stop_source ≡ false)
    × (m.m_stop_source ≢ one_task.m_stop_source)
    × IsManaged m
stop_and_restart_keys_example = stop_and_restart_keys serving one_task refl one_task-IsManaged

restart_and_stop_keys_hang_example :
    main_loop all_spawn false
      (pressed b'r' ∷ pressed b's' ∷ pressed b'q' ∷ [])
      (record { daemon = serving; manager = one_task })
    ≡ hung
restart_and_stop_keys_hang_example =
    restart_and_stop_keys_hang all_spawn serving one_task [] [] task (pressed b'q' ∷ []) refl refl
      (record {
        runs = refl;
        open_thread = refl;
        not_returned = refl;
        not_asked = refl;
        token = refl;
      })
      refl refl (omega arith)

abbrev interrupted : Turn
interrupted = record { signals = k_exit_signal ∷ []; during = no_gaps; key = none }

abbrev late_hang_up : Turn
late_hang_up = record { signals = []; during = record no_gaps { at_answer = 1 ∷ [] }; key = none }

abbrev host : System
host = record {
  getpid = 41;
  forked = child;
  setsid_ok = true;
  chdir_ok = true;
  opens = λ name. true;
}

process_command_line_lem_example :
    (process_command_line (text "bin") (letter_d ∷ long_help ∷ letter_v ∷ []) false).1 ≡ exited 0
process_command_line_lem_example =
    process_command_line_lem (text "bin") (letter_d ∷ long_help ∷ letter_v ∷ []) false

main_settles_example : IsSettled (
    main all_spawn
      (pressed b's' ∷ pressed b'r' ∷ pressed b'p' ∷ [])
      host
      (text "bin")
      (long_help ∷ [])
      new_program)
main_settles_example =
    main_settles all_spawn (pressed b's' ∷ pressed b'r' ∷ pressed b'p' ∷ []) host (text "bin")
      (long_help ∷ []) (λ g. (λ e. cc, (λ e. refl, (λ e. cc, tt))))

main_ends_example : IsEnded (
    main all_spawn
      (pressed b's' ∷ pressed b'r' ∷ pressed b'q' ∷ interrupted ∷ [])
      host
      (text "bin")
      []
      new_program)
main_ends_example =
    main_ends all_spawn (pressed b's' ∷ pressed b'r' ∷ []) (pressed b'q') interrupted [] host
      (text "bin") [] refl (λ e. cc, (λ e. refl, tt)) refl
      ((λ e. omega arith, λ e. omega arith, λ e. omega arith), tt) (tt, tt)

late_request_ends_main_example :
    IsEnded (main all_spawn (pressed b'p' ∷ late_hang_up ∷ []) host (text "bin") [] new_program)
late_request_ends_main_example =
    late_request_ends_main all_spawn (pressed b'p' ∷ []) late_hang_up [] [] 1 host (text "bin") []
      refl (λ e. cc, tt) refl (inl refl)

restart_and_quit_never_end_example :
    main all_spawn (pressed b'r' ∷ pressed b'q' ∷ interrupted ∷ []) host (text "bin") [] new_program
    ≡ never_ends
unfolding process_command_line
restart_and_quit_never_end_example =
    restart_and_quit_never_end interrupted []
      ((λ e. omega arith, λ e. omega arith, λ e. omega arith), tt) (tt, tt) host (text "bin") []
      refl

abbrev tick : ℕ → Readings
tick t = record { at_command = t; at_stress = t + 1; at_pause = t + 2; at_stamp = t + 3 }

abbrev press : CommandKey → ℕ → Press
press k t = record { key = k; clock = tick t }

-- Eight keys, on the manager and the event maker as `main` has made them.
abbrev presses : List Press
presses =
    press key_x 5
    ∷ press key_p 10_000_000
    ∷ press key_o 20_000_000
    ∷ press key_n 30_000_000
    ∷ press key_x 40_000_000
    ∷ press key_x 50_000_000
    ∷ press key_n 60_000_000
    ∷ press key_p 70_000_000
    ∷ []

abbrev no_messages : World Message ℕ
no_messages = record { queues = λ j. []; cerr = []; state = 0 }

new_command_buffer-IsReady : IsReady new_command_buffer 3
new_command_buffer-IsReady = (init-IsReady default_command 3 uninitialized (omega arith)).1

keys_take_effect_example :
    (m' : Manager) × (r r' : SpScRingBuffer ObserverCommand) × (main_loop all_spawn false
        (turns presses)
        (record { daemon = serving; manager = init_test_chain all_spawn new_manager })
      ≡ in_loop (record { daemon = serving; manager = m' }))
    × (m'.m_observer_incoming ≡ some r)
    × (run_rounds (take 7 presses) (record new_observer { m_cmd_buffer = r }) no_messages
        ≡ some (keep_buffer r' (rounds (as_rounds (take 7 presses)) new_observer no_messages)))
    × (contents default_command r' ≡ [])
unfolding init_test_chain add_task start init
keys_take_effect_example =
    keys_take_effect all_spawn presses serving (init_test_chain all_spawn new_manager) new_observer
      no_messages refl refl new_command_buffer-IsReady refl
