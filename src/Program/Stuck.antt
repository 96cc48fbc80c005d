-- ===== src/Program/Stuck.antt =====
-- A restart while the threads run, and the end of src/src/main.cpp behind it.
use boilerplate_thread_messa.Prelude.{◌≡◌, refl, ap, ◌∙◌, false, List, ◌∷◌}
use boilerplate_thread_messa.Prelude.Text.{Text}
use boilerplate_thread_messa.Worker.{start, stop, stop_and_wait, join, is_running}
use boilerplate_thread_messa.Daemon.{
  State, Daemon, new_daemon, start_all, set_start_function, set_reload_function, set_user1_function,
  set_user2_function,
}
use boilerplate_thread_messa.Daemon.Signals.{AllNoRequest}
use boilerplate_thread_messa.Daemon.Interrupts.{IsQuiet}
use boilerplate_thread_messa.Daemon.Background.{System}
use boilerplate_thread_messa.Manager.{
  all_spawn, Manager, add_task, init_test_chain, start_manager, stop_manager, request_stop,
  terminate_all_threads, restart_all_threads, restart_tasks, restart_task, stop_all_threads,
  join_tasks,
}
use boilerplate_thread_messa.Program.{
  Program, Turn, left_loop, main_loop, set_handlers, start_up, shut_down,
}
use boilerplate_thread_messa.Program.Console.{pressed, loop_goes_on, restart_turn, quit_key}
use boilerplate_thread_messa.Program.CommandLine.{CommandOption, go_on, process_command_line}
use boilerplate_thread_messa.Program.Main.{
  never_ends, destroy_manager, leave, end_of_main, run_workers, after_options, main, new_program,
}

-- The program as the loop finds it, and behind the key `r`.
abbrev started : Program
unfolding start_up set_handlers start_all
started = (start_up all_spawn (record new_program { daemon = set_handlers all_spawn new_daemon })).1

abbrev restarted : Manager
restarted = restart_all_threads all_spawn started.manager

starts_up :
    (ts : List Turn)
    → run_workers all_spawn ts false
        (record new_program { daemon = set_handlers all_spawn new_daemon })
      ≡ end_of_main (main_loop all_spawn false ts started)
unfolding run_workers start_up set_handlers start_all start_manager init_test_chain add_task start
    set_user2_function set_user1_function set_reload_function set_start_function
starts_up ts = refl

-- The tasks still hold the token of the first stop source, which the destructor does not ask.
destructor_blocks :
    (d : Daemon Manager)
    → end_of_main (left_loop (record { daemon = d; manager = restarted })) ≡ never_ends
unfolding end_of_main shut_down stop_manager request_stop leave destroy_manager
    terminate_all_threads stop_all_threads join_tasks restart_all_threads restart_tasks restart_task
    start_up set_handlers start_all start_manager init_test_chain add_task start stop stop_and_wait
    join is_running set_user2_function set_user1_function set_reload_function set_start_function
destructor_blocks d = refl

is_serving : started.daemon.state ≡ State.running
unfolding start_up set_handlers start_all
is_serving = refl

module _ (t : Turn) (ts : List Turn) (quiet : AllNoRequest t.signals)
    (still : IsQuiet t.during) where
  keys_leave :
      (d : Daemon Manager) × (main_loop all_spawn false
          (pressed b'r' ∷ pressed b'q' ∷ t ∷ ts)
          started
        ≡ left_loop (record { daemon = d; manager = restarted }))
  keys_leave =
      let (d, e) = quit_key all_spawn started.daemon restarted t ts is_serving quiet still in
      (
        d,
        loop_goes_on all_spawn (pressed b'r') (pressed b'q' ∷ t ∷ ts) _
              (restart_turn all_spawn started.daemon started.manager is_serving)
            ∙ e,
      )

  -- In the foreground, where every thread can be created, the keys `r` and then `q` right after the
  -- start keep the process for ever: the loop ends, and the destructor of the thread manager waits
  -- for threads that nobody asks to stop.
  pub restart_and_quit_never_end :
      (sys : System) (argv0 : Text) (os : List CommandOption)
      → (process_command_line argv0 os false).1 ≡ go_on false
      → main all_spawn (pressed b'r' ∷ pressed b'q' ∷ t ∷ ts) sys argv0 os new_program ≡ never_ends
  unfolding main after_options
  restart_and_quit_never_end sys argv0 os e =
      let (d, left) = keys_leave in
      rw (e, after_options)
        (starts_up (pressed b'r' ∷ pressed b'q' ∷ t ∷ ts)
          ∙ ap end_of_main left
          ∙ destructor_blocks d)
