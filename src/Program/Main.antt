-- ===== src/Program/Main.antt =====
-- `main` of src/src/main.cpp as a whole: the options, the background, the chain, the loop and the
-- end, with the destructor of the thread manager.
use Prim.Native.String.{String}
use boilerplate_thread_messa.Prelude.{
  ℕ, Bool, true, false, not, Option, none, some, List, if◌then◌else◌,
}
use boilerplate_thread_messa.Prelude.Text.{Text}
use boilerplate_thread_messa.Daemon.{new_daemon}
use boilerplate_thread_messa.Daemon.Background
use boilerplate_thread_messa.Daemon.Background.{System, Made, make_daemon}
use boilerplate_thread_messa.Manager.{
  Spawns, Manager, new_manager, terminate_all_threads, stop_manager,
}
use boilerplate_thread_messa.Program.{
  Program, Turn, Progress, left_loop, in_loop, hung, set_handlers, start_up, main_loop, shut_down,
}
use boilerplate_thread_messa.Program.CommandLine
use boilerplate_thread_messa.Program.CommandLine.{
  CommandOption, Parsed, new_config, go_on, process_command_line, exit_success, exit_failure,
}

-- `~ThreadManager`, and then the thread of the base class, which its `jthread` stops and joins.
-- `none` never comes back.
unfoldable pub destroy_manager : Manager → Option Manager
unfolding terminate_all_threads stop_manager
destroy_manager m = elim (terminate_all_threads m) [ none ↦ none | some m' ↦ stop_manager m' ]

-- How far the process has come. `ended` has the exit code and what the manager was at the end;
-- an `exit` inside the options runs no destructor of `main`.
pub data Outcome : Type 0 where
  ended : ℕ → Manager → Outcome
  still_running : Program → Outcome
  never_ends : Outcome

-- A `return` from `main`.
unfoldable pub leave : ℕ → Manager → Outcome
unfolding destroy_manager
leave code m = elim (destroy_manager m) [ none ↦ never_ends | some m' ↦ ended code m' ]

unfoldable pub end_of_main : Progress → Outcome
unfolding leave shut_down
end_of_main (in_loop p) = still_running p
end_of_main hung = never_ends
end_of_main (left_loop p) = elim (shut_down p) [
  | none ↦ never_ends
  | some q ↦ leave exit_success q.manager
]

module _ (spawns : Spawns) (ts : List Turn) where
  -- From `initTestChain` on.
  unfoldable pub run_workers : Bool → Program → Outcome
  unfolding start_up main_loop end_of_main leave
  run_workers is_daemon p =
      let (ok, q) = start_up spawns p in
      if not ok then leave exit_failure q.manager else end_of_main (main_loop spawns is_daemon ts q)

  unfoldable pub after_make_daemon : Manager → Made Manager → Outcome
  unfolding run_workers leave
  after_make_daemon m Background.exited = ended exit_success m
  after_make_daemon m (Background.returned ok d written) =
      if not ok then leave exit_failure m else run_workers true (record { daemon = d; manager = m })

  unfoldable pub after_options : System → String → Program → Parsed → Outcome
  unfolding run_workers after_make_daemon
  after_options sys pid_file p (CommandLine.exited code) = ended code p.manager
  after_options sys pid_file p (go_on is_daemon) =
      if is_daemon
      then after_make_daemon p.manager (make_daemon sys pid_file p.daemon)
      else run_workers false p

  unfoldable pub main : System → Text → List CommandOption → Program → Outcome
  unfolding after_options set_handlers
  main sys argv0 os p =
      after_options sys new_config.pid_file (record p { daemon = set_handlers spawns p.daemon })
        (process_command_line argv0 os new_config.is_daemon).1

-- The daemon and the manager as `main` finds them.
abbrev pub new_program : Program
new_program = record { daemon = new_daemon; manager = new_manager }
