-- ===== src/Program.antt =====
-- src/src/main.cpp: the console keys, the command line, and the main loop over the daemon and the
-- thread manager. What is printed is left out.
pub mod Console
pub mod Keys
pub mod CommandLine
pub mod Life
pub mod Loop
pub mod Main
pub mod Leaving
pub mod Ending
pub mod Stuck
mod Tests
use boilerplate_thread_messa.Prelude.{
  ℕ, Bool, true, false, not, Option, none, some, List, [], ◌∷◌, ◌==◌, if◌then◌else◌,
}
use boilerplate_thread_messa.Events.{ObserverCommand, CommandType}
use boilerplate_thread_messa.Daemon.{
  State, Daemon, set_start_function, set_reload_function, set_user1_function, set_user2_function,
  start_all, set_state, deliver,
}
use boilerplate_thread_messa.Daemon.Interrupts.{Gaps, is_running_with}
use boilerplate_thread_messa.Manager.{
  Spawns, Manager, start_manager, stop_manager, init_test_chain, stop_all_threads,
  restart_all_threads, terminate_all_threads, send_observer_command, send_stress_mode_command,
  send_normal_mode_command, request_stop,
}

-- `nothing` is the source's `none`.
pub data HandleConsoleType : Type 0 where
  nothing exit stop restart terminate : HandleConsoleType
  stop_observing start_observing stress_mode set_normal_mode : HandleConsoleType

-- `none` is a `getchar` that finds no key.
abbrev pub handle_console : Option ℕ → HandleConsoleType
handle_console none = HandleConsoleType.nothing
handle_console (some key) =
    if key == b'q'
    then HandleConsoleType.exit
    else if key == b's'
    then HandleConsoleType.stop
    else if key == b'r'
    then HandleConsoleType.restart
    else if key == b't'
    then HandleConsoleType.terminate
    else if key == b'p'
    then HandleConsoleType.stop_observing
    else if key == b'o'
    then HandleConsoleType.start_observing
    else if key == b'x'
    then HandleConsoleType.stress_mode
    else if key == b'n'
    then HandleConsoleType.set_normal_mode
    else HandleConsoleType.nothing

pub record Program : Type 0 where
  pub daemon : Daemon Manager
  pub manager : Manager

-- The handlers of `main`, except the one for the exit, which `shut_down` calls.
unfoldable pub set_handlers : Spawns → Daemon Manager → Daemon Manager
set_handlers spawns d =
    set_user2_function (λ m. (true, m))
      (set_user1_function (λ m. (true, m))
        (set_reload_function (λ m. (true, m)) (set_start_function (start_manager (spawns 5)) d)))

-- `initTestChain` and `startAll`.
unfoldable pub start_up : Spawns → Program → Bool × Program
start_up spawns p =
    let (ok, d, m) = start_all p.daemon (init_test_chain spawns p.manager) in
    (ok, record { daemon = d; manager = m })

abbrev pub on_manager : Program → Option Manager → Option Program
on_manager p none = none
on_manager p (some m) = some (record p { manager = m })

-- The switch of the main loop. `none` is a call that never comes back.
unfoldable pub handle : Spawns → HandleConsoleType → Program → Option Program
handle spawns HandleConsoleType.exit p = some (record p { daemon = set_state State.stop p.daemon })
handle spawns HandleConsoleType.stop p = on_manager p (stop_all_threads p.manager)
handle spawns HandleConsoleType.restart p =
    some (record p { manager = restart_all_threads spawns p.manager })
handle spawns HandleConsoleType.terminate p = on_manager p (terminate_all_threads p.manager)
handle spawns HandleConsoleType.stop_observing p = some (record p {
  manager =
      (send_observer_command (record { type = CommandType.stop_observing; duration_sec = 60 })
        p.manager).1;
})
handle spawns HandleConsoleType.start_observing p = some (record p {
  manager =
      (send_observer_command (record { type = CommandType.start_observing; duration_sec = 1 })
        p.manager).1;
})
handle spawns HandleConsoleType.stress_mode p =
    some (record p { manager = (send_stress_mode_command p.manager).1 })
handle spawns HandleConsoleType.set_normal_mode p =
    some (record p { manager = (send_normal_mode_command p.manager).1 })
handle spawns HandleConsoleType.nothing p = some p

-- The signals since the last poll, those inside this poll, and the key that is there after it.
pub record Turn : Type 0 where
  pub signals : List ℕ
  pub during : Gaps
  pub key : Option ℕ

pub data Progress : Type 0 where
  left_loop : Program → Progress
  in_loop : Program → Progress
  hung : Progress

module _ (spawns : Spawns) (is_daemon : Bool) where
  abbrev pub after_poll : Option ℕ → Program → Progress
  unfolding handle
  after_poll key p =
      if is_daemon
      then in_loop p
      else elim (handle spawns (handle_console key) p) [ none ↦ hung | some q ↦ in_loop q ]

  unfoldable pub turn : Turn → Program → Progress
  unfolding handle
  turn t p =
      let (alive, d, m) = is_running_with t.during (deliver t.signals p.daemon) p.manager in
      let q : Program = record { daemon = d; manager = m } in
      if not alive then left_loop q else after_poll t.key q

  unfoldable pub main_loop : List Turn → Program → Progress
  unfolding turn
  main_loop [] p = in_loop p
  main_loop (t ∷ ts) p = elim (turn t p) [
    | left_loop q ↦ left_loop q
    | in_loop q ↦ main_loop ts q
    | hung ↦ hung
  ]

-- What follows the loop: the stop request, and `closeAll` with the handler that stops the manager's
-- own thread. `none` is a call that never comes back.
unfoldable pub shut_down : Program → Option Program
shut_down p = elim (stop_manager (request_stop p.manager)) [
  | none ↦ none
  | some m ↦ some (record { daemon = set_state State.stop p.daemon; manager = m })
]
