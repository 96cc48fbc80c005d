-- ===== src/Program/Ending.antt =====
-- How `main` of src/src/main.cpp ends.
use Prim.Native.String.{String}
use boilerplate_thread_messa.Prelude.{
  ℕ, [], ◌≡◌, ◌∙◌, refl, sym, subst, Bool, true, false, none, some, List, ◌∷◌, ◌++◌, arith, ◌⊎◌,
  inl, inr, Bool-cases,
}
use boilerplate_thread_messa.Prelude.Text.{Text}
use boilerplate_thread_messa.Worker.{start}
use boilerplate_thread_messa.Worker.Lifecycle.{IsSound, new-IsSound, operations-IsSound}
use boilerplate_thread_messa.Daemon.{
  Daemon, new_daemon, start_all, set_start_function, set_reload_function, set_user1_function,
  set_user2_function,
}
use boilerplate_thread_messa.Daemon.Background
use boilerplate_thread_messa.Daemon.Signals.{AllNoRequest}
use boilerplate_thread_messa.Daemon.Interrupts.{IsQuiet, IsRequest}
use boilerplate_thread_messa.Daemon.Background.{System, Made, Written, make_daemon, make_daemon_lem}
use boilerplate_thread_messa.Manager.{
  Spawns, Manager, new_manager, chain_task, add_task, init_test_chain, start_manager,
}
use boilerplate_thread_messa.Manager.Cycle.{IsManaged}
use boilerplate_thread_messa.Manager.Setup.{init_test_chain_lem}
use boilerplate_thread_messa.Program.{
  Program, Turn, HandleConsoleType, handle_console, main_loop, set_handlers, start_up,
}
use boilerplate_thread_messa.Program.CommandLine
use boilerplate_thread_messa.Program.CommandLine.{
  CommandOption, Parsed, go_on, new_config, process_command_line, process_command_line_lem, any,
  ends_program, asks_background, exit_success, exit_failure,
}
use boilerplate_thread_messa.Program.Life.{RestartsStopped, HasHandlers, IsCared}
use boilerplate_thread_messa.Program.Loop.{
  IsAlive, IsLeft, exit_passes, late_request_leaves, foreground-IsAlive, foreground-IsLeft,
  background-IsAlive,
}
use boilerplate_thread_messa.Program.Main.{
  leave, end_of_main, run_workers, after_make_daemon, after_options, main, new_program,
}
use boilerplate_thread_messa.Program.Leaving.{
  IsSettled, IsEnded, ended-IsSettled, leave-IsEnded, left-IsEnded, end-IsSettled,
}

-- `addTask` and `initTestChain` leave the manager's own thread alone.
worker-add_task :
    (b : Bool) (i : ℕ) (m : Manager) → (add_task b (some (chain_task i)) m).worker ≡ m.worker
unfolding add_task start
worker-add_task true i m = refl
worker-add_task false i m = refl

worker-init_test_chain :
    (spawns : Spawns) (m : Manager) → (init_test_chain spawns m).worker ≡ m.worker
unfolding init_test_chain
worker-init_test_chain spawns m =
    worker-add_task (spawns 4) 4 _
    ∙ worker-add_task (spawns 3) 3 _
    ∙ worker-add_task (spawns 2) 2 _
    ∙ worker-add_task (spawns 1) 1 _
    ∙ worker-add_task (spawns 0) 0 _

module _ (spawns : Spawns) {p : Program} (h : HasHandlers p.daemon)
    (starts : p.daemon.handler_before_to_start ≡ some (start_manager (spawns 5)))
    (v : IsManaged p.manager) (s : IsSound p.manager.worker) where
  start_up-IsCared : IsCared false (start_up spawns p).1
  unfolding start_up start_all start_manager
  start_up-IsCared =
      let (w, n) = init_test_chain_lem spawns p.manager v in
      rw starts (record {
        handlers = record { reload = h.reload; user1 = h.user1; user2 = h.user2 };
        managed = record { tasks = w.tasks; created = w.created; untouched = w.untouched };
        stopped = λ e. cc;
        own_thread =
            (operations-IsSound (λ i. false) (spawns 5) none
              (init_test_chain spawns p.manager).worker
              (rw (worker-init_test_chain spawns p.manager) s)).0;
      })

-- What `run_workers` comes to: the failed start, or the end of the loop from the start on.
run_workers_either :
    (spawns : Spawns) (is_daemon : Bool) (ts : List Turn) {p : Program}
    → HasHandlers p.daemon
    → p.daemon.handler_before_to_start ≡ some (start_manager (spawns 5))
    → IsManaged p.manager
    → IsSound p.manager.worker
    → IsEnded (run_workers spawns ts is_daemon p)
      ⊎ ((q : Program) × (run_workers spawns ts is_daemon p
            ≡ end_of_main (main_loop spawns is_daemon ts q))
          × IsCared false q)
unfolding run_workers
run_workers_either spawns is_daemon ts {p} h starts v s =
    let c = start_up-IsCared spawns h starts v s in
    elim (Bool-cases (start_up spawns p).0) [
      | inr failed ↦
          inl (rw (failed, run_workers) (leave-IsEnded exit_failure c.managed c.own_thread))
      | inl started ↦ inr ((start_up spawns p).1, rw (started, run_workers) refl, c)
    ]

new-IsManaged : IsManaged new_manager
new-IsManaged = record { tasks = tt; created = omega arith; untouched = λ i h. refl }

-- The handlers that `main` gives to the daemon.
record IsPrepared (spawns : Spawns) (d : Daemon Manager) : Type 0 where
  others : HasHandlers d
  starts : d.handler_before_to_start ≡ some (start_manager (spawns 5))

set_handlers-IsPrepared :
    (spawns : Spawns) (d : Daemon Manager) → IsPrepared spawns (set_handlers spawns d)
unfolding set_handlers set_start_function set_reload_function set_user1_function set_user2_function
set_handlers-IsPrepared spawns d = record {
  others = record { reload = refl; user1 = refl; user2 = refl };
  starts = refl;
}

make_daemon-IsPrepared :
    (spawns : Spawns) (sys : System) (name : String) (d d' : Daemon Manager) (written : Written)
    → IsPrepared spawns d
    → make_daemon sys name d ≡ Background.returned true d' written
    → IsPrepared spawns d'
make_daemon-IsPrepared spawns sys name d d' written h e =
    let (_, _, _, _, _, _, same) = (make_daemon_lem sys name d d' written).0 e in
    subst (IsPrepared spawns) (sym same) (record {
      others = record { reload = h.others.reload; user1 = h.others.user1; user2 = h.others.user2 };
      starts = h.starts;
    })

module _ (spawns : Spawns) where
  settles :
      (is_daemon : Bool) (ts : List Turn) {d : Daemon Manager}
      → IsPrepared spawns d
      → (is_daemon ≡ false → RestartsStopped false ts)
      → IsSettled (run_workers spawns ts is_daemon (record { daemon = d; manager = new_manager }))
  settles is_daemon ts g ok =
      elim (run_workers_either spawns is_daemon ts g.others g.starts new-IsManaged
        (new-IsSound true false true refl)) [
          | inl e ↦ ended-IsSettled _ e
          | inr (q, e, c) ↦ subst IsSettled (sym e) (end-IsSettled _ (looped is_daemon ok q c))
        ]
    where
      looped :
          (b : Bool)
          → (b ≡ false → RestartsStopped false ts)
          → (q : Program) → IsCared false q
          → IsAlive (main_loop spawns b ts q)
      looped true ok q c = background-IsAlive spawns ts false q c
      looped false ok q c = foreground-IsAlive spawns ts false q (ok refl) c

  after_make_daemon-IsSettled :
      (ts : List Turn) (r : Made Manager)
      → ((d : Daemon Manager) (written : Written)
          → r ≡ Background.returned true d written
          → IsPrepared spawns d)
      → IsSettled (after_make_daemon spawns ts new_manager r)
  unfolding after_make_daemon
  after_make_daemon-IsSettled ts Background.exited h = (refl, refl)
  after_make_daemon-IsSettled ts (Background.returned true d written) h =
      settles true ts (h d written refl) (λ e. cc)
  after_make_daemon-IsSettled ts (Background.returned false d written) h =
      ended-IsSettled (leave exit_failure new_manager)
        (leave-IsEnded exit_failure new-IsManaged (new-IsSound true false true refl))

  after_options-IsSettled :
      (ts : List Turn) (sys : System) (pid_file : String) (r : Parsed)
      → (r ≡ go_on false → RestartsStopped false ts)
      → IsSettled (
          after_options spawns ts sys pid_file
            (record new_program { daemon = set_handlers spawns new_daemon })
            r)
  unfolding after_options
  after_options-IsSettled ts sys pid_file (CommandLine.exited code) ok = (refl, refl)
  after_options-IsSettled ts sys pid_file (go_on true) ok =
      after_make_daemon-IsSettled ts (make_daemon sys pid_file (set_handlers spawns new_daemon))
        (λ d written.
          make_daemon-IsPrepared spawns sys pid_file (set_handlers spawns new_daemon) d written
            (set_handlers-IsPrepared spawns new_daemon))
  after_options-IsSettled ts sys pid_file (go_on false) ok =
      settles false ts (set_handlers-IsPrepared spawns new_daemon) (λ e. ok refl)

  -- `main` is in its loop or has ended with no thread left, and never in a call that hangs, for
  -- every command line, system and list of turns, where, if it runs in the foreground, the key `r`
  -- comes only after `s` or `t`, with no `r` between.
  pub main_settles :
      (ts : List Turn) (sys : System) (argv0 : Text) (os : List CommandOption)
      → ((process_command_line argv0 os false).1 ≡ go_on false → RestartsStopped false ts)
      → IsSettled (main spawns ts sys argv0 os new_program)
  unfolding main
  main_settles ts sys argv0 os ok =
      after_options-IsSettled ts sys new_config.pid_file (process_command_line argv0 os false).1 ok

-- Without `-D` the program does not go on in the background.
foreground :
    (argv0 : Text) (os : List CommandOption)
    → any asks_background os ≡ false
    → ¬ ((process_command_line argv0 os false).1 ≡ go_on true)
foreground argv0 os e g = elim (Bool-cases (any ends_program os)) [
  | inl b ↦ ground (arith, process_command_line_lem argv0 os false)
  | inr b ↦ ground (arith, process_command_line_lem argv0 os false)
]

module _ (spawns : Spawns) (before rest : List Turn)
    (leaves : (idle : Bool) (p : Program)
      → IsCared idle p
      → IsLeft (main_loop spawns false rest p)) where
  quits :
      {d : Daemon Manager}
      → IsPrepared spawns d
      → RestartsStopped false before
      → IsEnded
          (run_workers spawns (before ++ rest) false (record { daemon = d; manager = new_manager }))
  quits g ok =
      elim (run_workers_either spawns false (before ++ rest) g.others g.starts new-IsManaged
        (new-IsSound true false true refl)) [
          | inl h ↦ h
          | inr (q, r, c) ↦
              subst IsEnded (sym r)
                (left-IsEnded _ (foreground-IsLeft spawns before rest leaves ok c))
        ]

  quits_after_options :
      (sys : System) (pid_file : String) (r : Parsed)
      → ¬ (r ≡ go_on true)
      → RestartsStopped false before
      → IsEnded (
          after_options spawns
            (before ++ rest)
            sys
            pid_file
            (record new_program { daemon = set_handlers spawns new_daemon })
            r)
  unfolding after_options
  quits_after_options sys pid_file (CommandLine.exited code) stays ok = (refl, refl)
  quits_after_options sys pid_file (go_on true) stays ok = absurd (stays refl)
  quits_after_options sys pid_file (go_on false) stays ok =
      quits (set_handlers-IsPrepared spawns new_daemon) ok

  -- In the foreground `main` ends where the loop does.
  main_quits :
      (sys : System) (argv0 : Text) (os : List CommandOption)
      → any asks_background os ≡ false
      → RestartsStopped false before
      → IsEnded (main spawns (before ++ rest) sys argv0 os new_program)
  unfolding main
  main_quits sys argv0 os none_asked ok =
      quits_after_options sys new_config.pid_file (process_command_line argv0 os false).1
        (λ g. foreground argv0 os none_asked g) ok

module _ (spawns : Spawns) (before : List Turn) (t : Turn) where
  -- Without `-D`, the key `q` ends the process, at the latest at the poll behind it, with no thread
  -- left: if `r` came only after `s` or `t`, with no `r` between, before `q`, and no signal asks
  -- for a reload or a user action between `q` and the last test of that poll.
  pub main_ends :
      (t' : Turn) (after : List Turn) (sys : System) (argv0 : Text) (os : List CommandOption)
      → any asks_background os ≡ false
      → RestartsStopped false before
      → handle_console t.key ≡ HandleConsoleType.exit
      → AllNoRequest t'.signals
      → IsQuiet t'.during
      → IsEnded (main spawns (before ++ (t ∷ t' ∷ after)) sys argv0 os new_program)
  main_ends t' after sys argv0 os none_asked ok e quiet still =
      main_quits spawns before (t ∷ t' ∷ after)
        (λ idle p c. exit_passes spawns t t' after e quiet still c) sys argv0 os none_asked ok

  -- Without `-D`, a SIGHUP, SIGUSR1 or SIGUSR2 ends the process, at the latest in the pass `t`,
  -- when it is the last signal between the tests of the poll of `t`, and the handler if one runs,
  -- and its answer: if `r` came only after `s` or `t`, with no `r` between, before that pass.
  pub late_request_ends_main :
      (after : List Turn) (ss : List ℕ) (s : ℕ) (sys : System) (argv0 : Text)
      (os : List CommandOption)
      → any asks_background os ≡ false
      → RestartsStopped false before
      → t.during.at_answer ≡ ss ++ (s ∷ [])
      → IsRequest s
      → IsEnded (main spawns (before ++ (t ∷ after)) sys argv0 os new_program)
  late_request_ends_main after ss s sys argv0 os none_asked ok e asks =
      main_quits spawns before (t ∷ after)
        (λ idle p c. late_request_leaves spawns t ss s after e asks c) sys argv0 os none_asked ok
