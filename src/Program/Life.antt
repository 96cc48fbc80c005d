-- ===== src/Program/Life.antt =====
-- What every pass of the main loop of src/src/main.cpp keeps, on keys that restart only what has
-- been stopped.
use boilerplate_thread_messa.Prelude.{
  subst, sym, ℕ, ◌≡◌, refl, Bool, true, false, Option, none, some, List, [], ◌∷◌, arith, inl, inr,
  Option-cases,
}
use boilerplate_thread_messa.Events.{ObserverCommand}
use boilerplate_thread_messa.Worker.Lifecycle.{IsSound}
use boilerplate_thread_messa.Daemon.{Daemon, Handler, set_state, signal_handler, deliver}
use boilerplate_thread_messa.Daemon.Interrupts.{
  Gaps, answer, is_running_with-cases, perform_with, is_running_with,
}
use boilerplate_thread_messa.Manager.{
  Spawns, Manager, send_observer_command, send_stress_mode_command, send_normal_mode_command,
  restart_all_threads,
}
use boilerplate_thread_messa.Manager.Cycle.{IsManaged, AllStopped}
use boilerplate_thread_messa.Manager.Keeps.{stop_all-IsManaged, restart_all-IsManaged}
use boilerplate_thread_messa.Manager.Hang.{terminate_all_eq}
use boilerplate_thread_messa.Program.{
  HandleConsoleType, handle_console, Program, handle, Turn, in_loop, after_poll,
}

-- Whether all threads are known to be stopped after the key.
abbrev pub idle_after : Bool → HandleConsoleType → Bool
idle_after idle HandleConsoleType.stop = true
idle_after idle HandleConsoleType.terminate = true
idle_after idle HandleConsoleType.restart = false
idle_after idle _ = idle

-- The restart key comes only where the threads are known to be stopped.
abbrev pub RestartsStopped : Bool → List Turn → Type 0
RestartsStopped idle [] = Unit
RestartsStopped idle (t ∷ ts) =
    (handle_console t.key ≡ HandleConsoleType.restart → idle ≡ true)
    × RestartsStopped (idle_after idle (handle_console t.key)) ts

abbrev pub pass : Manager → Bool × Manager
pass m = (true, m)

-- The handlers that `main` installs.
pub record HasHandlers (d : Daemon Manager) : Type 0 where
  pub reload : d.handler_reload ≡ some pass
  pub user1 : d.handler_user1 ≡ some pass
  pub user2 : d.handler_user2 ≡ some pass

pub record IsCared (idle : Bool) (p : Program) : Type 0 where
  pub handlers : HasHandlers p.daemon
  pub managed : IsManaged p.manager
  pub stopped : idle ≡ true → AllStopped p.manager.m_tasks
  pub own_thread : IsSound p.manager.worker

signal-HasHandlers : (s : ℕ) {d : Daemon Manager} → HasHandlers d → HasHandlers (signal_handler s d)
unfolding signal_handler
signal-HasHandlers s h = record {
  reload = ground (arith, h.reload);
  user1 = ground (arith, h.user1);
  user2 = ground (arith, h.user2);
}

pub deliver-HasHandlers :
    (ss : List ℕ) {d : Daemon Manager} → HasHandlers d → HasHandlers (deliver ss d)
unfolding deliver
deliver-HasHandlers [] h = h
deliver-HasHandlers (s ∷ ss) h = deliver-HasHandlers ss (signal-HasHandlers s h)

perform_with_keeps :
    (g : Gaps) (handler : Handler Manager) {d : Daemon Manager} (m : Manager)
    → handler ≡ some pass
    → HasHandlers d
    → HasHandlers (perform_with g handler d m).1 × ((perform_with g handler d m).2 ≡ m)
unfolding perform_with answer set_state
perform_with_keeps g handler {d} m e h =
    let entered = deliver-HasHandlers g.at_entry h in
    rw e (
      deliver-HasHandlers g.at_answer (
          deliver-HasHandlers g.in_handler
            (record { reload = entered.reload; user1 = entered.user1; user2 = entered.user2 })),
      refl,
    )

-- The handlers leave the manager alone, whatever signals arrive.
pub is_running_with_keeps :
    (g : Gaps) {d : Daemon Manager} (m : Manager)
    → HasHandlers d
    → HasHandlers (is_running_with g d m).1 × ((is_running_with g d m).2 ≡ m)
unfolding is_running_with answer
is_running_with_keeps g {d} m h =
    let h1 = deliver-HasHandlers g.in_tests1 h in
    let h2 = deliver-HasHandlers g.in_tests2 h1 in
    elim (is_running_with-cases g d m) [
      | inl e ↦ subst Keeps (sym e) (perform_with_keeps g _ m h.reload h)
      | inr (inl e) ↦ subst Keeps (sym e) (perform_with_keeps g _ m h.user1 h1)
      | inr (inr (inl e)) ↦ subst Keeps (sym e) (perform_with_keeps g _ m h.user2 h2)
      | inr (inr (inr e)) ↦ subst Keeps (sym e) (deliver-HasHandlers g.at_answer h2, refl)
    ]
  where
    Keeps : Bool × Daemon Manager × Manager → Type 0
    Keeps (_, d', m') = HasHandlers d' × (m' ≡ m)

-- The same threads, with another command buffer.
pub record SameThreads (m m' : Manager) : Type 0 where
  pub source : m'.m_stop_source ≡ m.m_stop_source
  pub asked : m'.sources ≡ m.sources
  pub fresh : m'.unused ≡ m.unused
  pub tasks : m'.m_tasks ≡ m.m_tasks
  pub own : m'.worker ≡ m.worker

send-SameThreads :
    (cmd : ObserverCommand) (m : Manager) → SameThreads m (send_observer_command cmd m).1
unfolding send_observer_command
send-SameThreads cmd m = record {
  source = ground arith;
  asked = ground arith;
  fresh = ground arith;
  tasks = ground arith;
  own = ground arith;
}

SameThreads-IsManaged : {m m' : Manager} → SameThreads m m' → IsManaged m → IsManaged m'
SameThreads-IsManaged {m} {m'} same v = record {
  tasks = rw (same.source, same.tasks) v.tasks;
  created = rw (same.source, same.fresh) v.created;
  untouched = rw (same.asked, same.fresh) v.untouched;
}

worker-restart_all :
    (spawns : Spawns) (m : Manager) → (restart_all_threads spawns m).worker ≡ m.worker
unfolding restart_all_threads
worker-restart_all spawns m = refl

-- A handled key came back, with the invariant at the new idleness.
abbrev Handled : Bool → Option Program → Type 0
Handled idle none = ⊥
Handled idle (some p) = IsCared idle p

module _ {idle : Bool} {p : Program} (c : IsCared idle p) where
  same_threads : (m : Manager) → SameThreads p.manager m → IsCared idle (record p { manager = m })
  same_threads m same = record {
    handlers = c.handlers;
    managed = SameThreads-IsManaged same c.managed;
    stopped = λ e. rw (same.tasks) (c.stopped e);
    own_thread = rw (same.own) c.own_thread;
  }

  pub handle-IsCared :
      (spawns : Spawns) (k : HandleConsoleType)
      → (k ≡ HandleConsoleType.restart → idle ≡ true)
      → Handled (idle_after idle k) (handle spawns k p)
  unfolding handle set_state send_stress_mode_command send_normal_mode_command
  handle-IsCared spawns HandleConsoleType.nothing ok = c
  handle-IsCared spawns HandleConsoleType.exit ok = record {
    handlers = record {
      reload = c.handlers.reload;
      user1 = c.handlers.user1;
      user2 = c.handlers.user2;
    };
    managed = c.managed;
    stopped = c.stopped;
    own_thread = c.own_thread;
  }
  handle-IsCared spawns HandleConsoleType.stop ok =
      let (m, e, v, stopped, own) = stop_all-IsManaged c.managed in
      rw (e, handle)
        (record {
          handlers = c.handlers;
          managed = v;
          stopped = λ _. stopped;
          own_thread = rw own c.own_thread;
        })
  handle-IsCared spawns HandleConsoleType.restart ok = record {
    handlers = c.handlers;
    managed = restart_all-IsManaged spawns c.managed (c.stopped (ok refl));
    stopped = λ e. cc;
    own_thread = rw (worker-restart_all spawns p.manager) c.own_thread;
  }
  handle-IsCared spawns HandleConsoleType.terminate ok =
      let (m, e, v, stopped, own) = stop_all-IsManaged c.managed in
      rw (terminate_all_eq p.manager m e, handle)
        (record {
          handlers = c.handlers;
          managed = record { tasks = tt; created = v.created; untouched = v.untouched };
          stopped = λ _. tt;
          own_thread = rw own c.own_thread;
        })
  handle-IsCared spawns HandleConsoleType.stop_observing ok =
      same_threads _ (send-SameThreads _ p.manager)
  handle-IsCared spawns HandleConsoleType.start_observing ok =
      same_threads _ (send-SameThreads _ p.manager)
  handle-IsCared spawns HandleConsoleType.stress_mode ok =
      same_threads _ (send-SameThreads _ p.manager)
  handle-IsCared spawns HandleConsoleType.set_normal_mode ok =
      same_threads _ (send-SameThreads _ p.manager)

  pub after_poll-Handled :
      (spawns : Spawns) (key : Option ℕ)
      → Handled (idle_after idle (handle_console key)) (handle spawns (handle_console key) p)
      → (q : Program) × (after_poll spawns false key p ≡ in_loop q)
        × IsCared (idle_after idle (handle_console key)) q
  unfolding after_poll
  after_poll-Handled spawns key h = elim (Option-cases (handle spawns (handle_console key) p)) [
    | inl e ↦ absurd (rw e at h)
    | inr (q, e) ↦ (q, rw (e, after_poll) refl, rw e at h)
  ]
