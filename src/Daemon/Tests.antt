-- ===== src/Daemon/Tests.antt =====
-- Runs of the daemon of src/include/daemon.hpp and src/src/daemon.cpp, and examples of its
-- theorems. The handlers count their calls.
use boilerplate_thread_messa.Prelude.{
  ℕ, ◌+◌, ◌≡◌, refl, ◌⊎◌, inl, inr, ◌↔◌, Bool, true, false, none, some, [], ◌∷◌, arith,
  if◌then◌else◌,
}
use boilerplate_thread_messa.Daemon.{
  State, Daemon, new_daemon, deliver, k_exit_signal, k_terminate_signal, k_reload_signal,
}
use boilerplate_thread_messa.Daemon.Interrupts.{no_gaps, is_running_with, stop_overwritten}
use boilerplate_thread_messa.Daemon.Signals.{poll, terminate_stops, terminate_lost}
use boilerplate_thread_messa.Daemon.Background.{
  child, System, Written, is_empty_name, returned, make_daemon, make_daemon_lem,
}

abbrev counting : ℕ → Bool × ℕ
counting n = (true, n + 1)

abbrev failing : ℕ → Bool × ℕ
failing n = (false, n + 1)

abbrev serving : Daemon ℕ
serving = record new_daemon {
  state = State.running;
  handler_reload = some counting;
  handler_user1 = some failing;
}

terminate_stops_example :
    let (alive, d, w) =
      poll (k_reload_signal ∷ k_terminate_signal ∷ k_exit_signal ∷ []) serving 0 in
    (alive ≡ false) × (d.state ≡ State.stop) × (w ≡ 0)
terminate_stops_example =
    terminate_stops (k_reload_signal ∷ []) (k_exit_signal ∷ []) k_terminate_signal serving 0
      (inr refl) ((λ e. omega arith, λ e. omega arith, λ e. omega arith), tt)

terminate_lost_example :
    let (alive, d, w) = poll (k_exit_signal ∷ k_reload_signal ∷ []) serving 0 in
    ((deliver (k_exit_signal ∷ []) serving).state ≡ State.stop)
    × (alive ≡ true)
    × (d.state ≡ State.running)
terminate_lost_example = terminate_lost [] k_exit_signal serving 0 (inl refl) refl

stop_overwritten_example :
    let (alive, d, w) =
      is_running_with
        (record no_gaps { at_entry = k_exit_signal ∷ [] })
        (record serving { state = State.reload })
        0 in
    (alive ≡ true) × (d.state ≡ State.running) × (w ≡ 1)
stop_overwritten_example =
    stop_overwritten k_exit_signal (record serving { state = State.reload }) 0 refl (inl refl) refl

abbrev host : System
host = record {
  forked = child;
  setsid_ok = true;
  chdir_ok = true;
  opens = λ name. true;
  getpid = 4711;
}

abbrev forked : Daemon ℕ
forked = record serving { is_initialized = true; pid_file_name = "/run/app.pid"; pid = some 4711 }

make_daemon_lem_example :
    (make_daemon host "/run/app.pid" serving ≡ returned true forked (some ("/run/app.pid", 4711)))
    ↔ ((serving.is_initialized ≡ false)
        × (host.forked ≡ child)
        × (host.setsid_ok ≡ true)
        × (host.chdir_ok ≡ true)
        × ((is_empty_name "/run/app.pid" ≡ true) ⊎ (host.opens "/run/app.pid" ≡ true))
        × (◌≡◌ {A = Written}
            (some ("/run/app.pid", 4711))
            (if is_empty_name "/run/app.pid" then none else some ("/run/app.pid", host.getpid)))
        × (forked ≡ record serving {
          is_initialized = true;
          pid_file_name = "/run/app.pid";
          pid = some host.getpid;
        }))
make_daemon_lem_example =
    make_daemon_lem host "/run/app.pid" serving forked (some ("/run/app.pid", 4711))
