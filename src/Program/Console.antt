-- ===== src/Program/Console.antt =====
-- Runs of the main loop of src/src/main.cpp on keys of the console.
use boilerplate_thread_messa.Prelude.{ℕ, ◌<◌, ◌≡◌, ◌≢◌, refl, ◌∙◌, false, some, List, [], ◌∷◌, ◌++◌}
use boilerplate_thread_messa.Worker.{Worker}
use boilerplate_thread_messa.Daemon.{State, Daemon, set_state, dispatch, is_running, deliver}
use boilerplate_thread_messa.Daemon.Signals.{AllNoRequest, deliver-stopped}
use boilerplate_thread_messa.Daemon.Interrupts.{
  no_gaps, IsQuiet, is_running_with-no_gaps, is_running_with-stopped,
}
use boilerplate_thread_messa.Manager.{
  Spawns, all_spawn, Manager, stop_all_threads, restart_all_threads, get_thread_count,
}
use boilerplate_thread_messa.Manager.Cycle.{Each, IsLive, IsManaged, stop_all_then_restart}
use boilerplate_thread_messa.Manager.Hang.{restart_then_stop_hangs}
use boilerplate_thread_messa.Program.{
  Program, Turn, left_loop, in_loop, hung, handle, after_poll, turn, main_loop,
}

-- A pass of the loop without signals, at which the key `k` is there.
abbrev pub pressed : ℕ → Turn
pressed k = record { signals = []; during = no_gaps; key = some k }

module _ (spawns : Spawns) (t : Turn) (ts : List Turn) (p : Program) where
  pub loop_goes_on :
      {q : Program}
      → turn spawns false t p ≡ in_loop q
      → main_loop spawns false (t ∷ ts) p ≡ main_loop spawns false ts q
  unfolding main_loop
  loop_goes_on e = rw (e, main_loop) refl

  loop_is_left :
      {q : Program}
      → turn spawns false t p ≡ left_loop q
      → main_loop spawns false (t ∷ ts) p ≡ left_loop q
  unfolding main_loop
  loop_is_left e = rw (e, main_loop) refl

  loop_hangs : turn spawns false t p ≡ hung → main_loop spawns false (t ∷ ts) p ≡ hung
  unfolding main_loop
  loop_hangs e = rw (e, main_loop) refl

pub turn_running :
    (spawns : Spawns) (k : ℕ) (d : Daemon Manager) (m : Manager)
    → d.state ≡ State.running
    → turn spawns false (pressed k) (record { daemon = d; manager = m })
      ≡ after_poll spawns false (some k) (record { daemon = d; manager = m })
unfolding turn is_running dispatch deliver
turn_running spawns k d m e = rw (is_running_with-no_gaps d m, e, dispatch) refl

stop_turn :
    (spawns : Spawns) (d : Daemon Manager) (m m' : Manager)
    → d.state ≡ State.running
    → stop_all_threads m ≡ some m'
    → turn spawns false (pressed b's') (record { daemon = d; manager = m })
      ≡ in_loop (record { daemon = d; manager = m' })
unfolding handle
stop_turn spawns d m m' e f = turn_running spawns b's' d m e ∙ rw (f, after_poll) refl

pub restart_turn :
    (spawns : Spawns) (d : Daemon Manager) (m : Manager)
    → d.state ≡ State.running
    → turn spawns false (pressed b'r') (record { daemon = d; manager = m })
      ≡ in_loop (record { daemon = d; manager = restart_all_threads spawns m })
unfolding handle
restart_turn spawns d m e = turn_running spawns b'r' d m e

pub state-set_state : (s : State) (d : Daemon Manager) → (set_state s d).state ≡ s
unfolding set_state
state-set_state s d = refl

pub stopped_turn :
    (spawns : Spawns) (t : Turn) (d : Daemon Manager) (m : Manager)
    → IsQuiet t.during
    → (deliver t.signals d).state ≡ State.stop
    → (d' : Daemon Manager) × (turn spawns false t (record { daemon = d; manager = m })
        ≡ left_loop (record { daemon = d'; manager = m }))
unfolding turn
stopped_turn spawns t d m quiet e =
    let (d', same, _) = is_running_with-stopped t.during (deliver t.signals d) m quiet e in
    (d', rw same refl)

-- Where threads can be created, the keys `s` and then `r`, on a running daemon with managed threads,
-- both come back, and leave all threads running again, each with the token of the manager's stop
-- source, which is another one than before and has not been asked to stop; and the manager managed
-- as before.
pub stop_and_restart_keys :
    (d : Daemon Manager) (m : Manager)
    → d.state ≡ State.running
    → IsManaged m
    → (m' : Manager) × (main_loop all_spawn false
          (pressed b's' ∷ pressed b'r' ∷ [])
          (record { daemon = d; manager = m })
        ≡ in_loop (record { daemon = d; manager = m' }))
      × Each (IsLive m'.m_stop_source) m'.m_tasks
      × (get_thread_count m' ≡ get_thread_count m)
      × (m'.sources m'.m_stop_source ≡ false)
      × (m'.m_stop_source ≢ m.m_stop_source)
      × IsManaged m'
unfolding main_loop
stop_and_restart_keys d m e v =
    let (m1, stopped, _, _, (live, n, quiet, fresh, again)) = stop_all_then_restart m v in
    (
      restart_all_threads all_spawn m1,
      loop_goes_on all_spawn (pressed b's') (pressed b'r' ∷ []) _
            (stop_turn all_spawn d m m1 e stopped)
          ∙ loop_goes_on all_spawn (pressed b'r') [] _ (restart_turn all_spawn d m1 e),
      live,
      n,
      quiet,
      fresh,
      again,
    )

-- The key `r` while a task of the chain runs, and then `s`, leave the main loop in a call that
-- never comes back, whatever is pressed behind.
pub restart_and_stop_keys_hang :
    (spawns : Spawns) (d : Daemon Manager) (m : Manager) (before after : List Worker) (w : Worker)
    (ts : List Turn)
    → d.state ≡ State.running
    → m.m_tasks ≡ before ++ (w ∷ after)
    → IsLive m.m_stop_source w
    → w.ends_alone ≡ false
    → m.sources m.m_stop_source ≡ false
    → m.m_stop_source < m.unused
    → main_loop spawns false (pressed b'r' ∷ pressed b's' ∷ ts) (record { daemon = d; manager = m })
      ≡ hung
unfolding handle
restart_and_stop_keys_hang spawns d m before after w ts e tasks v alone quiet created =
    loop_goes_on spawns (pressed b'r') (pressed b's' ∷ ts) _ (restart_turn spawns d m e)
    ∙ loop_hangs spawns (pressed b's') ts _ second
  where
    second :
        turn spawns false
          (pressed b's')
          (record { daemon = d; manager = restart_all_threads spawns m })
        ≡ hung
    second =
        turn_running spawns b's' d (restart_all_threads spawns m) e
        ∙ rw
            (
              restart_then_stop_hangs spawns m before after w tasks v alone quiet created,
              after_poll,
            )
            refl

-- After the key `q` the main loop, not in the background, ends at the next poll, with the threads
-- as they were, unless a signal asks for a reload or a user action before the last test of that
-- poll.
pub quit_key :
    (spawns : Spawns) (d : Daemon Manager) (m : Manager) (t : Turn) (ts : List Turn)
    → d.state ≡ State.running
    → AllNoRequest t.signals
    → IsQuiet t.during
    → (d' : Daemon Manager) × (main_loop spawns false
          (pressed b'q' ∷ t ∷ ts)
          (record { daemon = d; manager = m })
        ≡ left_loop (record { daemon = d'; manager = m }))
unfolding handle
quit_key spawns d m t ts e quiet still =
    let stopping : Daemon Manager = set_state State.stop d in
    let stopped = deliver-stopped t.signals stopping quiet (state-set_state State.stop d) in
    let (d', last) = stopped_turn spawns t stopping m still stopped in
    (
      d',
      loop_goes_on spawns (pressed b'q') (t ∷ ts) _ (turn_running spawns b'q' d m e)
          ∙ loop_is_left spawns t ts _ last,
    )
