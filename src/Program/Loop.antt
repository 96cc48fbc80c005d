-- ===== src/Program/Loop.antt =====
-- The main loop of src/src/main.cpp as a whole, on keys that restart only what has been stopped.
use boilerplate_thread_messa.Manager.{Spawns, all_spawn}
use boilerplate_thread_messa.Prelude.{
  ℕ, ◌≡◌, refl, sym, ap, subst, ◌∙◌, Bool, true, false, List, [], ◌∷◌, ◌++◌, ◌⊎◌, inl, inr,
  Bool-cases,
}
use boilerplate_thread_messa.Daemon.Signals.{AllNoRequest, deliver-stopped}
use boilerplate_thread_messa.Daemon.Interrupts.{
  IsQuiet, IsRequest, is_running_with, is_running_with-stopped, late_request_answers,
}
use boilerplate_thread_messa.Program.Console.{state-set_state}
use boilerplate_thread_messa.Daemon.{State, set_state, deliver}
use boilerplate_thread_messa.Program.{
  HandleConsoleType, handle, handle_console, Program, Turn, Progress, left_loop, in_loop, hung,
  after_poll, turn, main_loop,
}
use boilerplate_thread_messa.Program.Life.{
  idle_after, RestartsStopped, IsCared, deliver-HasHandlers, is_running_with_keeps, handle-IsCared,
  after_poll-Handled,
}

-- In the loop or behind it with the managed threads of some idleness; not in a call that hangs.
abbrev pub IsAlive : Progress → Type 0
IsAlive (left_loop p) = (idle : Bool) × IsCared idle p
IsAlive (in_loop p) = (idle : Bool) × IsCared idle p
IsAlive hung = ⊥

-- Behind the loop, with the managed threads of some idleness.
abbrev pub IsLeft : Progress → Type 0
IsLeft (left_loop p) = (idle : Bool) × IsCared idle p
IsLeft _ = ⊥

-- The program as a poll leaves it.
abbrev polled : Turn → Program → Program
polled t p = record {
  daemon = (is_running_with t.during (deliver t.signals p.daemon) p.manager).1;
  manager = (is_running_with t.during (deliver t.signals p.daemon) p.manager).2;
}

abbrev alive : Turn → Program → Bool
alive t p = (is_running_with t.during (deliver t.signals p.daemon) p.manager).0

polled-IsCared : {idle : Bool} {p : Program} (t : Turn) → IsCared idle p → IsCared idle (polled t p)
polled-IsCared {idle} {p} t c =
    let (h, same) =
      is_running_with_keeps t.during p.manager (deliver-HasHandlers t.signals c.handlers) in
    record {
      handlers = h;
      managed = rw same c.managed;
      stopped = rw same c.stopped;
      own_thread = rw same c.own_thread;
    }

-- The program behind the key for the exit.
abbrev stopping : Turn → Program → Program
stopping t p = record (polled t p) { daemon = set_state State.stop (polled t p).daemon }

stopping-IsCared :
    (t : Turn) {idle : Bool} (p : Program) → IsCared idle (polled t p) → IsCared idle (stopping t p)
unfolding handle
stopping-IsCared t p c = handle-IsCared c all_spawn HandleConsoleType.exit (λ g. cc)

module _ (spawns : Spawns) where
  turn_left :
      (is_daemon : Bool) (t : Turn) (p : Program)
      → alive t p ≡ false
      → turn spawns is_daemon t p ≡ left_loop (polled t p)
  unfolding turn
  turn_left is_daemon t p e = rw e refl

  turn_stays :
      (is_daemon : Bool) (t : Turn) (p : Program)
      → alive t p ≡ true
      → turn spawns is_daemon t p ≡ after_poll spawns is_daemon t.key (polled t p)
  unfolding turn
  turn_stays is_daemon t p e = rw e refl

  turn_background :
      (t : Turn) (p : Program) → alive t p ≡ true → turn spawns true t p ≡ in_loop (polled t p)
  unfolding turn after_poll
  turn_background t p e = rw e refl

  -- One pass in the foreground: it leaves the loop, or the loop goes on, with the threads cared
  -- for.
  foreground_pass :
      (t : Turn) (ts : List Turn) {idle : Bool} {p : Program}
      → (handle_console t.key ≡ HandleConsoleType.restart → idle ≡ true)
      → IsCared idle p
      → ((q : Program) × (main_loop spawns false (t ∷ ts) p ≡ left_loop q) × IsCared idle q)
        ⊎ ((q : Program) × (main_loop spawns false (t ∷ ts) p ≡ main_loop spawns false ts q)
            × IsCared (idle_after idle (handle_console t.key)) q)
  unfolding main_loop
  foreground_pass t ts {idle} {p} now c =
      let c' = polled-IsCared t c in
      elim (Bool-cases (alive t p)) [
        | inl e ↦
            let (q, g, d) =
              after_poll-Handled c' spawns t.key
                (handle-IsCared c' spawns (handle_console t.key) now) in
            inr (q, rw (turn_stays false t p e ∙ g, main_loop) refl, d)
        | inr e ↦ inl (polled t p, rw (turn_left false t p e, main_loop) refl, c')
      ]

  -- On keys that restart only what has been stopped, the loop is never in a call that hangs.
  pub foreground-IsAlive :
      (ts : List Turn) (idle : Bool) (p : Program)
      → RestartsStopped idle ts
      → IsCared idle p
      → IsAlive (main_loop spawns false ts p)
  unfolding main_loop
  foreground-IsAlive [] idle p ok c = (idle, c)
  foreground-IsAlive (t ∷ ts) idle p (now, later) c = elim (foreground_pass t ts now c) [
    | inl (q, e, d) ↦ subst IsAlive (sym e) (idle, d)
    | inr (q, e, d) ↦ subst IsAlive (sym e) (foreground-IsAlive ts _ q later d)
  ]

  -- The key for the exit, and then the pass behind it.
  exit_pass :
      (t : Turn) (p : Program)
      → handle_console t.key ≡ HandleConsoleType.exit
      → alive t p ≡ true
      → turn spawns false t p ≡ in_loop (stopping t p)
  unfolding handle after_poll
  exit_pass t p e b = turn_stays false t p b ∙ rw (e, after_poll) refl

  exits_next :
      (t t' : Turn) (after : List Turn) (p : Program)
      → handle_console t.key ≡ HandleConsoleType.exit
      → AllNoRequest t'.signals
      → IsQuiet t'.during
      → alive t p ≡ true
      → main_loop spawns false (t ∷ t' ∷ after) p ≡ left_loop (polled t' (stopping t p))
  unfolding main_loop
  exits_next t t' after p e quiet still b =
      let d = (stopping t p).daemon in
      let stops =
        deliver-stopped t'.signals d quiet (state-set_state State.stop (polled t p).daemon) in
      let (_, same, _) =
        is_running_with-stopped t'.during (deliver t'.signals d) (polled t p).manager still stops in
      rw (exit_pass t p e b, main_loop)
        (rw (turn_left false t' (stopping t p) (ap (λ r. r.0) same), main_loop) refl)

  -- A poll whose last signal is a request leaves the loop.
  pub late_request_leaves :
      (t : Turn) (ss : List ℕ) (s : ℕ) (after : List Turn) {idle : Bool} {p : Program}
      → t.during.at_answer ≡ ss ++ (s ∷ [])
      → IsRequest s
      → IsCared idle p
      → IsLeft (main_loop spawns false (t ∷ after) p)
  unfolding main_loop
  late_request_leaves t ss s after {idle} {p} e asks c =
      let off = late_request_answers t.during ss s (deliver t.signals p.daemon) p.manager e asks in
      rw (turn_left false t p off, main_loop) (idle, polled-IsCared t c)

  -- The pass behind the key for the exit leaves the loop.
  pub exit_passes :
      (t t' : Turn) (after : List Turn) {idle : Bool} {p : Program}
      → handle_console t.key ≡ HandleConsoleType.exit
      → AllNoRequest t'.signals
      → IsQuiet t'.during
      → IsCared idle p
      → IsLeft (main_loop spawns false (t ∷ t' ∷ after) p)
  unfolding main_loop handle
  exit_passes t t' after {idle} {p} e quiet still c =
      let c' = polled-IsCared t c in
      elim (Bool-cases (alive t p)) [
        | inl b ↦
            subst IsLeft (sym (exits_next t t' after p e quiet still b))
              (idle, polled-IsCared t' (stopping-IsCared t p c'))
        | inr b ↦ rw (turn_left false t p b, main_loop) (idle, c')
      ]

  -- What leaves the loop from every cared state does so behind such keys.
  pub foreground-IsLeft :
      (before rest : List Turn)
      → ((idle : Bool) (p : Program) → IsCared idle p → IsLeft (main_loop spawns false rest p))
      → {idle : Bool} {p : Program} → RestartsStopped idle before
      → IsCared idle p
      → IsLeft (main_loop spawns false (before ++ rest) p)
  foreground-IsLeft [] rest leaves ok c = leaves _ _ c
  foreground-IsLeft (b ∷ before) rest leaves (now, later) c =
      elim (foreground_pass b (before ++ rest) now c) [
        | inl (q, g, d) ↦ subst IsLeft (sym g) (_, d)
        | inr (q, g, d) ↦ subst IsLeft (sym g) (foreground-IsLeft before rest leaves later d)
      ]

  -- In the background keys are not read, so every run of the loop is as good.
  pub background-IsAlive :
      (ts : List Turn) (idle : Bool) (p : Program)
      → IsCared idle p
      → IsAlive (main_loop spawns true ts p)
  unfolding main_loop
  background-IsAlive [] idle p c = (idle, c)
  background-IsAlive (t ∷ ts) idle p c =
      let c' = polled-IsCared t c in
      elim (Bool-cases (alive t p)) [
        | inl e ↦ rw (turn_background t p e, main_loop) (background-IsAlive ts idle (polled t p) c')
        | inr e ↦ rw (turn_left true t p e, main_loop) (idle, c')
      ]
