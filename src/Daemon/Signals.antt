-- ===== src/Daemon/Signals.antt =====
-- The signals of src/src/daemon.cpp between the polls of the main loop.
use boilerplate_thread_messa.Prelude.{
  ℕ, ◌↔◌, inl, inr, Bool-cases, ◌≡◌, ◌≢◌, refl, ◌⊎◌, Bool, true, false, List, [], ◌∷◌, ◌++◌, arith,
}
use boilerplate_thread_messa.Daemon.{
  State, Daemon, new_daemon, is_handled, call, perform, dispatch, is_running, signal_handler,
  deliver, k_exit_signal, k_terminate_signal, k_reload_signal, k_user_signal1, k_user_signal2,
}

-- A signal that the daemon has no request for, or that asks it to stop.
abbrev pub NoRequest : ℕ → Type 0
NoRequest s = (s ≢ k_reload_signal) × (s ≢ k_user_signal1) × (s ≢ k_user_signal2)

abbrev pub AllNoRequest : List ℕ → Type 0
AllNoRequest [] = Unit
AllNoRequest (s ∷ ss) = NoRequest s × AllNoRequest ss

module _ {W : Type 0} where
  -- One poll with the signals that arrived before it.
  pub poll : List ℕ → Daemon W → W → Bool × Daemon W × W
  poll ss d w = is_running (deliver ss d) w

  pub deliver-stopped :
      (ss : List ℕ) (d : Daemon W)
      → AllNoRequest ss
      → d.state ≡ State.stop
      → (deliver ss d).state ≡ State.stop
  unfolding deliver signal_handler
  deliver-stopped [] d h e = e
  deliver-stopped (s ∷ ss) d h e = deliver-stopped ss (signal_handler s d) h.1 (ground arith)

  pub deliver-append :
      (ss ts : List ℕ) (d : Daemon W) → deliver (ss ++ ts) d ≡ deliver ts (deliver ss d)
  unfolding deliver
  deliver-append [] ts d = refl
  deliver-append (s ∷ ss) ts d = deliver-append ss ts (signal_handler s d)

  signal_stops :
      (s : ℕ) (d : Daemon W)
      → (s ≡ k_exit_signal) ⊎ (s ≡ k_terminate_signal)
      → (signal_handler s d).state ≡ State.stop
  unfolding signal_handler
  signal_stops s d asks = ground arith

  pub poll-stopped : (d : Daemon W) (w : W) → d.state ≡ State.stop → is_running d w ≡ (false, d, w)
  unfolding is_running dispatch
  poll-stopped d w e = ground arith

  -- The signals that the constructor sets the handler for are those that it acts on: with any other
  -- the state stays as it was, and the default branch of the handler runs.
  handled_iff :
      (s : ℕ)
      → (is_handled s ≡ true)
        ↔ ((d d' : Daemon W) → (signal_handler s d).state ≡ (signal_handler s d').state)
  unfolding is_handled signal_handler
  handled_iff s = (
    λ e d d'. ground (arith, e),
    λ same. elim (Bool-cases (is_handled s)) [
      | inl e ↦ e
      | inr e ↦
          let stays = same new_daemon (record new_daemon { state = State.stop }) in
          absurd (ground (arith, e, stays))
    ],
  )

  -- A stop request with no other request behind it is the state at the end.
  pub deliver-stops :
      (before after : List ℕ) (s : ℕ) (d : Daemon W)
      → (s ≡ k_exit_signal) ⊎ (s ≡ k_terminate_signal)
      → AllNoRequest after
      → (deliver (before ++ (s ∷ after)) d).state ≡ State.stop
  unfolding deliver
  deliver-stops before after s d asks quiet = rw (deliver-append before (s ∷ after) d) (
      deliver-stopped after (signal_handler s (deliver before d)) quiet
        (signal_stops s (deliver before d) asks))

  -- SIGINT or SIGTERM ends the main loop at the next poll, and no handler runs, provided that none
  -- of the signals that arrive behind it asks for a reload or a user action.
  pub terminate_stops :
      (before after : List ℕ) (s : ℕ) (d : Daemon W) (w : W)
      → (s ≡ k_exit_signal) ⊎ (s ≡ k_terminate_signal)
      → AllNoRequest after
      → let (alive, d', w') = poll (before ++ (s ∷ after)) d w in
        (alive ≡ false) × (d'.state ≡ State.stop) × (w' ≡ w)
  unfolding poll deliver signal_handler
  terminate_stops before after s d w asks quiet =
      let stopped = deliver-stops before after s d asks quiet in
      rw (poll-stopped (deliver (before ++ (s ∷ after)) d) w stopped) (refl, stopped, refl)

  -- A signal changes nothing but the state.
  deliver-reload : (ss : List ℕ) (d : Daemon W) → (deliver ss d).handler_reload ≡ d.handler_reload
  unfolding deliver signal_handler
  deliver-reload [] d = refl
  deliver-reload (s ∷ ss) d = ground (arith, deliver-reload ss (signal_handler s d))

  -- The request to stop is lost when a reload signal arrives behind it before the next poll and
  -- the reload handler succeeds or is not set: the state was Stop, and yet the loop goes on.
  pub terminate_lost :
      (before : List ℕ) (s : ℕ) (d : Daemon W) (w : W)
      → (s ≡ k_exit_signal) ⊎ (s ≡ k_terminate_signal)
      → (call d.handler_reload true w).0 ≡ true
      → let (alive, d', w') = poll (before ++ (s ∷ k_reload_signal ∷ [])) d w in
        ((deliver (before ++ (s ∷ [])) d).state ≡ State.stop)
        × (alive ≡ true)
        × (d'.state ≡ State.running)
  unfolding poll is_running dispatch perform deliver signal_handler
  terminate_lost before s d w asks ok = (
    rw (deliver-append before (s ∷ []) d) (signal_stops s (deliver before d) asks),
    rw (deliver-append before (s ∷ k_reload_signal ∷ []) d) (rw (same, ok)),
    rw (deliver-append before (s ∷ k_reload_signal ∷ []) d) (rw (same, ok)),
  )
    where
      same : (signal_handler s (deliver before d)).handler_reload ≡ d.handler_reload
      same = ground (arith, deliver-reload before d)
