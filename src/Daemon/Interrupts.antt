-- ===== src/Daemon/Interrupts.antt =====
-- `isRunning` of src/include/daemon.hpp with signals that arrive while it runs. `signalHandler` of
-- src/src/daemon.cpp writes the state between any two accesses of the main thread.
use boilerplate_thread_messa.Prelude.{
  ℕ, ◌≡◌, refl, ap, ◌∙◌, ◌⊎◌, Bool, true, false, List, [], ◌∷◌, ◌++◌, arith, if◌then◌else◌,
  Bool-cases, inl, inr,
}
use boilerplate_thread_messa.Daemon.Signals.{
  AllNoRequest, deliver-append, deliver-stopped, deliver-stops,
}
use boilerplate_thread_messa.Daemon.{
  State, Daemon, Handler, signal_handler, call, is_running_state, set_state, perform, dispatch,
  is_running, deliver, k_exit_signal, k_terminate_signal, k_reload_signal, k_user_signal1,
  k_user_signal2,
}

-- The signals in each gap: between the first test and the second, between the second and the
-- third, between the deciding test and the store of Running, from there to the return of the
-- handler, between that and the store of Stop, and before the last read.
pub record Gaps : Type 0 where
  pub in_tests1 : List ℕ
  pub in_tests2 : List ℕ
  pub at_entry : List ℕ
  pub in_handler : List ℕ
  pub at_failure : List ℕ
  pub at_answer : List ℕ

abbrev pub no_gaps : Gaps
no_gaps = record {
  in_tests1 = [];
  in_tests2 = [];
  at_entry = [];
  in_handler = [];
  at_failure = [];
  at_answer = [];
}

abbrev pub is_reload : State → Bool
is_reload State.reload = true
is_reload _ = false

abbrev pub is_user1 : State → Bool
is_user1 State.user1 = true
is_user1 _ = false

abbrev pub is_user2 : State → Bool
is_user2 State.user2 = true
is_user2 _ = false

module _ {W : Type 0} (g : Gaps) where
  unfoldable pub answer : Daemon W → W → Bool × Daemon W × W
  unfolding deliver
  answer d w = let d' = deliver g.at_answer d in (is_running_state d'.state, d', w)

  unfoldable pub perform_with : Handler W → Daemon W → W → Bool × Daemon W × W
  unfolding deliver set_state answer
  perform_with handler d w =
      let d1 = set_state State.running (deliver g.at_entry d) in
      let (ok, w') = call handler true w in
      let d2 = deliver g.in_handler d1 in
      answer (if ok then d2 else set_state State.stop (deliver g.at_failure d2)) w'

  unfoldable pub is_running_with : Daemon W → W → Bool × Daemon W × W
  unfolding deliver perform_with answer
  is_running_with d w =
      let d1 = deliver g.in_tests1 d in
      let d2 = deliver g.in_tests2 d1 in
      if is_reload d.state
      then perform_with d.handler_reload d w
      else if is_user1 d1.state
      then perform_with d.handler_user1 d1 w
      else if is_user2 d2.state
      then perform_with d.handler_user2 d2 w
      else answer d2 w

-- With no signal inside, it is `is_running`.
pub is_running_with-no_gaps :
    {W : Type 0} (d : Daemon W) (w : W) → is_running_with no_gaps d w ≡ is_running d w
unfolding is_running_with perform_with answer deliver set_state is_running dispatch perform
is_running_with-no_gaps d w = ground arith

-- Which branch a poll takes.
pub is_running_with-cases :
    {W : Type 0} (g : Gaps) (d : Daemon W) (w : W)
    → let d1 = deliver g.in_tests1 d in
      let d2 = deliver g.in_tests2 d1 in
      (is_running_with g d w ≡ perform_with g d.handler_reload d w)
      ⊎ ((is_running_with g d w ≡ perform_with g d.handler_user1 d1 w)
          ⊎ ((is_running_with g d w ≡ perform_with g d.handler_user2 d2 w)
              ⊎ (is_running_with g d w ≡ answer g d2 w)))
unfolding is_running_with
is_running_with-cases {W = W} g d w =
    let d1 = deliver g.in_tests1 d in
    let d2 = deliver g.in_tests2 d1 in
    elim (Bool-cases (is_reload d.state)) [
      | inl e ↦ inl (simp (e))
      | inr e ↦ elim (Bool-cases (is_user1 d1.state)) [
        | inl f ↦ inr (inl (simp (e, f)))
        | inr f ↦ elim (Bool-cases (is_user2 d2.state)) [
          | inl h ↦ inr (inr (inl (simp (e, f, h))))
          | inr h ↦ inr (inr (inr (simp (e, f, h))))
        ]
      ]
    ]

-- No signal asks for a reload or a user action before the last test of the poll.
abbrev pub IsQuiet : Gaps → Type 0
IsQuiet g = AllNoRequest g.in_tests1 × AllNoRequest g.in_tests2

-- A signal that asks for a reload or a user action.
abbrev pub IsRequest : ℕ → Type 0
IsRequest s = (s ≡ k_reload_signal) ⊎ ((s ≡ k_user_signal1) ⊎ (s ≡ k_user_signal2))

module _ {W : Type 0} where
  -- No signal makes the state Running.
  deliver_stays_off :
      (ss : List ℕ) (d : Daemon W)
      → is_running_state d.state ≡ false
      → is_running_state (deliver ss d).state ≡ false
  unfolding deliver signal_handler
  deliver_stays_off [] d e = e
  deliver_stays_off (s ∷ ss) d e = deliver_stays_off ss (signal_handler s d) (ground (arith, e))

  -- A stopped daemon answers false and runs no handler.
  pub is_running_with-stopped :
      (g : Gaps) (d : Daemon W) (w : W)
      → IsQuiet g
      → d.state ≡ State.stop
      → (d' : Daemon W) × (is_running_with g d w ≡ (false, d', w))
        × (is_running_state d'.state ≡ false)
  unfolding is_running_with answer
  is_running_with-stopped g d w (quiet1, quiet2) e =
      let e1 = deliver-stopped g.in_tests1 d quiet1 e in
      let e2 = deliver-stopped g.in_tests2 (deliver g.in_tests1 d) quiet2 e1 in
      let d2 = deliver g.in_tests2 (deliver g.in_tests1 d) in
      let off = deliver_stays_off g.at_answer d2 (rw e2 refl) in
      (deliver g.at_answer d2, simp (ap is_reload e, ap is_user1 e1, ap is_user2 e2, off), off)

  deliver-late :
      (g : Gaps) (ss : List ℕ) (s : ℕ) (d : Daemon W)
      → g.at_answer ≡ ss ++ (s ∷ [])
      → IsRequest s
      → is_running_state (deliver g.at_answer d).state ≡ false
  unfolding deliver signal_handler
  deliver-late g ss s d e asks = rw (e, deliver-append ss (s ∷ []) d) (ground arith)

  -- A request behind the deciding test of a poll makes the poll answer false, whatever the state
  -- and the handlers.
  pub late_request_answers :
      (g : Gaps) (ss : List ℕ) (s : ℕ) (d : Daemon W) (w : W)
      → g.at_answer ≡ ss ++ (s ∷ [])
      → IsRequest s
      → (is_running_with g d w).0 ≡ false
  unfolding perform_with answer
  late_request_answers g ss s d w e asks = elim (is_running_with-cases g d w) [
    | inl c ↦ ap (λ r. r.0) c ∙ deliver-late g ss s _ e asks
    | inr (inl c) ↦ ap (λ r. r.0) c ∙ deliver-late g ss s _ e asks
    | inr (inr (inl c)) ↦ ap (λ r. r.0) c ∙ deliver-late g ss s _ e asks
    | inr (inr (inr c)) ↦ ap (λ r. r.0) c ∙ deliver-late g ss s _ e asks
  ]

  -- While a reload is asked for, a SIGINT or SIGTERM that arrives between the test for it and the
  -- store of Running is overwritten: if the reload handler succeeds or is not set, the poll
  -- answers true.
  pub stop_overwritten :
      (s : ℕ) (d : Daemon W) (w : W)
      → d.state ≡ State.reload
      → (s ≡ k_exit_signal) ⊎ (s ≡ k_terminate_signal)
      → (call d.handler_reload true w).0 ≡ true
      → let (alive, d', w') = is_running_with (record no_gaps { at_entry = s ∷ [] }) d w in
        (alive ≡ true) × (d'.state ≡ State.running) × (w' ≡ (call d.handler_reload true w).1)
  unfolding is_running_with perform_with answer deliver signal_handler set_state
  stop_overwritten s d w e asks ok = ground arith

  -- A SIGINT or SIGTERM that arrives behind the store of Running, with no request behind it, ends
  -- the loop: the poll answers false and the state is Stop, whatever the handler does.
  pub stop_in_handler :
      (g : Gaps) (before after : List ℕ) (s : ℕ) (h : Handler W) (d : Daemon W) (w : W)
      → g.in_handler ≡ before ++ (s ∷ after)
      → (s ≡ k_exit_signal) ⊎ (s ≡ k_terminate_signal)
      → AllNoRequest after
      → AllNoRequest g.at_failure
      → AllNoRequest g.at_answer
      → let (alive, d', w') = perform_with g h d w in (alive ≡ false) × (d'.state ≡ State.stop)
  unfolding perform_with answer set_state
  stop_in_handler g before after s h d w e asks quiet1 quiet2 quiet3 =
      let d2 = deliver g.in_handler (set_state State.running (deliver g.at_entry d)) in
      let e2 : d2.state ≡ State.stop = rw e (
        deliver-stops before after s (set_state State.running (deliver g.at_entry d)) asks
          quiet1) in
      elim (Bool-cases (call h true w).0) [
        | inl f ↦ (
          simp (f, deliver-stopped g.at_answer d2 quiet3 e2),
          rw f (deliver-stopped g.at_answer d2 quiet3 e2),
        )
        | inr f ↦
            let off =
              deliver-stopped g.at_answer (set_state State.stop (deliver g.at_failure d2)) quiet3
                refl in
            (simp (f, off), rw f off)
      ]
