-- ===== src/Daemon/Polling.antt =====
-- `isRunning` of src/include/daemon.hpp and the request that is pending.
use boilerplate_thread_messa.Prelude.{◌≡◌, ◌⊎◌, true, false, Option, none, some, arith}
use boilerplate_thread_messa.Daemon.{
  State, Daemon, Handler, call, is_running_state, perform, dispatch, is_running,
}

-- The handler that a state asks for.
abbrev pub request : {W : Type 0} → Daemon W → Option (Handler W)
request d = elim (d.state) [
  | State.reload ↦ some d.handler_reload
  | State.user1 ↦ some d.handler_user1
  | State.user2 ↦ some d.handler_user2
  | _ ↦ none
]

module _ {W : Type 0} (d : Daemon W) (w : W) where
  -- `isRunning` answers true exactly when it leaves the daemon in the state Running, and it never
  -- leaves a request behind: after it the state is Start, Running or Stop.
  pub is_running-settles :
      let (alive, d', w') = is_running d w in
      (alive ≡ is_running_state d'.state)
      × ((d'.state ≡ State.start) ⊎ ((d'.state ≡ State.running) ⊎ (d'.state ≡ State.stop)))
  unfolding is_running dispatch perform
  is_running-settles = ground arith

  -- With a request pending, `isRunning` runs the handler of that request once and no other, and
  -- the answer is the handler's; an empty handler counts as a success.
  pub is_running-request :
      (h : Handler W)
      → request d ≡ some h
      → let (alive, d', w') = is_running d w in
        (alive ≡ (call h true w).0)
        × (w' ≡ (call h true w).1)
        × (d'.state ≡ (elim (call h true w).0 [ true ↦ State.running | false ↦ State.stop ]))
  unfolding is_running dispatch perform
  is_running-request h e = ground arith

  -- With none pending it runs nothing and changes nothing.
  pub is_running-idle : request d ≡ none → is_running d w ≡ (is_running_state d.state, d, w)
  unfolding is_running dispatch
  is_running-idle e = ground arith
