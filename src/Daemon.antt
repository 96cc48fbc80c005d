-- ===== src/Daemon.antt =====
-- src/include/daemon.hpp and src/src/daemon.cpp: the daemon's state, its handlers and the signals
-- that change it. No handler looks at the daemon itself. `W` is
-- what the handlers work on; the operating system's answers are arguments.

pub mod Polling
pub mod Interrupts
pub mod Signals
pub mod Background
mod Tests
use Prim.Native.String.{String}
use boilerplate_thread_messa.Prelude.{
  ℕ, Bool, true, false, not, Option, none, some, List, [], ◌∷◌, ◌==◌, ◌||◌, ltb, if◌then◌else◌,
}

pub data State : Type 0 where
  start running reload stop user1 user2 : State

-- The values of `<csignal>` on Linux.
abbrev pub k_exit_signal : ℕ
k_exit_signal = 2

abbrev pub k_terminate_signal : ℕ
k_terminate_signal = 15

abbrev pub k_reload_signal : ℕ
k_reload_signal = 1

abbrev pub k_user_signal1 : ℕ
k_user_signal1 = 10

abbrev pub k_user_signal2 : ℕ
k_user_signal2 = 12

-- The signals that the constructor sets `signalHandler` for. The others keep the disposition that
-- the process was started with, and never reach it.
unfoldable pub is_handled : ℕ → Bool
is_handled signal =
    signal == k_exit_signal
    || signal == k_terminate_signal
    || signal == k_reload_signal
    || signal == k_user_signal1
    || signal == k_user_signal2

-- `std::function<bool()>`, which may be empty.
abbrev pub Handler : Type 0 → Type 0
Handler W = Option (W → Bool × W)

pub record Daemon (W : Type 0) : Type 0 where
  pub state : State
  pub pid : Option ℕ
  pub is_initialized : Bool
  pub pid_file_name : String
  pub handler_before_to_start : Handler W
  pub handler_reload : Handler W
  pub handler_user1 : Handler W
  pub handler_user2 : Handler W
  pub handler_before_to_exit : Handler W

-- The singleton as it is constructed.
abbrev pub new_daemon : {W : Type 0} → Daemon W
new_daemon = record {
  state = State.start;
  pid = none;
  is_initialized = false;
  pid_file_name = "";
  handler_before_to_start = none;
  handler_reload = none;
  handler_user1 = none;
  handler_user2 = none;
  handler_before_to_exit = none;
}

-- A call of a handler; an empty one counts as the value given.
abbrev pub call : {W : Type 0} → Handler W → Bool → W → Bool × W
call none default w = (default, w)
call (some f) default w = f w

abbrev pub is_running_state : State → Bool
is_running_state State.running = true
is_running_state _ = false

module _ {W : Type 0} where
  unfoldable pub set_start_function : (W → Bool × W) → Daemon W → Daemon W
  set_start_function f d = record d { handler_before_to_start = some f }

  unfoldable pub set_reload_function : (W → Bool × W) → Daemon W → Daemon W
  set_reload_function f d = record d { handler_reload = some f }

  unfoldable pub set_user1_function : (W → Bool × W) → Daemon W → Daemon W
  set_user1_function f d = record d { handler_user1 = some f }

  unfoldable pub set_user2_function : (W → Bool × W) → Daemon W → Daemon W
  set_user2_function f d = record d { handler_user2 = some f }

  unfoldable pub set_close_function : (W → Bool × W) → Daemon W → Daemon W
  set_close_function f d = record d { handler_before_to_exit = some f }

  unfoldable pub set_state : State → Daemon W → Daemon W
  set_state s d = record d { state = s }

  unfoldable pub get_state : Daemon W → State
  get_state d = d.state

  unfoldable pub start_all : Daemon W → W → Bool × Daemon W × W
  start_all d w =
      let (ok, w') = call d.handler_before_to_start false w in
      (ok, record d { state = State.running }, w')

  unfoldable pub reload_all : Daemon W → Bool × Daemon W
  reload_all d = (true, record d { state = State.reload })

  unfoldable pub close_all : Daemon W → W → Bool × Daemon W × W
  close_all d w =
      let (ok, w') = call d.handler_before_to_exit false w in
      (ok, record d { state = State.stop }, w')

  -- `performReloadIfRequired`, `performUser1IfRequired`, `performUser2IfRequired`: one body over
  -- three handlers.
  unfoldable pub perform : Handler W → Daemon W → W → Daemon W × W
  perform handler d w =
      let (ok, w') = call handler true w in
      (record d { state = if ok then State.running else State.stop }, w')

  unfoldable pub dispatch : State → Daemon W → W → Daemon W × W
  unfolding perform
  dispatch State.reload d w = perform d.handler_reload d w
  dispatch State.user1 d w = perform d.handler_user1 d w
  dispatch State.user2 d w = perform d.handler_user2 d w
  dispatch _ d w = (d, w)

  -- `isRunning`, with no signal during the call.
  unfoldable pub is_running : Daemon W → W → Bool × Daemon W × W
  unfolding dispatch
  is_running d w = let (d', w') = dispatch d.state d w in (is_running_state d'.state, d', w')

  unfoldable pub signal_handler : ℕ → Daemon W → Daemon W
  signal_handler signal d =
      if signal == k_exit_signal
      then record d { state = State.stop }
      else if signal == k_terminate_signal
      then record d { state = State.stop }
      else if signal == k_reload_signal
      then record d { state = State.reload }
      else if signal == k_user_signal1
      then record d { state = State.user1 }
      else if signal == k_user_signal2
      then record d { state = State.user2 }
      else d

  -- The handler for each of the signals, in order.
  unfoldable pub deliver : List ℕ → Daemon W → Daemon W
  unfolding signal_handler
  deliver [] d = d
  deliver (s ∷ ss) d = deliver ss (signal_handler s d)
