-- ===== src/Observer.antt =====
-- `ObserverIncomingThread` of src/include/testThreads.hpp: commands through the ring buffer, the
-- modes, and the events that it generates. Times are nanoseconds of the steady clock since its
-- epoch; each call of `now()` is a reading of its own.
pub mod Modes
pub mod Stress
pub mod Buffer
pub mod Effects
pub mod Commands
mod Tests
use boilerplate_thread_messa.Prelude.{
  ℕ, ◌+◌, ◌*◌, ◌%◌, ◌^◌, Bool, true, false, not, ◌&&◌, Option, none, some, List, ◌++◌, ltb, leb,
  if◌then◌else◌,
}
use boilerplate_thread_messa.Prelude.Text.{text, to_string}
use boilerplate_thread_messa.RingBuffer.{SpScRingBuffer, push}
use boilerplate_thread_messa.RingBuffer.Wait.{wait_pop_for}
use boilerplate_thread_messa.CondVar.{Wake}
use boilerplate_thread_messa.Events.{
  ObserverCommand, CommandType, stop_observing, start_observing, stress_mode, set_normal_mode,
  FileEvent, DirectEvent,
}
use boilerplate_thread_messa.Events.Payloads.{Message, file_event_payload, direct_event_payload}
use boilerplate_thread_messa.Messaging.Message.{Payload}
use boilerplate_thread_messa.Messaging.Endpoint.{World, Sender, send}
use boilerplate_thread_messa.Manager.{default_command, new_command_buffer}

pub data ObserverMode : Type 0 where
  normal stress : ObserverMode

-- `m_interval` is in milliseconds; `count` is the variable of `run`.
pub record Observer : Type 0 where
  pub m_next : Option Sender
  pub m_direct_to_processing : Option Sender
  pub m_cmd_buffer : SpScRingBuffer ObserverCommand
  pub m_pause_until : ℕ
  pub m_stress_until : ℕ
  pub m_mode : ObserverMode
  pub m_interval : ℕ
  pub count : ℕ

abbrev pub new_observer : Observer
new_observer = record {
  m_next = none;
  m_direct_to_processing = none;
  m_cmd_buffer = new_command_buffer;
  m_pause_until = 0;
  m_stress_until = 0;
  m_mode = normal;
  m_interval = 2000;
  count = 0;
}

unfoldable pub set_next : Sender → Observer → Observer
set_next s o = record o { m_next = some s }

unfoldable pub set_direct_to_processing : Sender → Observer → Observer
set_direct_to_processing s o = record o { m_direct_to_processing = some s }

unfoldable pub send_command : ObserverCommand → Observer → Bool × Observer
send_command cmd o =
    let (ok, r) = push cmd o.m_cmd_buffer in
    if not ok then (false, o) else (true, record o { m_cmd_buffer = r })

abbrev pub seconds : ℕ → ℕ
seconds n = n * 1_000_000_000

-- The switch of `applyCommand`; `now` is its reading of the clock.
unfoldable pub apply : CommandType → ℕ → ℕ → Observer → Observer
apply stop_observing duration now o = record o { m_pause_until = now + seconds duration }
apply start_observing duration now o = record o { m_pause_until = now + seconds duration }
apply stress_mode duration now o = record o {
  m_mode = stress;
  m_interval = 10;
  m_stress_until = now + seconds 30;
}
apply set_normal_mode duration now o = record o { m_mode = normal; m_interval = 500 }

unfoldable pub apply_command : ObserverCommand → ℕ → Observer → Observer
unfolding apply
apply_command cmd now o = apply cmd.type cmd.duration_sec now o

abbrev pub is_stress : ObserverMode → Bool
is_stress normal = false
is_stress stress = true

unfoldable pub leave_stress : ℕ → Observer → Observer
leave_stress now o =
    if is_stress o.m_mode && leb o.m_stress_until now
    then record o { m_mode = normal; m_interval = 2000 }
    else o

-- The event that is made as number `n`. The program's `int` counter is taken as unbounded; the
-- size is a product of `unsigned long long`.
abbrev pub nth_event : ℕ → ℕ → FileEvent
nth_event n stamp = record {
  file_name = text "file_" ++ (to_string n ++ text ".txt");
  file_size = 1024 * n % 2 ^ 64;
  send_time = stamp;
}

module _ {S : Type 0} where
  -- `onPostMessageReceived` of each thread of the chain has an empty body.
  abbrev pub no_hook : World Message S → World Message S
  no_hook w = w

  -- `if (m_next.has_value()) m_next->Send(...)`
  unfoldable pub send_if {μ} :
      {T : Type μ} ⦃p : Payload Message T⦄ → Option Sender → T → World Message S → World Message S
  unfolding send
  send_if none x w = w
  send_if (some s) x w = send (λ _ _ _. no_hook) s x w

  unfoldable pub emit : ℕ → Observer → World Message S → Observer × World Message S
  unfolding send_if
  emit stamp o w =
      let n = o.count + 1 in
      let w1 = send_if o.m_next (nth_event n stamp) w in
      (
        record o { count = n },
        send_if {T = DirectEvent} o.m_direct_to_processing (record { counter = n }) w1,
      )

  -- The two Sends of an event, one after the other.
  unfoldable pub emit_file : ℕ → Observer → World Message S → Observer × World Message S
  unfolding send_if
  emit_file stamp o w =
      let n = o.count + 1 in (record o { count = n }, send_if o.m_next (nth_event n stamp) w)

  unfoldable pub emit_direct : Observer → World Message S → World Message S
  unfolding send_if
  emit_direct o w =
      send_if {T = DirectEvent} o.m_direct_to_processing (record { counter = o.count }) w

-- The readings of the clock in one round of `run`.
pub record Readings : Type 0 where
  pub at_command : ℕ
  pub at_stress : ℕ
  pub at_pause : ℕ
  pub at_stamp : ℕ

module _ {S : Type 0} (c : Readings) where
  -- A round behind the wait.
  unfoldable pub after_wait :
      Bool × ObserverCommand → Observer → World Message S → Observer × World Message S
  unfolding apply_command leave_stress
  after_wait (got, cmd) o w =
      let o1 = if got then apply_command cmd c.at_command o else o in
      let o2 = leave_stress c.at_stress o1 in
      if ltb c.at_pause o2.m_pause_until then (o2, w) else emit c.at_stamp o2 w

  -- A round behind the wait up to its first Send; true if the second is still to come.
  unfoldable pub until_file :
      Bool × ObserverCommand → Observer → World Message S → Bool × Observer × World Message S
  unfolding apply_command leave_stress emit_file
  until_file (got, cmd) o w =
      let o1 = if got then apply_command cmd c.at_command o else o in
      let o2 = leave_stress c.at_stress o1 in
      let (o3, w3) = emit_file c.at_stamp o2 w in
      if ltb c.at_pause o2.m_pause_until then (false, o2, w) else (true, o3, w3)

  -- One round of `run`. `none` is a thread that still waits for a command.
  unfoldable pub round :
      List (Wake ObserverCommand) → Observer → World Message S → Option (Observer × World Message S)
  unfolding after_wait
  round ws o w = elim (wait_pop_for default_command ws o.m_cmd_buffer) [
    | none ↦ none
    | some (got, cmd, r) ↦ some (after_wait (got, cmd) (record o { m_cmd_buffer = r }) w)
  ]
