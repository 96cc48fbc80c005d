-- ===== src/Timer.antt =====
-- src/include/time/stopTimer.hpp. Times and durations are signed counts, unbounded here; the
-- reading of the steady clock, in nanoseconds, is an argument of each method that calls
-- `CurrentTime`.
pub mod Laws
mod Tests
use boilerplate_thread_messa.Prelude.{ℕ, Bool, true, false, not, Option, none, some, if◌then◌else◌}
use boilerplate_thread_messa.Prelude.Int.{ℤ, pos, ◌-ℤ◌, scale, quot, ltb_ℤ, is_zero}

pub record StopTimer : Type 0 where
  pub m_start_point : ℤ
  pub m_timeout_duration : ℤ
  pub m_is_running : Bool

-- A `TDurationUnit`: `coarse k` is `k` milliseconds long (1 for milliseconds, 1000 for seconds),
-- `fine k` a `k`-th of one.
pub data DurationUnit : Type 0 where
  coarse fine : ℕ → DurationUnit

-- `duration_cast` from milliseconds, which rounds towards zero.
unfoldable pub from_milliseconds : DurationUnit → ℤ → ℤ
from_milliseconds (coarse k) d = quot d k
from_milliseconds (fine k) d = scale k d

-- `stopTimer()` and `stopTimer(timeout)`
abbrev pub default_timer : StopTimer
default_timer = record { m_start_point = pos 0; m_timeout_duration = pos 0; m_is_running = false }

abbrev pub timer : ℤ → StopTimer
timer timeout = record default_timer { m_timeout_duration = timeout }

-- `Clock::now()` cast to milliseconds
unfoldable pub current_time : ℤ → ℤ
current_time now = quot now 1_000_000

unfoldable pub timeout : DurationUnit → StopTimer → ℤ
unfolding from_milliseconds
timeout u t = from_milliseconds u t.m_timeout_duration

-- `SetTimeout` with a unit of `k` milliseconds: the inner cast is to the unit that the argument
-- has, and the assignment converts to milliseconds, for which C++ admits the coarse units only.
unfoldable pub set_timeout : ℕ → ℤ → StopTimer → StopTimer
set_timeout k d t = record t { m_timeout_duration = scale k d }

unfoldable pub is_running : StopTimer → Bool
is_running t = t.m_is_running

unfoldable pub reset : StopTimer → StopTimer
reset t = record t { m_is_running = false; m_start_point = pos 0 }

unfoldable pub stop : StopTimer → StopTimer
stop t = record t { m_is_running = false }

unfoldable pub start : ℤ → StopTimer → ℤ × StopTimer
start now t = (current_time now, record t { m_is_running = true; m_start_point = current_time now })

unfoldable pub start_with : ℕ → ℤ → ℤ → StopTimer → ℤ × StopTimer
unfolding set_timeout
start_with k d now t =
    let t' = set_timeout k d t in
    (current_time now, record t' { m_is_running = true; m_start_point = current_time now })

unfoldable pub elapsed_time : DurationUnit → ℤ → StopTimer → ℤ
unfolding is_running from_milliseconds
elapsed_time u now t =
    if not (is_running t) then pos 0 else from_milliseconds u (current_time now -ℤ t.m_start_point)

unfoldable pub left_time : DurationUnit → ℤ → StopTimer → ℤ
unfolding is_running from_milliseconds elapsed_time
left_time u now t =
    if not (is_running t)
    then pos 0
    else from_milliseconds u (t.m_timeout_duration -ℤ elapsed_time (coarse 1) now t)

unfoldable pub is_elapsed : ℤ → StopTimer → Option Bool
unfolding elapsed_time
is_elapsed now t =
    if not t.m_is_running
    then none
    else if is_zero t.m_timeout_duration
    then some true
    else some (ltb_ℤ t.m_timeout_duration (elapsed_time (coarse 1) now t))

unfoldable pub is_running_and_elapsed : ℤ → StopTimer → Bool
unfolding is_elapsed
is_running_and_elapsed now t = elim (is_elapsed now t) [ some b ↦ b | none ↦ false ]
