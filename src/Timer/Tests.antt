-- ===== src/Timer/Tests.antt =====
-- Examples of the theorems on the timer of src/include/time/stopTimer.hpp.
use boilerplate_thread_messa.Prelude.{◌≡◌, ◌↔◌, ◌⊎◌, true}
use boilerplate_thread_messa.Prelude.Int.{pos, ◌+ℤ◌, ◌≤ℤ◌}
use boilerplate_thread_messa.Timer.{StopTimer, current_time, is_running_and_elapsed}
use boilerplate_thread_messa.Timer.Laws.{is_elapsed_iff}

-- Started at 1000 ms for 200 ms.
abbrev ticking : StopTimer
ticking = record { m_start_point = pos 1000; m_timeout_duration = pos 200; m_is_running = true }

is_elapsed_iff_example : (is_running_and_elapsed (pos 1_200_999_999) ticking ≡ true) ↔ (
    (ticking.m_is_running ≡ true)
    × ((ticking.m_timeout_duration ≡ pos 0)
        ⊎ (ticking.m_timeout_duration +ℤ ticking.m_start_point +ℤ pos 1
            ≤ℤ current_time (pos 1_200_999_999))))
is_elapsed_iff_example = is_elapsed_iff (pos 1_200_999_999) ticking
