-- ===== src/Timer/Laws.antt =====
-- The times that the timer of src/include/time/stopTimer.hpp reports.
use boilerplate_thread_messa.Prelude.{
  ℕ, ◌<◌, ◌≡◌, refl, ap, ◌∙◌, ◌↔◌, ◌⊎◌, inl, inr, true, arith, Bool-cases,
}
use boilerplate_thread_messa.Prelude.Int.{
  ℤ, pos, negsuc, ◌+ℤ◌, ◌-ℤ◌, ◌≤ℤ◌, quot, ltb_ℤ, is_zero, +ℤ_parts, -ℤ_parts, quot_mono, quot-scale,
}
use boilerplate_thread_messa.Timer.{
  StopTimer, coarse, current_time, timeout, start_with, elapsed_time, left_time,
  is_running_and_elapsed,
}

quot-one : (a : ℤ) → quot a 1 ≡ a
unfolding quot
quot-one (pos n) = ap pos (omega arith)
quot-one (negsuc n) = ground arith

current_time_mono : (s t : ℤ) → s ≤ℤ t → current_time s ≤ℤ current_time t
unfolding current_time
current_time_mono s t h = quot_mono 1_000_000 s t (omega arith) h

elapsed_running :
    (now : ℤ) (t : StopTimer)
    → t.m_is_running ≡ true
    → elapsed_time (coarse 1) now t ≡ current_time now -ℤ t.m_start_point
unfolding elapsed_time
elapsed_running now t run = ground (arith, quot-one (current_time now -ℤ t.m_start_point))

passed_iff : (T s c : ℤ) → (ltb_ℤ T (c -ℤ s) ≡ true) ↔ (T +ℤ s +ℤ pos 1 ≤ℤ c)
passed_iff T s c = ground (arith, +ℤ_parts T s, +ℤ_parts (T +ℤ s) (pos 1), -ℤ_parts c s)

is_zero_iff : (a : ℤ) → (is_zero a ≡ true) ↔ (a ≡ pos 0)
is_zero_iff a = ground arith

-- A running timer has elapsed exactly when its timeout is zero or more whole milliseconds of the
-- clock than its timeout have passed since its start point; a stopped one never has.
pub is_elapsed_iff :
    (now : ℤ) (t : StopTimer)
    → (is_running_and_elapsed now t ≡ true) ↔ (
        (t.m_is_running ≡ true)
        × ((t.m_timeout_duration ≡ pos 0)
            ⊎ (t.m_timeout_duration +ℤ t.m_start_point +ℤ pos 1 ≤ℤ current_time now)))
unfolding is_running_and_elapsed
is_elapsed_iff now t = elim (Bool-cases t.m_is_running) [
  | inl run ↦ ground (
    arith,
    elapsed_running now t run,
    is_zero_iff t.m_timeout_duration,
    passed_iff t.m_timeout_duration t.m_start_point (current_time now),
  )
  | inr still ↦ ground arith
]

-- Once it has elapsed it stays so until it is started, stopped or reset, as the clock goes on.
pub is_elapsed_stays :
    (now later : ℤ) (t : StopTimer)
    → now ≤ℤ later
    → is_running_and_elapsed now t ≡ true
    → is_running_and_elapsed later t ≡ true
is_elapsed_stays now later t h e =
    let (run, why) = (is_elapsed_iff now t).0 e in
    (is_elapsed_iff later t).1 (run, ground (arith, current_time_mono now later h))

-- While the timer runs, the elapsed and the remaining time add up to the timeout.
pub elapsed-add-left :
    (now : ℤ) (t : StopTimer)
    → t.m_is_running ≡ true
    → elapsed_time (coarse 1) now t +ℤ left_time (coarse 1) now t ≡ t.m_timeout_duration
unfolding left_time
elapsed-add-left now t run = ground (
  arith,
  elapsed_running now t run,
  quot-one (t.m_timeout_duration -ℤ (current_time now -ℤ t.m_start_point)),
  +ℤ_parts (current_time now -ℤ t.m_start_point)
      (t.m_timeout_duration -ℤ (current_time now -ℤ t.m_start_point)),
  -ℤ_parts t.m_timeout_duration (current_time now -ℤ t.m_start_point),
)

sub_self : (a : ℤ) → a -ℤ a ≡ pos 0
sub_self a = ground (arith, -ℤ_parts a a)

-- After `Start` with a timeout of `d` units of `k` milliseconds the timer runs, from the time that
-- `Start` returns, and `Timeout` in that unit gives `d` back.
pub start_with_lem :
    (k : ℕ) (d now : ℤ) (t : StopTimer)
    → 0 < k
    → let (p, t') = start_with k d now t in
      (t'.m_is_running ≡ true)
      × (t'.m_start_point ≡ p)
      × (timeout (coarse k) t' ≡ d)
      × (elapsed_time (coarse 1) now t' ≡ pos 0)
unfolding start_with timeout elapsed_time
start_with_lem k d now t h =
    (refl, refl, quot-scale k d h, quot-one _ ∙ sub_self (current_time now))
