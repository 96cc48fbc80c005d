-- ===== src/Observer/Buffer.antt =====
-- The rounds of the event maker of src/include/testThreads.hpp leave the command buffer as its wait
-- left it.
use boilerplate_thread_messa.Prelude.{
  ℕ, ◌≡◌, refl, ◌∙◌, Bool, true, false, inl, inr, Bool-cases, ltb, arith, if◌then◌else◌,
}
use boilerplate_thread_messa.Events.{
  ObserverCommand, CommandType, stop_observing, start_observing, stress_mode, set_normal_mode,
}
use boilerplate_thread_messa.Events.Payloads.{Message}
use boilerplate_thread_messa.Messaging.Endpoint.{World}
use boilerplate_thread_messa.Observer.{
  Observer, Readings, after_wait, apply_command, apply, leave_stress, emit,
}

apply_command-m_cmd_buffer :
    (cmd : ObserverCommand) (now : ℕ) (o : Observer)
    → (apply_command cmd now o).m_cmd_buffer ≡ o.m_cmd_buffer
unfolding apply_command apply
apply_command-m_cmd_buffer cmd now o = by_type cmd.type
  where
    by_type : (t : CommandType) → (apply t cmd.duration_sec now o).m_cmd_buffer ≡ o.m_cmd_buffer
    by_type stop_observing = refl
    by_type start_observing = refl
    by_type stress_mode = refl
    by_type set_normal_mode = refl

leave_stress-m_cmd_buffer :
    (now : ℕ) (o : Observer) → (leave_stress now o).m_cmd_buffer ≡ o.m_cmd_buffer
unfolding leave_stress
leave_stress-m_cmd_buffer now o = ground arith

pub after_wait-m_cmd_buffer :
    {S : Type 0} (c : Readings) (got : Bool) (cmd : ObserverCommand) (o : Observer)
    (w : World Message S)
    → (after_wait c (got, cmd) o w).0.m_cmd_buffer ≡ o.m_cmd_buffer
unfolding after_wait emit
after_wait-m_cmd_buffer c got cmd o w = paused got
  where
    later :
        (o1 : Observer)
        → (if ltb c.at_pause (leave_stress c.at_stress o1).m_pause_until
            then (leave_stress c.at_stress o1, w)
            else emit c.at_stamp (leave_stress c.at_stress o1) w).0.m_cmd_buffer
          ≡ o1.m_cmd_buffer
    later o1 = elim (Bool-cases (ltb c.at_pause (leave_stress c.at_stress o1).m_pause_until)) [
      | inl e ↦ rw e (leave_stress-m_cmd_buffer c.at_stress o1)
      | inr e ↦ rw e (leave_stress-m_cmd_buffer c.at_stress o1)
    ]

    paused : (b : Bool) → (after_wait c (b, cmd) o w).0.m_cmd_buffer ≡ o.m_cmd_buffer
    paused true =
        later (apply_command cmd c.at_command o) ∙ apply_command-m_cmd_buffer cmd c.at_command o
    paused false = later o
