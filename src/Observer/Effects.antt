-- ===== src/Observer/Effects.antt =====
-- What the rounds of the event maker of src/include/testThreads.hpp are to make of its modes,
-- described field by field.
use boilerplate_thread_messa.Prelude.{
  ℕ, ◌+◌, ◌≡◌, refl, ap, ◌∙◌, Bool, true, false, ◌&&◌, leb, ltb, inl, inr, Bool-cases, arith,
  if◌then◌else◌, List, [], ◌∷◌,
}
use boilerplate_thread_messa.Events.{
  ObserverCommand, CommandType, stop_observing, start_observing, stress_mode, set_normal_mode,
}
use boilerplate_thread_messa.Events.Payloads.{Message}
use boilerplate_thread_messa.Messaging.Endpoint.{World}
use boilerplate_thread_messa.Observer.{
  Observer, ObserverMode, normal, stress, Readings, seconds, after_wait, apply_command, apply,
  leave_stress, is_stress, emit,
}
use boilerplate_thread_messa.Observer.Modes.{Round}

-- The state of the event maker apart from its buffer and its links.
pub record Settings : Type 0 where
  pub pause_until : ℕ
  pub stress_until : ℕ
  pub mode : ObserverMode
  pub interval : ℕ
  pub made : ℕ

abbrev pub settings_of : Observer → Settings
settings_of o = record {
  pause_until = o.m_pause_until;
  stress_until = o.m_stress_until;
  mode = o.m_mode;
  interval = o.m_interval;
  made = o.count;
}

-- The deadline of the pause behind a command that comes at `now`.
abbrev pub paused_until : CommandType → ℕ → ℕ → ℕ → ℕ
paused_until stop_observing duration now before = now + seconds duration
paused_until start_observing duration now before = now + seconds duration
paused_until stress_mode duration now before = before
paused_until set_normal_mode duration now before = before

abbrev pub stressed_until : CommandType → ℕ → ℕ → ℕ
stressed_until stress_mode now before = now + seconds 30
stressed_until stop_observing now before = before
stressed_until start_observing now before = before
stressed_until set_normal_mode now before = before

abbrev pub mode_after : CommandType → ObserverMode → ObserverMode
mode_after stress_mode before = stress
mode_after set_normal_mode before = normal
mode_after stop_observing before = before
mode_after start_observing before = before

abbrev pub interval_after : CommandType → ℕ → ℕ
interval_after stress_mode before = 10
interval_after set_normal_mode before = 500
interval_after stop_observing before = before
interval_after start_observing before = before

-- The command of a round, if it got one.
abbrev pub commanded : Round → Settings → Settings
commanded r s =
    if r.got
    then record {
      pause_until = paused_until r.cmd.type r.cmd.duration_sec r.clock.at_command s.pause_until;
      stress_until = stressed_until r.cmd.type r.clock.at_command s.stress_until;
      mode = mode_after r.cmd.type s.mode;
      interval = interval_after r.cmd.type s.interval;
      made = s.made;
    }
    else s

-- The end of the stress mode.
abbrev pub relaxed : ℕ → Settings → Settings
relaxed now s =
    if is_stress s.mode && leb s.stress_until now
    then record s { mode = normal; interval = 2000 }
    else s

-- The event, unless the pause lasts.
abbrev pub counted : ℕ → Settings → Settings
counted now s = if ltb now s.pause_until then s else record s { made = s.made + 1 }

unfoldable pub obey : Round → Settings → Settings
obey r s = counted r.clock.at_pause (relaxed r.clock.at_stress (commanded r s))

abbrev pub obey_all : List Round → Settings → Settings
obey_all [] s = s
obey_all (r ∷ rs) s = obey_all rs (obey r s)

settings-apply_command :
    (cmd : ObserverCommand) (c : Readings) (o : Observer)
    → settings_of (apply_command cmd c.at_command o)
      ≡ commanded (record { clock = c; got = true; cmd = cmd }) (settings_of o)
unfolding apply_command apply
settings-apply_command cmd c o = by_type cmd.type
  where
    by_type :
        (t : CommandType)
        → settings_of (apply t cmd.duration_sec c.at_command o) ≡ record {
          pause_until = paused_until t cmd.duration_sec c.at_command o.m_pause_until;
          stress_until = stressed_until t c.at_command o.m_stress_until;
          mode = mode_after t o.m_mode;
          interval = interval_after t o.m_interval;
          made = o.count;
        }
    by_type stop_observing = refl
    by_type start_observing = refl
    by_type stress_mode = refl
    by_type set_normal_mode = refl

settings-leave_stress :
    (now : ℕ) (o : Observer) → settings_of (leave_stress now o) ≡ relaxed now (settings_of o)
unfolding leave_stress
settings-leave_stress now o = ground arith

-- A round from the test of the stress mode on.
settings-later :
    {S : Type 0} (c : Readings) (o : Observer) (w : World Message S)
    → settings_of
        (if ltb c.at_pause (leave_stress c.at_stress o).m_pause_until
          then (leave_stress c.at_stress o, w)
          else emit c.at_stamp (leave_stress c.at_stress o) w).0
      ≡ counted c.at_pause (relaxed c.at_stress (settings_of o))
unfolding emit
settings-later c o w =
    elim (Bool-cases (ltb c.at_pause (leave_stress c.at_stress o).m_pause_until)) [
      | inl e ↦ rw e refl
      | inr e ↦ rw e refl
    ]
    ∙ ap (counted c.at_pause) (settings-leave_stress c.at_stress o)

-- A round behind its wait does to the modes what it is to do.
pub settings-after_wait :
    {S : Type 0} (c : Readings) (got : Bool) (cmd : ObserverCommand) (o : Observer)
    (w : World Message S)
    → settings_of (after_wait c (got, cmd) o w).0
      ≡ obey (record { clock = c; got = got; cmd = cmd }) (settings_of o)
unfolding after_wait obey
settings-after_wait c true cmd o w =
    settings-later c (apply_command cmd c.at_command o) w
    ∙ ap (λ s. counted c.at_pause (relaxed c.at_stress s)) (settings-apply_command cmd c o)
settings-after_wait c false cmd o w = settings-later c o w
