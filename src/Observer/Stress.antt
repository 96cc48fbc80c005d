-- ===== src/Observer/Stress.antt =====
-- The stress mode of the event maker of src/include/testThreads.hpp, over its rounds.
use boilerplate_thread_messa.Prelude.{ℕ, ◌+◌, ◌≤◌, ◌<◌, ◌≡◌, ◌⊎◌, true, false, List, [], ◌∷◌, arith}
use boilerplate_thread_messa.Events.{stop_observing, start_observing, stress_mode}
use boilerplate_thread_messa.Events.Payloads.{Message}
use boilerplate_thread_messa.Messaging.Endpoint.{World}
use boilerplate_thread_messa.Observer.{
  Observer, normal, stress, seconds, apply, apply_command, leave_stress, emit, after_wait,
}
use boilerplate_thread_messa.Observer.Modes.{Round, one, rounds}

-- A round in which no command touches the mode.
abbrev pub KeepsMode : Round → Type 0
KeepsMode r = (r.got ≡ false) ⊎ ((r.cmd.type ≡ stop_observing) ⊎ (r.cmd.type ≡ start_observing))

abbrev pub EachWithin : ℕ → List Round → Type 0
EachWithin until [] = Unit
EachWithin until (r ∷ rs) = (KeepsMode r × (r.clock.at_stress < until)) × EachWithin until rs

-- The stress mode until the time `until`.
pub record IsStressed (until : ℕ) (o : Observer) : Type 0 where
  pub mode : o.m_mode ≡ stress
  pub interval : o.m_interval ≡ 10
  pub ends : o.m_stress_until ≡ until

module _ {S : Type 0} where
  begins :
      (r : Round) (o : Observer) (w : World Message S)
      → r.got ≡ true
      → r.cmd.type ≡ stress_mode
      → r.clock.at_stress < r.clock.at_command + seconds 30
      → IsStressed (r.clock.at_command + seconds 30) (one r o w).0
  unfolding one after_wait apply_command apply leave_stress emit
  begins r o w got asks within = record {
    mode = ground arith;
    interval = ground arith;
    ends = ground arith;
  }

  goes_on :
      (until : ℕ) (r : Round) (o : Observer) (w : World Message S)
      → KeepsMode r
      → r.clock.at_stress < until
      → IsStressed until o
      → IsStressed until (one r o w).0
  unfolding one after_wait apply_command apply leave_stress emit
  goes_on until r o w keeps within v = record {
    mode = ground (arith, v.mode, v.ends);
    interval = ground (arith, v.mode, v.ends, v.interval);
    ends = ground (arith, v.mode, v.ends);
  }

  all_go_on :
      (until : ℕ) (rs : List Round) (o : Observer) (w : World Message S)
      → EachWithin until rs
      → IsStressed until o
      → IsStressed until (rounds rs o w).0
  unfolding rounds
  all_go_on until [] o w h v = v
  all_go_on until (r ∷ rs) o w ((keeps, within), later) v =
      all_go_on until rs (one r o w).0 (one r o w).1 later (goes_on until r o w keeps within v)

  falls_back :
      (until : ℕ) (r : Round) (o : Observer) (w : World Message S)
      → KeepsMode r
      → until ≤ r.clock.at_stress
      → IsStressed until o
      → let o' = (one r o w).0 in (o'.m_mode ≡ normal) × (o'.m_interval ≡ 2000)
  unfolding one after_wait apply_command apply leave_stress emit
  falls_back until r o w keeps over v =
      (ground (arith, v.mode, v.ends), ground (arith, v.mode, v.ends))

  -- A stress command lasts for 30 s. From its round on, through all rounds that look at the clock
  -- before these 30 s are over, the mode is stress and the interval 10 ms; the first round that
  -- looks later goes back to the normal mode and to 2000 ms, not to the interval before. No other
  -- command for the mode arrives in between.
  pub stress_lem :
      (r last : Round) (rs : List Round) (o : Observer) (w : World Message S)
      → r.got ≡ true
      → r.cmd.type ≡ stress_mode
      → let until = r.clock.at_command + seconds 30 in
        r.clock.at_stress < until
        → EachWithin until rs
        → KeepsMode last
        → until ≤ last.clock.at_stress
        → let (o1, w1) = rounds (r ∷ rs) o w in
          let o2 = (one last o1 w1).0 in
          (o1.m_mode ≡ stress)
          × (o1.m_interval ≡ 10)
          × (o2.m_mode ≡ normal)
          × (o2.m_interval ≡ 2000)
  unfolding rounds
  stress_lem r last rs o w got asks within later keeps over =
      let until = r.clock.at_command + seconds 30 in
      let (o0, w0) = one r o w in
      let v = all_go_on until rs o0 w0 later (begins r o w got asks within) in
      let back = falls_back until last (rounds rs o0 w0).0 (rounds rs o0 w0).1 keeps over v in
      (v.mode, v.interval, back.0, back.1)
