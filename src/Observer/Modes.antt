-- ===== src/Observer/Modes.antt =====
-- The modes of the event maker, and its pauses, over its rounds.
use boilerplate_thread_messa.Prelude.{
  ℕ, ◌+◌, ◌<◌, ◌≡◌, refl, sym, subst, ◌∙◌, ◌⊎◌, Bool, true, false, List, [], ◌∷◌, arith,
}
use boilerplate_thread_messa.Events.{
  ObserverCommand, stop_observing, start_observing, stress_mode, set_normal_mode,
}
use boilerplate_thread_messa.Events.Payloads.{Message}
use boilerplate_thread_messa.Messaging.Endpoint.{World}
use boilerplate_thread_messa.Observer.{
  Observer, normal, stress, Readings, seconds, apply, apply_command, leave_stress, emit, after_wait,
}

-- The interval that goes with the mode, in milliseconds.
pub record IsTimed (o : Observer) : Type 0 where
  pub slow : o.m_mode ≡ normal → (o.m_interval ≡ 2000) ⊎ (o.m_interval ≡ 500)
  pub fast : o.m_mode ≡ stress → o.m_interval ≡ 10

-- What one round gets: the readings of the clock, and the result of the wait.
pub record Round : Type 0 where
  pub clock : Readings
  pub got : Bool
  pub cmd : ObserverCommand

-- A round in which no command sets the pause.
abbrev pub KeepsPause : Round → Type 0
KeepsPause r = (r.got ≡ false) ⊎ ((r.cmd.type ≡ stress_mode) ⊎ (r.cmd.type ≡ set_normal_mode))

abbrev pub EachBefore : ℕ → List Round → Type 0
EachBefore until [] = Unit
EachBefore until (r ∷ rs) = (KeepsPause r × (r.clock.at_pause < until)) × EachBefore until rs

module _ {S : Type 0} where
  unfoldable pub one : Round → Observer → World Message S → Observer × World Message S
  one r o w = after_wait r.clock (r.got, r.cmd) o w

  unfoldable pub rounds : List Round → Observer → World Message S → Observer × World Message S
  rounds [] o w = (o, w)
  rounds (r ∷ rs) o w = let (o', w') = one r o w in rounds rs o' w'

  emit_mode :
      (stamp : ℕ) (o : Observer) (w : World Message S)
      → let o' = (emit stamp o w).0 in
        (o'.m_mode ≡ o.m_mode)
        × (o'.m_interval ≡ o.m_interval)
        × (o'.m_stress_until ≡ o.m_stress_until)
        × (o'.m_pause_until ≡ o.m_pause_until)
        × (o'.count ≡ o.count + 1)
  unfolding emit
  emit_mode stamp o w = (refl, refl, refl, refl, refl)

  -- Every round keeps the interval in step with the mode; and behind a round that ends in the
  -- stress mode, the end of that mode had not been reached when the round looked at the clock.
  pub one-IsTimed :
      (r : Round) (o : Observer) (w : World Message S)
      → IsTimed o
      → let o' = (one r o w).0 in
        IsTimed o' × (o'.m_mode ≡ stress → r.clock.at_stress < o'.m_stress_until)
  unfolding one after_wait apply_command apply leave_stress emit
  one-IsTimed r o w v = (record { slow = ground arith; fast = ground arith }, ground arith)

  paused :
      (r : Round) (o : Observer) (w : World Message S)
      → KeepsPause r
      → r.clock.at_pause < o.m_pause_until
      → let (o', w') = one r o w in
        (o'.count ≡ o.count) × (o'.m_pause_until ≡ o.m_pause_until) × (w' ≡ w)
  unfolding one after_wait apply_command apply leave_stress
  paused r o w keeps before = ground arith

  -- What a round does that starts with a command to stop or to start observing.
  paused_by_command :
      (r : Round) (o : Observer) (w : World Message S)
      → r.got ≡ true
      → (r.cmd.type ≡ stop_observing) ⊎ (r.cmd.type ≡ start_observing)
      → r.clock.at_pause < r.clock.at_command + seconds r.cmd.duration_sec
      → let (o', w') = one r o w in
        (o'.count ≡ o.count)
        × (o'.m_pause_until ≡ r.clock.at_command + seconds r.cmd.duration_sec)
        × (w' ≡ w)
  unfolding one after_wait apply_command apply leave_stress
  paused_by_command r o w got asks before = ground arith

  still_paused :
      (rs : List Round) (o : Observer) (w : World Message S)
      → EachBefore o.m_pause_until rs
      → ((rounds rs o w).0.count ≡ o.count) × ((rounds rs o w).1 ≡ w)
  unfolding rounds
  still_paused [] o w h = (refl, refl)
  still_paused (r ∷ rs) o w ((keeps, before), later) =
      let (n, p, same) = paused r o w keeps before in
      let (n', same') =
        still_paused rs (one r o w).0 (one r o w).1 (subst (λ t. EachBefore t rs) (sym p) later) in
      (n' ∙ n, same' ∙ same)

  -- A command to stop observing for `d` seconds, and equally one to start in `d` seconds, silences
  -- the event maker: from that round on nothing is counted or sent in any round that reads a time
  -- before `d` seconds after the command, as long as no further such command arrives.
  pub pause_lem :
      (r : Round) (rs : List Round) (o : Observer) (w : World Message S)
      → r.got ≡ true
      → (r.cmd.type ≡ stop_observing) ⊎ (r.cmd.type ≡ start_observing)
      → let until = r.clock.at_command + seconds r.cmd.duration_sec in
        r.clock.at_pause < until
        → EachBefore until rs
        → ((rounds (r ∷ rs) o w).0.count ≡ o.count) × ((rounds (r ∷ rs) o w).1 ≡ w)
  unfolding rounds
  pause_lem r rs o w got asks before later =
      let (n, p, same) = paused_by_command r o w got asks before in
      let (n', same') =
        still_paused rs (one r o w).0 (one r o w).1 (subst (λ t. EachBefore t rs) (sym p) later) in
      (n' ∙ n, same' ∙ same)

  -- A stress command makes the interval 10 ms at once, unless 30 s pass between the round's own two
  -- readings; a command for the normal mode makes it 500 ms, whatever the mode was.
  switch_lem :
      (r : Round) (o : Observer) (w : World Message S)
      → r.got ≡ true
      → let o' = (one r o w).0 in
        (r.cmd.type ≡ stress_mode
          → r.clock.at_stress < r.clock.at_command + seconds 30
          → (o'.m_mode ≡ stress) × (o'.m_interval ≡ 10))
        × (r.cmd.type ≡ set_normal_mode → (o'.m_mode ≡ normal) × (o'.m_interval ≡ 500))
  unfolding one after_wait apply_command apply leave_stress emit
  switch_lem r o w got = (λ e h. ground arith, λ e. ground arith)
