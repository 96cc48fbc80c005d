-- ===== src/Chain/Rounds.antt =====
-- What a round of the event maker of src/include/testThreads.hpp does to the chain.
use boilerplate_thread_messa.Prelude.{
  ◌+◌, ◌≡◌, refl, ap, ◌∙◌, ◌⊎◌, inl, inr, Bool, true, false, some, [], ◌∷◌, ◌++◌, arith, Bool-cases,
  ltb, if◌then◌else◌,
}
use boilerplate_thread_messa.Events.{ObserverCommand}
use boilerplate_thread_messa.Events.Payloads.{file_event}
use boilerplate_thread_messa.Messaging.Endpoint.{make_sender}
use boilerplate_thread_messa.Observer.{
  Observer, Readings, nth_event, emit, emit_file, emit_direct, apply, apply_command, leave_stress,
  after_wait, until_file, send_command,
}
use boilerplate_thread_messa.Chain.{ChainWorld}
use boilerplate_thread_messa.Chain.Works.{file_lem}

-- The settled observer: after the command and the look at the end of the stress mode.
abbrev settled : Readings → Bool × ObserverCommand → Observer → Observer
settled c (got, cmd) o =
    leave_stress c.at_stress (if got then apply_command cmd c.at_command o else o)

settled_keeps :
    (c : Readings) (result : Bool × ObserverCommand) (o : Observer)
    → ((settled c result o).m_next ≡ o.m_next)
      × ((settled c result o).m_direct_to_processing ≡ o.m_direct_to_processing)
      × ((settled c result o).count ≡ o.count)
unfolding apply_command apply leave_stress
settled_keeps c result o = (ground arith, ground arith, ground arith)

until_file_cases :
    (c : Readings) (result : Bool × ObserverCommand) (o : Observer) (w : ChainWorld)
    → (until_file c result o w ≡ (false, settled c result o, w))
      ⊎ (until_file c result o w
          ≡ (let (o', w') = emit_file c.at_stamp (settled c result o) w in (true, o', w')))
unfolding until_file
until_file_cases c result o w =
    elim (Bool-cases (ltb c.at_pause (settled c result o).m_pause_until)) [
      | inl e ↦ inl (rw e)
      | inr e ↦ inr (rw e)
    ]

-- Both halves of a round together are the whole.
after_wait-halves :
    (c : Readings) (result : Bool × ObserverCommand) (o : Observer) (w : ChainWorld)
    → let (due, o', w') = until_file c result o w in
      after_wait c result o w ≡ (o', if due then emit_direct o' w' else w')
unfolding until_file after_wait emit emit_file emit_direct
after_wait-halves c result o w =
    elim (Bool-cases (ltb c.at_pause (settled c result o).m_pause_until)) [
      | inl e ↦ rw e
      | inr e ↦ rw e
    ]

-- What the first Send of an event leaves in the queues.
pub record IsSent (c : Readings) (o : Observer) (w w' : ChainWorld) : Type 0 where
  pub to_app :
      w'.queues 1 ≡ w.queues 1 ++ (some (file_event (nth_event (o.count + 1) c.at_stamp)) ∷ [])
  pub rest :
      (w'.queues 2 ≡ w.queues 2)
      × (w'.queues 3 ≡ w.queues 3)
      × (w'.queues 4 ≡ w.queues 4)
      × (w'.queues 0 ≡ w.queues 0)
  pub output : w'.state ≡ w.state

-- A round makes no event and leaves the world alone, or makes the next one and sends it on.
pub round_lem :
    (c : Readings) (result : Bool × ObserverCommand) (o : Observer) (w : ChainWorld)
    → o.m_next ≡ some (make_sender 1 false)
    → let (due, o', w') = until_file c result o w in
      (o'.m_next ≡ o.m_next)
      × (o'.m_direct_to_processing ≡ o.m_direct_to_processing)
      × (((o'.count ≡ o.count) × (w' ≡ w)) ⊎ ((o'.count ≡ o.count + 1) × IsSent c o w w'))
round_lem c result o w e =
    let (n, d, k) = settled_keeps c result o in
    elim (until_file_cases c result o w) [
      | inl quiet ↦ rw quiet (n, d, inl (k, refl))
      | inr sends ↦
          let (n', d', q1, q2, q3, q4, q0, st, k') =
            file_lem c.at_stamp (settled c result o) w (n ∙ e) in
          rw sends (
            n' ∙ n,
            d' ∙ d,
            inr (
              k' ∙ ap (λ i. i + 1) k,
              record {
                to_app =
                    q1
                    ∙ ap
                        (λ i. w.queues 1 ++ (some (file_event (nth_event (i + 1) c.at_stamp)) ∷ []))
                        k;
                rest = (q2, q3, q4, q0);
                output = st;
              },
            ),
          )
    ]

pub send_command_keeps :
    (cmd : ObserverCommand) (o : Observer)
    → let o' = (send_command cmd o).1 in
      (o'.m_next ≡ o.m_next)
      × (o'.m_direct_to_processing ≡ o.m_direct_to_processing)
      × (o'.count ≡ o.count)
unfolding send_command
send_command_keeps cmd o = (ground arith, ground arith, ground arith)
