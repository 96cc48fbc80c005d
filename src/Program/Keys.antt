-- ===== src/Program/Keys.antt =====
-- The keys of src/src/main.cpp that send commands, from `HandleConsole` through the manager's handle
-- to the rounds of the event maker in src/include/testThreads.hpp.
use boilerplate_thread_messa.Prelude.{
  ℕ, zero, suc, ◌<◌, ◌+◌, ◌-◌, ◌≡◌, refl, sym, ap, ◌∙◌, Bool, true, false, Option, none, some, List,
  [], ◌∷◌, ◌++◌, length, length-append, append-nil, append_assoc, arith,
}
use boilerplate_thread_messa.RingBuffer.{SpScRingBuffer, push, pop}
use boilerplate_thread_messa.RingBuffer.Invariant.{IsReady, push-IsReady, pop-IsReady}
use boilerplate_thread_messa.RingBuffer.Span.{contents}
use boilerplate_thread_messa.RingBuffer.Fifo.{put, get, push-put, pop-get, empty-full}
use boilerplate_thread_messa.RingBuffer.Wait.{act, wake_pred, wait_pop_for, after_wait-pop}
use boilerplate_thread_messa.CondVar.{wait_for_now}
use boilerplate_thread_messa.Events.{
  ObserverCommand, stop_observing, start_observing, stress_mode, set_normal_mode,
}
use boilerplate_thread_messa.Events.Payloads.{Message}
use boilerplate_thread_messa.Messaging.Endpoint.{World}
use boilerplate_thread_messa.Manager.{
  Spawns, Manager, default_command, send_observer_command, send_stress_mode_command,
  send_normal_mode_command,
}
use boilerplate_thread_messa.Daemon.{State, Daemon}
use boilerplate_thread_messa.Observer.{
  Observer, Readings, after_wait, round, apply_command, apply, leave_stress, emit,
}
use boilerplate_thread_messa.Observer.Commands.{pending}
use boilerplate_thread_messa.Observer.Modes.{Round, one, rounds}
use boilerplate_thread_messa.Program.{Turn, in_loop, handle, turn, after_poll, main_loop}
use boilerplate_thread_messa.Program.Console.{pressed, turn_running, loop_goes_on}

-- The four keys, the command that each stands for, and the clock of the round that takes it.
pub data CommandKey : Type 0 where
  key_p key_o key_x key_n : CommandKey

abbrev pub byte : CommandKey → ℕ
byte key_p = b'p'
byte key_o = b'o'
byte key_x = b'x'
byte key_n = b'n'

abbrev pub command : CommandKey → ObserverCommand
command key_p = record { type = stop_observing; duration_sec = 60 }
command key_o = record { type = start_observing; duration_sec = 1 }
command key_x = record { type = stress_mode; duration_sec = 0 }
command key_n = record { type = set_normal_mode; duration_sec = 0 }

pub record Press : Type 0 where
  pub key : CommandKey
  pub clock : Readings

abbrev pub turns : List Press → List Turn
turns [] = []
turns (p ∷ ps) = pressed (byte p.key) ∷ turns ps

abbrev pub commands : List Press → List ObserverCommand
commands [] = []
commands (p ∷ ps) = command p.key ∷ commands ps

abbrev pub as_rounds : List Press → List Round
as_rounds [] = []
as_rounds (p ∷ ps) = record { clock = p.clock; got = true; cmd = command p.key } ∷ as_rounds ps

abbrev pub take {ℓ} : {A : Type ℓ} → ℕ → List A → List A
take n [] = []
take zero (x ∷ xs) = []
take (suc n) (x ∷ xs) = x ∷ take n xs

take-zero {ℓ} : {A : Type ℓ} (xs : List A) → take zero xs ≡ []
take-zero [] = refl
take-zero (x ∷ xs) = refl

buffer_after : List Press → SpScRingBuffer ObserverCommand → SpScRingBuffer ObserverCommand
buffer_after [] r = r
buffer_after (p ∷ ps) r = buffer_after ps (push (command p.key) r).1

put_lem :
    (bound : ℕ) (x : ObserverCommand) (q q' : List ObserverCommand) (ok : Bool)
    → ◌≡◌ {A = Bool × List ObserverCommand} (ok, q') (put bound x q)
    → (length q ≡ bound → q' ≡ q) × (length q < bound → q' ≡ q ++ (x ∷ []))
unfolding put
put_lem bound x q q' ok e = (λ h. ground arith, λ h. ground arith)

-- `room` is how many more commands the buffer takes.
buffer_after-contents :
    (ps : List Press) (room : ℕ) {r : SpScRingBuffer ObserverCommand}
    → IsReady r 3
    → room + length (contents default_command r) ≡ 7
    → (contents default_command (buffer_after ps r)
        ≡ contents default_command r ++ commands (take room ps))
      × IsReady (buffer_after ps r) 3
unfolding buffer_after
buffer_after-contents [] room {r} v e = (sym (append-nil (contents default_command r)), v)
buffer_after-contents (p ∷ ps) zero {r} v e =
    let cmd = command p.key in
    let same =
      (put_lem (r.m_capacity - 1) cmd (contents default_command r) _ (push cmd r).0
          (push-put v default_command cmd)).0
        (omega (arith, v.power, e)) in
    let (rest, ready) =
      buffer_after-contents ps zero (push-IsReady cmd v) (omega (arith, e, ap length same)) in
    (
      rest
          ∙ ap (λ q. q ++ commands (take zero ps)) same
          ∙ ap (λ l. contents default_command r ++ commands l) (take-zero ps),
      ready,
    )
buffer_after-contents (p ∷ ps) (suc n) {r} v e =
    let cmd = command p.key in
    let held = contents default_command r in
    let grown =
      (put_lem (r.m_capacity - 1) cmd held _ (push cmd r).0 (push-put v default_command cmd)).1
        (omega (arith, v.power, e)) in
    let (rest, ready) =
      buffer_after-contents ps n (push-IsReady cmd v)
        (omega (arith, e, ap length grown, length-append held (cmd ∷ []))) in
    (
      rest
          ∙ ap (λ q. q ++ commands (take n ps)) grown
          ∙ append_assoc held (cmd ∷ []) (commands (take n ps)),
      ready,
    )

key_turn :
    (spawns : Spawns) (key : CommandKey) (d : Daemon Manager) (m : Manager)
    {r : SpScRingBuffer ObserverCommand}
    → d.state ≡ State.running
    → m.m_observer_incoming ≡ some r
    → turn spawns false (pressed (byte key)) (record { daemon = d; manager = m })
      ≡ in_loop (record {
        daemon = d;
        manager = record m { m_observer_incoming = some (push (command key) r).1 };
      })
unfolding handle send_observer_command send_stress_mode_command send_normal_mode_command
key_turn spawns key_p d m e h = turn_running spawns b'p' d m e ∙ rw (h, after_poll) refl
key_turn spawns key_o d m e h = turn_running spawns b'o' d m e ∙ rw (h, after_poll) refl
key_turn spawns key_x d m e h = turn_running spawns b'x' d m e ∙ rw (h, after_poll) refl
key_turn spawns key_n d m e h = turn_running spawns b'n' d m e ∙ rw (h, after_poll) refl

keys_fill :
    (spawns : Spawns) (ps : List Press) (d : Daemon Manager) (m : Manager)
    {r : SpScRingBuffer ObserverCommand}
    → d.state ≡ State.running
    → m.m_observer_incoming ≡ some r
    → (m' : Manager) × (main_loop spawns false (turns ps) (record { daemon = d; manager = m })
        ≡ in_loop (record { daemon = d; manager = m' }))
      × (m'.m_observer_incoming ≡ some (buffer_after ps r))
unfolding main_loop buffer_after
keys_fill spawns [] d m e h = (m, refl, h)
keys_fill spawns (p ∷ ps) d m {r} e h =
    let m1 : Manager = record m { m_observer_incoming = some (push (command p.key) r).1 } in
    let (m', ends, after) = keys_fill spawns ps d m1 e refl in
    (
      m',
      loop_goes_on spawns (pressed (byte p.key)) (turns ps) _ (key_turn spawns p.key d m e h)
          ∙ ends,
      after,
    )

pop_first :
    {r : SpScRingBuffer ObserverCommand} {x : ObserverCommand} {q : List ObserverCommand}
    → IsReady r 3
    → contents default_command r ≡ x ∷ q
    → (pop default_command r ≡ (true, x, (pop default_command r).2))
      × (contents default_command (pop default_command r).2 ≡ q)
unfolding get
pop_first {r} {x} {q} v e =
    let taken = pop-get v default_command default_command ∙ ap (get default_command) e in
    (ap (λ t. (t.0, t.1, (pop default_command r).2)) taken, ap (λ t. t.2) taken)

module _ {S : Type 0} where
  -- The rounds that take the commands, without a wake while they wait.
  pub run_rounds : List Press → Observer → World Message S → Option (Observer × World Message S)
  run_rounds [] o w = some (o, w)
  run_rounds (p ∷ ps) o w = elim (round p.clock [] o w) [
    | none ↦ none
    | some (o', w') ↦ run_rounds ps o' w'
  ]

  abbrev pub keep_buffer :
      SpScRingBuffer ObserverCommand → Observer × World Message S → Observer × World Message S
  keep_buffer r (o, w) = (record o { m_cmd_buffer = r }, w)

  after_wait-keep_buffer :
      (c : Readings) (cmd : ObserverCommand) (r : SpScRingBuffer ObserverCommand) (o : Observer)
      (w : World Message S)
      → after_wait c (true, cmd) (record o { m_cmd_buffer = r }) w
        ≡ keep_buffer r (after_wait c (true, cmd) o w)
  unfolding after_wait apply_command apply leave_stress emit
  after_wait-keep_buffer c cmd r o w = ground arith

  rounds-keep_buffer :
      (ps : List Press) (r : SpScRingBuffer ObserverCommand) (o : Observer) (w : World Message S)
      → rounds (as_rounds ps) (record o { m_cmd_buffer = r }) w
        ≡ keep_buffer r (rounds (as_rounds ps) o w)
  unfolding rounds one
  rounds-keep_buffer [] r o w = refl
  rounds-keep_buffer (p ∷ ps) r o w =
      ap (λ x. rounds (as_rounds ps) x.0 x.1) (after_wait-keep_buffer p.clock (command p.key) r o w)
      ∙ (let (o', w') = after_wait p.clock (true, command p.key) o w in
          rounds-keep_buffer ps r o' w')

  -- A round whose buffer holds a command takes it at once.
  round_takes :
      (p : Press) (q : List ObserverCommand) (o : Observer) (w : World Message S)
      → IsReady o.m_cmd_buffer 3
      → pending o ≡ command p.key ∷ q
      → (r : SpScRingBuffer ObserverCommand) × (round p.clock [] o w
          ≡ some (keep_buffer r (after_wait p.clock (true, command p.key) o w)))
        × IsReady r 3
        × (contents default_command r ≡ q)
  unfolding round wait_pop_for wake_pred
  round_takes p q o w v e =
      let r = o.m_cmd_buffer in
      let filled : wake_pred r ≡ true =
        ground (arith, v.started, (empty-full v default_command).0, e) in
      let now = wait_for_now act wake_pred [] r filled in
      let (first, left) = pop_first v e in
      let same : wait_pop_for default_command [] r
          ≡ some (true, command p.key, (pop default_command r).2) =
        simp (v.started, now) (after_wait-pop default_command true r filled ∙ ap some first) in
      (
        (pop default_command r).2,
        rw (same, round)
            (ap some
              (after_wait-keep_buffer p.clock (command p.key) (pop default_command r).2 o w)),
        pop-IsReady default_command v,
        left,
      )

  rounds_apply :
      (ps : List Press) (o : Observer) (w : World Message S)
      → IsReady o.m_cmd_buffer 3
      → pending o ≡ commands ps
      → (r : SpScRingBuffer ObserverCommand) × (run_rounds ps o w
          ≡ some (keep_buffer r (rounds (as_rounds ps) o w)))
        × IsReady r 3
        × (contents default_command r ≡ [])
  unfolding run_rounds rounds one
  rounds_apply [] o w v e = (o.m_cmd_buffer, refl, v, e)
  rounds_apply (p ∷ ps) o w v e =
      let (r, takes, ready, left) = round_takes p (commands ps) o w v e in
      let (o', w') = after_wait p.clock (true, command p.key) o w in
      let (r', runs, ready', none_left) =
        rounds_apply ps (record o' { m_cmd_buffer = r }) w' ready left in
      (
        r',
        rw (takes, run_rounds) runs
            ∙ ap (λ x. some (keep_buffer r' x)) (rounds-keep_buffer ps r o' w'),
        ready',
        none_left,
      )

  -- The keys p, o, x and n reach the event maker. On a running daemon with a console, where the
  -- manager's handle and the task share an empty ready buffer of eight slots, any number of these
  -- keys, with no signals and before the task's next round, leave the main loop running. The rounds
  -- that follow take the commands of the first seven, one each, without a wait and in the order of
  -- the keys, and do what rounds do that are given these commands, the buffer apart; the buffer is
  -- empty behind them, so the keys behind the seventh have no effect.
  pub keys_take_effect :
      (spawns : Spawns) (ps : List Press) (d : Daemon Manager) (m : Manager) (o : Observer)
      (w : World Message S)
      → d.state ≡ State.running
      → m.m_observer_incoming ≡ some o.m_cmd_buffer
      → IsReady o.m_cmd_buffer 3
      → pending o ≡ []
      → let heard = take 7 ps in
        (m' : Manager) × (r r' : SpScRingBuffer ObserverCommand) × (main_loop spawns false
            (turns ps)
            (record { daemon = d; manager = m })
          ≡ in_loop (record { daemon = d; manager = m' }))
        × (m'.m_observer_incoming ≡ some r)
        × (run_rounds heard (record o { m_cmd_buffer = r }) w
            ≡ some (keep_buffer r' (rounds (as_rounds heard) o w)))
        × (contents default_command r' ≡ [])
  keys_take_effect spawns ps d m o w e h v nothing =
      let (m', ends, after) = keys_fill spawns ps d m e h in
      let r = buffer_after ps o.m_cmd_buffer in
      let heard = take 7 ps in
      let (same, ready) = buffer_after-contents ps 7 v (omega (arith, ap length nothing)) in
      let (r', runs, _, none_left) =
        rounds_apply heard (record o { m_cmd_buffer = r }) w ready
          (same ∙ ap (λ q. q ++ commands heard) nothing) in
      (
        m',
        r,
        r',
        ends,
        after,
        runs ∙ ap (λ x. some (keep_buffer r' x)) (rounds-keep_buffer heard r o w),
        none_left,
      )
