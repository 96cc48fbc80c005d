-- ===== src/Observer/Commands.antt =====
-- Commands on their way from `ThreadManager::sendObserverCommand` to `applyCommand` in
-- src/include/testThreads.hpp. The manager's handle and the task share one ring buffer.
use boilerplate_thread_messa.Prelude.{
  ◌≤◌, ◌≡◌, refl, sym, ap, subst, ◌∙◌, append-nil, append_assoc, Bool, true, false, Option, none,
  some, List, [], ◌∷◌, ◌++◌, arith, if◌then◌else◌, length, ◌-◌, map,
}
use boilerplate_thread_messa.CondVar.{Wake, HasTimeout}
use boilerplate_thread_messa.RingBuffer.{SpScRingBuffer, push, pop, uninitialized}
use boilerplate_thread_messa.RingBuffer.Invariant.{IsReady, init-IsReady, push-IsReady}
use boilerplate_thread_messa.RingBuffer.Span.{
  contents, contents_of_reset, length-contents, used_facts,
}
use boilerplate_thread_messa.RingBuffer.Fifo.{get, push-put}
use boilerplate_thread_messa.RingBuffer.Wait.{wait_pop_for, wait_pop_for-pop}
use boilerplate_thread_messa.RingBuffer.Log.{accepted_in, wait_pop_for_history, put_grows}
use boilerplate_thread_messa.Events.{ObserverCommand}
use boilerplate_thread_messa.Events.Payloads.{Message}
use boilerplate_thread_messa.Messaging.Endpoint.{World}
use boilerplate_thread_messa.Manager.{
  Manager, default_command, new_command_buffer, send_observer_command,
}
use boilerplate_thread_messa.Observer.Buffer.{after_wait-m_cmd_buffer}
use boilerplate_thread_messa.Observer.Modes.{Round}
use boilerplate_thread_messa.Observer.Effects.{settings_of, obey_all, settings-after_wait}
use boilerplate_thread_messa.Observer.{Observer, Readings, new_observer, send_command, after_wait}

abbrev pub with_buffer : Option (SpScRingBuffer ObserverCommand) → Observer → Observer
with_buffer none o = o
with_buffer (some r) o = record o { m_cmd_buffer = r }

-- `sendObserverCommand` of a manager whose handle is for this task.
unfoldable pub tell : Manager → ObserverCommand → Observer → Bool × Observer
unfolding send_observer_command
tell m cmd o =
    let (ok, m') =
      send_observer_command cmd (record m { m_observer_incoming = some o.m_cmd_buffer }) in
    (ok, with_buffer m'.m_observer_incoming o)

-- Through the manager it is `sendCommand` of the task.
tell-send_command :
    (m : Manager) (cmd : ObserverCommand) (o : Observer) → tell m cmd o ≡ send_command cmd o
unfolding tell send_command push
tell-send_command m cmd o = ground arith

pub data Event : Type 0 where
  tells : ObserverCommand → Event
  serves : List (Wake ObserverCommand) → Readings → Event

-- A round with its result of the wait.
abbrev pub served_as : Readings → Bool → ObserverCommand → Round
served_as c got cmd = record { clock = c; got = got; cmd = cmd }

abbrev pub command_of : Bool × ObserverCommand → List ObserverCommand
command_of (true, cmd) = cmd ∷ []
command_of (false, cmd) = []

-- The commands that rounds got.
abbrev pub commands_of : List Round → List ObserverCommand
commands_of [] = []
commands_of (r ∷ rs) = command_of (r.got, r.cmd) ++ commands_of rs

-- The clocks of the rounds of a run.
abbrev pub clocks_of : List Event → List Readings
clocks_of [] = []
clocks_of (tells cmd ∷ es) = clocks_of es
clocks_of (serves ws c ∷ es) = c ∷ clocks_of es

-- The commands accepted in a run, the rounds with what their waits returned, and what is left.
pub record History (S : Type 0) : Type 0 where
  pub accepted : List ObserverCommand
  pub served : List Round
  pub observer : Observer
  pub world : World Message S

module _ {S : Type 0} where
  abbrev pub behind : List ObserverCommand → List Round → Option (History S) → Option (History S)
  behind new done none = none
  behind new done (some h) =
      some (record h { accepted = new ++ h.accepted; served = done ++ h.served })

  -- The rounds of `run`, and the commands between them.
  unfoldable pub history : Manager → List Event → Observer → World Message S → Option (History S)
  unfolding tell after_wait
  history m [] o w = some (record { accepted = []; served = []; observer = o; world = w })
  history m (tells cmd ∷ es) o w =
      let (ok, o') = tell m cmd o in behind (command_of (ok, cmd)) [] (history m es o' w)
  history m (serves ws c ∷ es) o w = elim (wait_pop_for default_command ws o.m_cmd_buffer) [
    | none ↦ none
    | some (got, cmd, r) ↦
        let (o', w') = after_wait c (got, cmd) (record o { m_cmd_buffer = r }) w in
        behind (accepted_in ws o.m_cmd_buffer) (served_as c got cmd ∷ []) (history m es o' w')
  ]

abbrev pub AllTimed : List Event → Type 0
AllTimed [] = Unit
AllTimed (tells cmd ∷ es) = AllTimed es
AllTimed (serves ws c ∷ es) = HasTimeout ws × AllTimed es

abbrev pub pending : Observer → List ObserverCommand
pending o = contents default_command o.m_cmd_buffer

get_first :
    (d x : ObserverCommand) (got : Bool) (q q' : List ObserverCommand)
    → ◌≡◌ {A = Bool × ObserverCommand × List ObserverCommand} (got, x, q') (get d q)
    → q ≡ command_of (got, x) ++ q'
unfolding get
get_first d x got [] q' e = ground arith
get_first d x got (y ∷ q) q' e = ground arith

put_last :
    (ok : Bool) (x : ObserverCommand) (q : List ObserverCommand)
    → (if ok then q ++ (x ∷ []) else q) ≡ q ++ command_of (ok, x)
put_last true x q = refl
put_last false x q = sym (append-nil q)

tell_lem :
    (m : Manager) (cmd : ObserverCommand) (o : Observer)
    → IsReady o.m_cmd_buffer 3
    → (pending (tell m cmd o).1 ≡ pending o ++ command_of ((tell m cmd o).0, cmd))
      × IsReady (tell m cmd o).1.m_cmd_buffer 3
unfolding tell send_observer_command
tell_lem m cmd o v = (
  put_grows (o.m_cmd_buffer.m_capacity - 1) cmd (pending o)
        (contents default_command (push cmd o.m_cmd_buffer).1) (push cmd o.m_cmd_buffer).0
        (push-put v default_command cmd)
      ∙ put_last (push cmd o.m_cmd_buffer).0 cmd (pending o),
  push-IsReady cmd v,
)

-- A command changes the buffer alone.
tell-settings :
    (m : Manager) (cmd : ObserverCommand) (o : Observer)
    → settings_of (tell m cmd o).1 ≡ settings_of o
unfolding tell send_observer_command
tell-settings m cmd o = refl

pub serve_lem :
    (ws : List (Wake ObserverCommand)) {r : SpScRingBuffer ObserverCommand}
    → HasTimeout ws
    → IsReady r 3
    → (got : Bool) × (x : ObserverCommand) × (r' : SpScRingBuffer ObserverCommand) × (wait_pop_for
          default_command ws r
        ≡ some (got, x, r'))
      × (contents default_command r ++ accepted_in ws r
          ≡ command_of (got, x) ++ contents default_command r')
      × IsReady r' 3
serve_lem ws {r} timed v =
    let (_, t, _, e) = wait_pop_for-pop default_command ws r timed v.started in
    let (got, x, r') = pop default_command t in
    let (same, ready) = wait_pop_for_history default_command default_command 3 ws r v e in
    (got, x, r', e, get_first default_command x got _ (contents default_command r') same, ready)

pending_bound : (o : Observer) → IsReady o.m_cmd_buffer 3 → length (pending o) ≤ 7
pending_bound o v = omega (arith, length-contents v default_command, (used_facts v).0, v.power)

module _ {S : Type 0} (m : Manager) where
  serves_step :
      (ws : List (Wake ObserverCommand)) (c : Readings) (es : List Event) (o : Observer)
      (w : World Message S) {got : Bool} {x : ObserverCommand} {r : SpScRingBuffer ObserverCommand}
      → wait_pop_for default_command ws o.m_cmd_buffer ≡ some (got, x, r)
      → history m (serves ws c ∷ es) o w ≡ (
          let (o', w') = after_wait c (got, x) (record o { m_cmd_buffer = r }) w in
          behind (accepted_in ws o.m_cmd_buffer) (served_as c got x ∷ []) (history m es o' w'))
  unfolding history
  serves_step ws c es o w e = rw (e, history) refl

  -- A run from a ready buffer comes to its end, and nothing is lost.
  record IsKept (es : List Event) (o : Observer) (w : World Message S) : Type 0 where
    pub run : History S
    pub ends : history m es o w ≡ some run
    pub order : pending o ++ run.accepted ≡ commands_of run.served ++ pending run.observer
    pub clocks : map (λ r. r.clock) run.served ≡ clocks_of es
    pub obeyed : settings_of run.observer ≡ obey_all run.served (settings_of o)
    pub ready : IsReady run.observer.m_cmd_buffer 3

  history-IsKept :
      (es : List Event) (o : Observer) (w : World Message S)
      → AllTimed es
      → IsReady o.m_cmd_buffer 3
      → IsKept es o w
  unfolding history
  history-IsKept [] o w h v = record {
    run = record { accepted = []; served = []; observer = o; world = w };
    ends = refl;
    order = append-nil (pending o);
    clocks = refl;
    obeyed = refl;
    ready = v;
  }
  history-IsKept (tells cmd ∷ es) o w h v =
      let (grown, v') = tell_lem m cmd o v in
      let next = history-IsKept es (tell m cmd o).1 w h v' in
      let new = command_of ((tell m cmd o).0, cmd) in
      record {
        run = record (next.run) { accepted = new ++ next.run.accepted };
        ends = ap (behind new []) next.ends;
        order =
            sym (append_assoc (pending o) new next.run.accepted)
            ∙ ap (λ q. q ++ next.run.accepted) (sym grown)
            ∙ next.order;
        clocks = next.clocks;
        obeyed = next.obeyed ∙ ap (obey_all next.run.served) (tell-settings m cmd o);
        ready = next.ready;
      }
  history-IsKept (serves ws c ∷ es) o w (timed, h) v =
      let (got, x, r, e, split, ready) = serve_lem ws timed v in
      let served : Observer = record o { m_cmd_buffer = r } in
      let (o', w') = after_wait c (got, x) served w in
      let same = after_wait-m_cmd_buffer c got x served w in
      let next = history-IsKept es o' w' h (subst (λ b. IsReady b 3) (sym same) ready) in
      let new = accepted_in ws o.m_cmd_buffer in
      let done = command_of (got, x) in
      record {
        run = record (next.run) {
          accepted = new ++ next.run.accepted;
          served = served_as c got x ∷ next.run.served;
        };
        ends = serves_step ws c es o w e ∙ ap (behind new (served_as c got x ∷ [])) next.ends;
        order =
            sym (append_assoc (pending o) new next.run.accepted)
            ∙ ap (λ q. q ++ next.run.accepted) split
            ∙ append_assoc done (contents default_command r) next.run.accepted
            ∙ ap (λ b. done ++ (contents default_command b ++ next.run.accepted)) (sym same)
            ∙ ap (λ q. done ++ q) next.order
            ∙ sym (append_assoc done (commands_of next.run.served) (pending next.run.observer));
        clocks = ap (λ cs. c ∷ cs) next.clocks;
        obeyed = next.obeyed ∙ ap (obey_all next.run.served) (settings-after_wait c got x served w);
        ready = next.ready;
      }

  -- From a new task on, through any sequence of commands by the manager and rounds of the task
  -- whose waits have their timeout: the run comes to its end; the commands that were accepted are
  -- those that the rounds got and then those that are still in the buffer, in the order of
  -- acceptance, and these are seven at most; and the pause, the mode, its end, the interval and the
  -- number of events made are what the rounds, at their readings of the clock and with their
  -- commands, are to make of them one after the other.
  pub commands_in_order :
      (es : List Event) (w : World Message S)
      → AllTimed es
      → (h : History S) × (history m es new_observer w ≡ some h)
        × (h.accepted ≡ commands_of h.served ++ pending h.observer)
        × (length (pending h.observer) ≤ 7)
        × (map (λ r. r.clock) h.served ≡ clocks_of es)
        × (settings_of h.observer ≡ obey_all h.served (settings_of new_observer))
  commands_in_order es w timed =
      let (_, v, head, tail) = init-IsReady default_command 3 uninitialized (omega arith) in
      let kept = history-IsKept es new_observer w timed v in
      let nothing : pending new_observer ≡ [] =
        contents_of_reset default_command new_command_buffer (omega arith) head tail in
      (
        kept.run,
        kept.ends,
        ap (λ q. q ++ kept.run.accepted) (sym nothing) ∙ kept.order,
        pending_bound kept.run.observer kept.ready,
        kept.clocks,
        kept.obeyed,
      )
