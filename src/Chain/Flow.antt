-- ===== src/Chain/Flow.antt =====
-- The five threads of the test chain at once. A task takes a pointer out of its queue in one step
-- and works on it in another, so the steps of the others come in between; the event maker sends to
-- the application observer in one step and to the processing task in another.
use boilerplate_thread_messa.Prelude.{ℕ, ◌≡◌, Bool, true, false, Option, none, some, List, []}
use boilerplate_thread_messa.CondVar.{Wake}
use boilerplate_thread_messa.RingBuffer.{SpScRingBuffer}
use boilerplate_thread_messa.RingBuffer.Wait.{wait_pop_for}
use boilerplate_thread_messa.Events.{ObserverCommand}
use boilerplate_thread_messa.Manager.{default_command}
use boilerplate_thread_messa.Events.Payloads.{
  Message, file_event_payload, app_event_payload, processed_data_payload, transformed_data_payload,
}
use boilerplate_thread_messa.Messaging.Message.{SharedPtr}
use boilerplate_thread_messa.Messaging.Queue.{pop}
use boilerplate_thread_messa.Messaging.Endpoint.{set_queue}
use boilerplate_thread_messa.Observer.{Observer, Readings, send_command, until_file, emit_direct}
use boilerplate_thread_messa.Chain.{
  AppObserver, ChainWorld, observe, process, transform, conclude, linked_incoming, linked_app,
  processing_next, transformation_next,
}

-- The hands hold what a task has taken and not yet worked on: a pointer, and for the event maker
-- the result of its wait. `direct_due` says that it has made an event and not yet sent the direct
-- one.
pub record Chain : Type 0 where
  pub world : ChainWorld
  pub incoming : Observer
  pub app : AppObserver
  pub hand_incoming : Option (Bool × ObserverCommand)
  pub direct_due : Bool
  pub hand_app : SharedPtr Message
  pub hand_processing : SharedPtr Message
  pub hand_transformation : SharedPtr Message
  pub hand_result : SharedPtr Message

abbrev pub take : ℕ → ChainWorld → SharedPtr Message × ChainWorld
take i w = ((pop (w.queues i)).0, set_queue i (pop (w.queues i)).1 w)

-- The steps of the four tasks behind the event maker.
pub data Moves (s : Chain) : Chain → Type 0 where
  app_takes :
      s.hand_app ≡ none
      → Moves s (record s { hand_app = (take 1 s.world).0; world = (take 1 s.world).1 })
  app_works : Moves s (record s {
    hand_app = none;
    app = (observe s.hand_app s.app s.world).0;
    world = (observe s.hand_app s.app s.world).1;
  })
  processing_takes :
      s.hand_processing ≡ none
      → Moves s (record s { hand_processing = (take 2 s.world).0; world = (take 2 s.world).1 })
  processing_works : Moves s (record s {
    hand_processing = none;
    world = process processing_next s.hand_processing s.world;
  })
  transformation_takes :
      s.hand_transformation ≡ none
      → Moves s (record s { hand_transformation = (take 3 s.world).0; world = (take 3 s.world).1 })
  transformation_works : Moves s (record s {
    hand_transformation = none;
    world = transform transformation_next s.hand_transformation s.world;
  })
  result_takes :
      s.hand_result ≡ none
      → Moves s (record s { hand_result = (take 4 s.world).0; world = (take 4 s.world).1 })
  result_works :
      (recv_time : ℕ)
      → Moves s (record s { hand_result = none; world = conclude recv_time s.hand_result s.world })

-- The manager's thread sends a command; the event maker's wait ends, then its round runs up to the
-- first Send, and then the second Send; or another task moves.
pub data Step (s : Chain) : Chain → Type 0 where
  commands :
      (cmd : ObserverCommand) → Step s (record s { incoming = (send_command cmd s.incoming).1 })
  waits :
      (ws : List (Wake ObserverCommand)) (got : Bool) (cmd : ObserverCommand)
      (r : SpScRingBuffer ObserverCommand)
      → s.hand_incoming ≡ none
      → s.direct_due ≡ false
      → wait_pop_for default_command ws s.incoming.m_cmd_buffer ≡ some (got, cmd, r)
      → Step s (record s {
        incoming = record (s.incoming) { m_cmd_buffer = r };
        hand_incoming = some (got, cmd);
      })
  observes :
      (c : Readings) (result : Bool × ObserverCommand)
      → s.hand_incoming ≡ some result
      → Step s (record s {
        hand_incoming = none;
        direct_due = (until_file c result s.incoming s.world).0;
        incoming = (until_file c result s.incoming s.world).1;
        world = (until_file c result s.incoming s.world).2;
      })
  sends_direct :
      s.direct_due ≡ true
      → Step s (record s { direct_due = false; world = emit_direct s.incoming s.world })
  moved : {t : Chain} → Moves s t → Step s t

abbrev pub fresh : Chain
fresh = record {
  world = record { queues = λ i. []; cerr = []; state = [] };
  incoming = linked_incoming;
  app = linked_app;
  hand_incoming = none;
  direct_due = false;
  hand_app = none;
  hand_processing = none;
  hand_transformation = none;
  hand_result = none;
}

pub data Reach (s : Chain) : Chain → Type 0 where
  here : Reach s s
  later : {t u : Chain} → Reach s t → Step t u → Reach s u
