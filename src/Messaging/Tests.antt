-- ===== src/Messaging/Tests.antt =====
-- Runs of the queue and the senders of src/include/messaging, and examples of their theorems.
use boilerplate_thread_messa.Prelude.{
  ℕ, ◌+◌, ◌≤◌, ◌≡◌, refl, some, List, [], ◌∷◌, ◌++◌, length, arith, ◌==◌, if◌then◌else◌,
}
use boilerplate_thread_messa.Events.{DirectEvent}
use boilerplate_thread_messa.Events.Payloads.{
  Message, direct_event, mirror_event, direct_event_payload, mirror_event_payload,
}
use boilerplate_thread_messa.Messaging.Message.{SharedPtr}
use boilerplate_thread_messa.Messaging.Queue.{MessageQueue, push_ptr, Other, pushes, pops, clears}
use boilerplate_thread_messa.Messaging.Queue.Laws.{
  history, inputs, gone, AllNull, every_message_leaves_once,
}
use boilerplate_thread_messa.Messaging.Wakeups.{
  Traffic, Reach, here, later, store, fall_asleep, quiet, no_lost_wakeup,
}
use boilerplate_thread_messa.Messaging.Endpoint.{World}
use boilerplate_thread_messa.Messaging.Endpoint.Delivery.{received, send_all, received-send_all}

abbrev note : ℕ → SharedPtr Message
note n = some (direct_event (record { counter = n }))

abbrev traffic : List (Other Message)
traffic = pushes (note 1) ∷ pops ∷ pops ∷ pushes (note 2) ∷ clears ∷ pushes (note 3) ∷ pops ∷ []

every_message_leaves_once_example :
    let (out, rest) = history (note 0 ∷ []) traffic in
    (gone out ++ rest ≡ note 0 ∷ inputs traffic) × AllNull out
every_message_leaves_once_example = every_message_leaves_once (note 0 ∷ []) traffic

abbrev nothing : MessageQueue Message
nothing = []

-- A consumer sleeps, and a producer has stored and not yet notified.
abbrev stored : Traffic Message
stored = record { queue = note 1 ∷ []; notices = 1; asleep = 1; awake = 0 }

stored_reached : Reach (quiet nothing) stored
unfolding push_ptr
stored_reached = later (later here (fall_asleep refl)) (store (note 1))

no_lost_wakeup_example : length stored.queue ≤ stored.notices + stored.awake
no_lost_wakeup_example = no_lost_wakeup nothing stored_reached (omega arith)

-- Receiver 2 holds a message of another type.
abbrev world : World Message ℕ
world = record {
  queues =
      λ j. if j == 2 then some (mirror_event (record { counter = 5; message = [] })) ∷ [] else [];
  cerr = [];
  state = 0;
}

received-send_all_example :
    received {T = DirectEvent} (
      (send_all {T = DirectEvent}
          (λ _ _ _ w. w)
          2
          (record { counter = 1 } ∷ record { counter = 2 } ∷ [])
          world).queues
        2)
    ≡ record { counter = 1 } ∷ record { counter = 2 } ∷ []
unfolding received
received-send_all_example =
    received-send_all (λ _ _ _ w. w) 2 (record { counter = 1 } ∷ record { counter = 2 } ∷ []) world
