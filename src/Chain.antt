-- ===== src/Chain.antt =====
-- src/include/testThreads.hpp: the four tasks behind the event maker, one pass of each loop on the
-- pointer that `wait_for` gave, and the links that `initTestChain` of src/include/threadManager.hpp
-- sets. The queues have numbers: 0 the event maker, 1 the application observer, 2 processing,
-- 3 transformation, 4 result.
pub mod Flow
pub mod Names
pub mod Works
pub mod Rounds
pub mod Delivery
pub mod Sessions
pub mod Mirrors
pub mod Sizes
pub mod Progress
pub mod Once
pub mod Loops
mod Tests
use boilerplate_thread_messa.Prelude.{ℕ, ◌+◌, ◌*◌, false, Option, none, some, List, [], ◌∷◌, ◌++◌}
use boilerplate_thread_messa.Prelude.Int.{ℤ, pos, ◌-ℤ◌, quot}
use boilerplate_thread_messa.Prelude.Text.{Text, text, to_string}
use boilerplate_thread_messa.Events.{
  FileEvent, AppEvent, ProcessedData, TransformedData, MirrorEvent,
}
use boilerplate_thread_messa.Events.Payloads.{
  Message, file_event_payload, app_event_payload, processed_data_payload, transformed_data_payload,
  mirror_event_payload,
}
use boilerplate_thread_messa.Messaging.Message.{SharedPtr, dynamic_pointer_cast}
use boilerplate_thread_messa.Messaging.Endpoint.{World, Sender, make_sender}
use boilerplate_thread_messa.Observer.{
  Observer, new_observer, set_next, set_direct_to_processing, send_if,
}

-- `mirror_counter` is the variable of `run`.
pub record AppObserver : Type 0 where
  pub m_next : Option Sender
  pub m_mirror : Option Sender
  pub mirror_counter : ℕ

-- What the result task prints for a message: the name, the value and the microseconds.
pub record Printed : Type 0 where
  pub file_name : Text
  pub value_halves : ℕ
  pub chain_us : ℤ

-- The state beside the queues is the output of the result task.
abbrev pub ChainWorld : Type 0
ChainWorld = World Message (List Printed)

-- `mirrorCounter` grows only where there is a mirror.
unfoldable pub mirror_file : FileEvent → AppObserver → ChainWorld → AppObserver × ChainWorld
unfolding send_if
mirror_file fe a w = elim a.m_mirror [
  | none ↦ (a, w)
  | some s ↦ (
    record a { mirror_counter = a.mirror_counter + 1 },
    send_if {T = MirrorEvent} (some s)
        (record { counter = a.mirror_counter + 1; message = fe.file_name }) w,
  )
]

unfoldable pub observe : SharedPtr Message → AppObserver → ChainWorld → AppObserver × ChainWorld
unfolding mirror_file send_if
observe msg a w = elim (dynamic_pointer_cast {T = FileEvent} msg) [
  | none ↦ (a, w)
  | some fe ↦
      let (a', w') = mirror_file fe a w in
      (
        a',
        send_if {T = AppEvent} a.m_next
            (record {
              app_name = text "App1";
              event_description = fe.file_name;
              original_file = fe;
            })
            w',
      )
]

unfoldable pub process : Option Sender → SharedPtr Message → ChainWorld → ChainWorld
unfolding send_if
process next msg w = elim (dynamic_pointer_cast {T = AppEvent} msg) [
  | none ↦ w
  | some ae ↦
      send_if {T = ProcessedData} next
        (record {
          data_id = text "DATA-" ++ to_string ae.original_file.file_size;
          processing_result = 42;
          original_app_event = ae;
        })
        w
]

unfoldable pub transform : Option Sender → SharedPtr Message → ChainWorld → ChainWorld
unfolding send_if
transform next msg w = elim (dynamic_pointer_cast {T = ProcessedData} msg) [
  | none ↦ w
  | some pd ↦
      send_if {T = TransformedData} next
        (record {
          transformation_type = text "MathTransform";
          value_halves = pd.processing_result * 3;
          original_data = pd;
        })
        w
]

-- `recv_time` is the task's reading of the clock.
unfoldable pub conclude : ℕ → SharedPtr Message → ChainWorld → ChainWorld
conclude recv_time msg w = elim (dynamic_pointer_cast {T = TransformedData} msg) [
  | none ↦ w
  | some td ↦
      let file = td.original_data.original_app_event.original_file in
      record w {
        state =
            w.state
            ++ (record {
              file_name = file.file_name;
              value_halves = td.value_halves;
              chain_us = quot (pos recv_time -ℤ pos file.send_time) 1000;
            }
                ∷ []);
      }
]

-- The links of `initTestChain`.
abbrev pub linked_incoming : Observer
linked_incoming =
    set_direct_to_processing (make_sender 2 false) (set_next (make_sender 1 false) new_observer)

abbrev pub linked_app : AppObserver
linked_app = record {
  m_next = some (make_sender 2 false);
  m_mirror = some (make_sender 0 false);
  mirror_counter = 0;
}

abbrev pub processing_next : Option Sender
processing_next = some (make_sender 3 false)

abbrev pub transformation_next : Option Sender
transformation_next = some (make_sender 4 false)
