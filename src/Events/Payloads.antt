-- ===== src/Events/Payloads.antt =====
-- The wrappers `MessageWrapper<T>` of the types that src/include/dataTypes.hpp sends through the
-- message queues.
use boilerplate_thread_messa.Prelude.{◌≡◌, refl, Option, none, some, arith}
use boilerplate_thread_messa.Messaging.Message.{Payload}
use boilerplate_thread_messa.Events.{
  FileEvent, AppEvent, ProcessedData, TransformedData, MirrorEvent, DirectEvent,
}

pub data Message : Type 0 where
  file_event : FileEvent → Message
  app_event : AppEvent → Message
  processed_data : ProcessedData → Message
  transformed_data : TransformedData → Message
  mirror_event : MirrorEvent → Message
  direct_event : DirectEvent → Message

abbrev pub as_file_event : Message → Option FileEvent
as_file_event (file_event x) = some x
as_file_event _ = none

abbrev pub as_app_event : Message → Option AppEvent
as_app_event (app_event x) = some x
as_app_event _ = none

abbrev pub as_processed_data : Message → Option ProcessedData
as_processed_data (processed_data x) = some x
as_processed_data _ = none

abbrev pub as_transformed_data : Message → Option TransformedData
as_transformed_data (transformed_data x) = some x
as_transformed_data _ = none

abbrev pub as_mirror_event : Message → Option MirrorEvent
as_mirror_event (mirror_event x) = some x
as_mirror_event _ = none

abbrev pub as_direct_event : Message → Option DirectEvent
as_direct_event (direct_event x) = some x
as_direct_event _ = none

pub file_event_only : (m : Message) (x : FileEvent) → as_file_event m ≡ some x → m ≡ file_event x
file_event_only m x e = ground arith

pub app_event_only : (m : Message) (x : AppEvent) → as_app_event m ≡ some x → m ≡ app_event x
app_event_only m x e = ground arith

pub processed_data_only :
    (m : Message) (x : ProcessedData) → as_processed_data m ≡ some x → m ≡ processed_data x
processed_data_only m x e = ground arith

pub transformed_data_only :
    (m : Message) (x : TransformedData) → as_transformed_data m ≡ some x → m ≡ transformed_data x
transformed_data_only m x e = ground arith

pub mirror_event_only :
    (m : Message) (x : MirrorEvent) → as_mirror_event m ≡ some x → m ≡ mirror_event x
mirror_event_only m x e = ground arith

pub direct_event_only :
    (m : Message) (x : DirectEvent) → as_direct_event m ≡ some x → m ≡ direct_event x
direct_event_only m x e = ground arith

instance abbrev pub file_event_payload : Payload Message FileEvent
file_event_payload = record {
  wrap = file_event;
  unwrap = as_file_event;
  type_name = "FileEvent";
  unwrap_wrap = λ x. refl;
  wrap_unwrap = file_event_only;
}

instance abbrev pub app_event_payload : Payload Message AppEvent
app_event_payload = record {
  wrap = app_event;
  unwrap = as_app_event;
  type_name = "AppEvent";
  unwrap_wrap = λ x. refl;
  wrap_unwrap = app_event_only;
}

instance abbrev pub processed_data_payload : Payload Message ProcessedData
processed_data_payload = record {
  wrap = processed_data;
  unwrap = as_processed_data;
  type_name = "ProcessedData";
  unwrap_wrap = λ x. refl;
  wrap_unwrap = processed_data_only;
}

instance abbrev pub transformed_data_payload : Payload Message TransformedData
transformed_data_payload = record {
  wrap = transformed_data;
  unwrap = as_transformed_data;
  type_name = "TransformedData";
  unwrap_wrap = λ x. refl;
  wrap_unwrap = transformed_data_only;
}

instance abbrev pub mirror_event_payload : Payload Message MirrorEvent
mirror_event_payload = record {
  wrap = mirror_event;
  unwrap = as_mirror_event;
  type_name = "MirrorEvent";
  unwrap_wrap = λ x. refl;
  wrap_unwrap = mirror_event_only;
}

instance abbrev pub direct_event_payload : Payload Message DirectEvent
direct_event_payload = record {
  wrap = direct_event;
  unwrap = as_direct_event;
  type_name = "DirectEvent";
  unwrap_wrap = λ x. refl;
  wrap_unwrap = direct_event_only;
}
