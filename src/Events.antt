-- ===== src/Events.antt =====
-- src/include/dataTypes.hpp: what the threads of the test chain send to one another.
pub mod Payloads
use boilerplate_thread_messa.Prelude.{ℕ, Bool, List, ◌≡◌, refl, Option, none, some}
use boilerplate_thread_messa.Prelude.Text.{Text}

-- `send_time` counts the nanoseconds of the steady clock, `file_size` is a `uint64_t`.
pub record FileEvent : Type 0 where
  pub file_name : Text
  pub file_size : ℕ
  pub send_time : ℕ

pub record AppEvent : Type 0 where
  pub app_name : Text
  pub event_description : Text
  pub original_file : FileEvent

pub record ProcessedData : Type 0 where
  pub data_id : Text
  pub processing_result : ℕ
  pub original_app_event : AppEvent

-- `value`, a `double`, is counted in halves: the chain computes 1.5 times an integer, which a
-- `double` holds exactly.
pub record TransformedData : Type 0 where
  pub transformation_type : Text
  pub value_halves : ℕ
  pub original_data : ProcessedData

pub record FinalResult : Type 0 where
  pub success : Bool
  pub summary : Text
  pub original_transformed_data : TransformedData

pub record MirrorEvent : Type 0 where
  pub counter : ℕ
  pub message : Text

pub record DirectEvent : Type 0 where
  pub counter : ℕ

-- `ObserverCommand::Type`
pub data CommandType : Type 0 where
  stop_observing start_observing stress_mode set_normal_mode : CommandType

-- `duration_sec` is a count of seconds.
pub record ObserverCommand : Type 0 where
  pub type : CommandType
  pub duration_sec : ℕ
