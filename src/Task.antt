-- ===== src/Task.antt =====
-- src/include/taskBase.hpp: a task is a receiver, a sender and a worker at once. The number of a
-- task is the number of its queue.
pub mod Posting
pub mod Starting
mod Tests
use Prim.Native.String.{String}
use boilerplate_thread_messa.Prelude.{ℕ, Bool, true, false, Option, none, some}
use boilerplate_thread_messa.Worker.{Worker, new_worker, start}
use boilerplate_thread_messa.Messaging.Message.{Payload, SharedPtr}
use boilerplate_thread_messa.Messaging.Endpoint.{World, Sender, make_sender, send}

-- `Token` stands for `std::stop_token`. A function gets the number of the task that it is called
-- on.
abbrev pub RunFunction {ℓ κ} : Type 0 → Type ℓ → Type κ → Type (ℓ ⊔ κ)
RunFunction Token M S = ℕ → Token → World M S → World M S

abbrev pub OnMessageFunction {ℓ κ} : Type ℓ → Type κ → Type (ℓ ⊔ κ)
OnMessageFunction M S = ℕ → String → SharedPtr M → World M S → World M S

-- The sender and the worker are the base classes; an empty function is `none`.
pub record Task {ℓ κ} (Token : Type 0) (M : Type ℓ) (S : Type κ) : Type (ℓ ⊔ κ) where
  pub sender : Sender
  pub worker : Worker
  pub m_run_func : Option (RunFunction Token M S)
  pub m_on_msg_func : Option (OnMessageFunction M S)

module _ {ℓ κ} {Token : Type 0} {M : Type ℓ} {S : Type κ} where
  unfoldable pub is_ready_to_start : Option (RunFunction Token M S) → Bool
  is_ready_to_start none = false
  is_ready_to_start (some f) = true

  -- The constructor; `alone` says whether the function comes back without a stop request, `obeys`
  -- whether it comes back once its token tells of one.
  unfoldable pub new_task :
      Bool
      → Bool
      → ℕ
      → Option (RunFunction Token M S)
      → Option (OnMessageFunction M S)
      → Task Token M S
  new_task alone obeys i run_func on_msg_func = record {
    sender = make_sender i true;
    worker = new_worker (is_ready_to_start run_func) alone obeys;
    m_run_func = run_func;
    m_on_msg_func = on_msg_func;
  }

  unfoldable pub on_post_message_received :
      Task Token M S → ℕ → String → SharedPtr M → World M S → World M S
  on_post_message_received t i type_info message w = elim t.m_on_msg_func [
    | none ↦ w
    | some f ↦ f i type_info message w
  ]

  unfoldable pub run : Task Token M S → ℕ → Token → World M S → World M S
  run t i stop_token w = elim t.m_run_func [ none ↦ w | some f ↦ f i stop_token w ]

  -- `workerBase::start` of the task.
  unfoldable pub start_task : Bool → Option ℕ → Task Token M S → Bool × Task Token M S
  unfolding start
  start_task spawns external t =
      let (ok, w) = start spawns external t.worker in (ok, record t { worker = w })

  -- `Send` of a task, in a program whose tasks are `tasks`.
  unfoldable pub post {μ} :
      (ℕ → Task Token M S) → {T : Type μ} ⦃p : Payload M T⦄ → ℕ → T → World M S → World M S
  unfolding send on_post_message_received
  post tasks i message w =
      send (λ j type_info wrapped v. on_post_message_received (tasks j) j type_info wrapped v)
        (tasks i).sender message w
