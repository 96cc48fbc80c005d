-- ===== src/Messaging/Endpoint.antt =====
-- src/include/messaging/messageSender.hpp and messageReceiver.hpp. A sender refers to a queue that
-- it does not own, so the queues of all receivers stand in one store, under numbers.
pub mod Delivery
use Prim.Native.String.{String}
use boilerplate_thread_messa.Prelude.{
  ℕ, Bool, true, false, not, Option, none, some, List, [], ◌∷◌, ◌++◌, ◌==◌, if◌then◌else◌,
}
use boilerplate_thread_messa.Messaging.Message.{Payload, SharedPtr}
use boilerplate_thread_messa.Messaging.Queue.{MessageQueue, push_ptr}

-- `cerr` holds the type names that "no queue for message" was printed with. `state` is what the
-- receivers keep beside their queues.
pub record World {ℓ κ} (M : Type ℓ) (S : Type κ) : Type (ℓ ⊔ κ) where
  pub queues : ℕ → MessageQueue M
  pub cerr : List String
  pub state : S

-- `post_notify` is the receiver whose `onPostMessageReceived` the callback calls.
pub record Sender : Type 0 where
  pub message_queue_ptr : Option ℕ
  pub post_notify : Option ℕ

-- `Sender() = default`
abbrev pub unbound : Sender
unbound = record { message_queue_ptr = none; post_notify = none }

-- `Receiver::makeSender`
unfoldable pub make_sender : ℕ → Bool → Sender
make_sender receiver notify_on_post =
    if not notify_on_post
    then record { message_queue_ptr = some receiver; post_notify = none }
    else record { message_queue_ptr = some receiver; post_notify = some receiver }

module _ {ℓ κ} {M : Type ℓ} {S : Type κ} where
  abbrev pub set_queue : ℕ → MessageQueue M → World M S → World M S
  set_queue i q w = record w { queues = λ j. if i == j then q else w.queues j }

  unfoldable pub ensure_queue_available : Sender → String → World M S → Bool × World M S
  ensure_queue_available s name w = elim s.message_queue_ptr [
    | some q ↦ (true, w)
    | none ↦ (false, record w { cerr = w.cerr ++ (name ∷ []) })
  ]

  -- `hook receiver name message` is `onPostMessageReceived` of that receiver.
  module _ (hook : ℕ → String → SharedPtr M → World M S → World M S) where
    abbrev pub notify : Option ℕ → String → SharedPtr M → World M S → World M S
    notify none name wrapped w = w
    notify (some receiver) name wrapped w = hook receiver name wrapped w

    abbrev pub enqueue : Option ℕ → SharedPtr M → World M S → World M S
    unfolding push_ptr
    enqueue none wrapped w = w
    enqueue (some i) wrapped w = set_queue i (push_ptr wrapped (w.queues i)) w

    unfoldable pub send {μ} : {T : Type μ} ⦃p : Payload M T⦄ → Sender → T → World M S → World M S
    unfolding ensure_queue_available push_ptr
    send ⦃p⦄ s message w =
        let (available, w') = ensure_queue_available s p.type_name w in
        if not available
        then w'
        else let wrapped = some (p.wrap message) in
          notify s.post_notify p.type_name wrapped (enqueue s.message_queue_ptr wrapped w')
