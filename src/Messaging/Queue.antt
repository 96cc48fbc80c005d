-- ===== src/Messaging/Queue.antt =====
-- src/include/messaging/messageQueue.hpp. Each public method holds the mutex from its first access
-- to its last, so it is one step on the list of pointers.
pub mod Laws
use boilerplate_thread_messa.Prelude.{
  Bool, true, false, not, Option, none, some, List, [], ◌∷◌, ◌++◌, is_empty, if◌then◌else◌,
}
use boilerplate_thread_messa.CondVar.{Wake, Waited, returned, asleep, wait, wait_for}
use boilerplate_thread_messa.Messaging.Message.{Payload, SharedPtr}

abbrev pub MessageQueue {ℓ} : Type ℓ → Type ℓ
MessageQueue M = List (SharedPtr M)

module _ {ℓ} {M : Type ℓ} where
  unfoldable pub pop : MessageQueue M → SharedPtr M × MessageQueue M
  pop [] = (none, [])
  pop (m ∷ q) = (m, q)

  unfoldable pub front : MessageQueue M → SharedPtr M
  front [] = none
  front (m ∷ q) = m

  -- `push(std::shared_ptr<T>)`. The `notify_one` behind it is a step of `Wakeups`.
  unfoldable pub push_ptr : SharedPtr M → MessageQueue M → MessageQueue M
  push_ptr p q = q ++ (p ∷ [])

  -- `push(const T&)`
  unfoldable pub push {κ} : {T : Type κ} ⦃p : Payload M T⦄ → T → MessageQueue M → MessageQueue M
  unfolding push_ptr
  push ⦃p⦄ msg q = push_ptr (some (p.wrap msg)) q

  unfoldable pub try_pop : MessageQueue M → SharedPtr M × MessageQueue M
  unfolding pop
  try_pop q = pop q

  unfoldable pub clear : MessageQueue M → MessageQueue M
  clear q = []

  unfoldable pub empty : MessageQueue M → Bool
  empty q = is_empty q

  abbrev pub has_item : MessageQueue M → Bool
  has_item q = not (is_empty q)

-- What other threads may do to the queue while one waits.
pub data Other {ℓ} (M : Type ℓ) : Type ℓ where
  pushes : SharedPtr M → Other M
  pops clears : Other M

module _ {ℓ} {M : Type ℓ} where
  unfoldable pub act : Other M → MessageQueue M → MessageQueue M
  unfolding push_ptr try_pop clear
  act (pushes p) q = push_ptr p q
  act pops q = (try_pop q).1
  act clears q = clear q

  -- The code behind the wait of `wait_for`. `none` is a thread that still waits.
  unfoldable pub after_wait_for : Waited (MessageQueue M) → Option (SharedPtr M × MessageQueue M)
  unfolding pop
  after_wait_for (returned has q) = if not has then some (none, q) else some (pop q)
  after_wait_for (asleep q) = none

  unfoldable pub wait_for_message :
      List (Wake (Other M)) → MessageQueue M → Option (SharedPtr M × MessageQueue M)
  unfolding after_wait_for
  wait_for_message ws q = after_wait_for (wait_for act has_item ws q)

  unfoldable pub after_wait : Waited (MessageQueue M) → Option (SharedPtr M × MessageQueue M)
  unfolding pop
  after_wait (returned has q) = some (pop q)
  after_wait (asleep q) = none

  unfoldable pub wait_message :
      List (List (Other M)) → MessageQueue M → Option (SharedPtr M × MessageQueue M)
  unfolding after_wait
  wait_message ws q = after_wait (wait act has_item ws q)
