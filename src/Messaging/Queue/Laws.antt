-- ===== src/Messaging/Queue/Laws.antt =====
-- The order of the queue of src/include/messaging/messageQueue.hpp, and its waiting methods.
use boilerplate_thread_messa.Prelude.{
  ◌≡◌, refl, sym, ap, ◌∙◌, Bool, true, false, none, some, List, [], ◌∷◌, ◌++◌, append_assoc,
  append-nil, if◌then◌else◌, arith, ◌⊎◌, inl, inr,
}
use mathlib.Core.List.{flatten}
use boilerplate_thread_messa.CondVar.{
  Wake, HasTimeout, Waited, returned, asleep, wait, wait_for, wait-pred, wait_for-pred,
  wait_for-returns, wait-asleep, act_all,
}
use boilerplate_thread_messa.Messaging.Message.{SharedPtr}
use boilerplate_thread_messa.Messaging.Queue.{
  MessageQueue, pop, push_ptr, try_pop, clear, has_item, Other, pushes, pops, clears, act,
  after_wait_for, wait_for_message, after_wait, wait_message,
}

-- What a pop returns, from a queue with a message or an empty one, and what a clear drops.
pub data Departure {ℓ} (M : Type ℓ) : Type ℓ where
  handed empty_handed : SharedPtr M → Departure M
  dropped : MessageQueue M → Departure M

module _ {ℓ} {M : Type ℓ} where
  -- What a run of operations, by all threads in the order of the mutex, does to the messages, and
  -- what it leaves in the queue.
  pub history : MessageQueue M → List (Other M) → List (Departure M) × MessageQueue M
  unfolding act try_pop
  history q [] = ([], q)
  history q (pushes p ∷ os) = history (act (pushes p) q) os
  history q (pops ∷ os) =
      let (p, q') = try_pop q in
      let (out, rest) = history q' os in
      ((if has_item q then handed p else empty_handed p) ∷ out, rest)
  history q (clears ∷ os) =
      let q' = act clears q in let (out, rest) = history q' os in (dropped q ∷ out, rest)

  -- What is pushed, in order.
  abbrev pub inputs : List (Other M) → List (SharedPtr M)
  inputs [] = []
  inputs (pushes p ∷ os) = p ∷ inputs os
  inputs (pops ∷ os) = inputs os
  inputs (clears ∷ os) = inputs os

  -- The messages that leave, in order.
  abbrev pub gone : List (Departure M) → List (SharedPtr M)
  gone [] = []
  gone (handed p ∷ ds) = p ∷ gone ds
  gone (empty_handed p ∷ ds) = gone ds
  gone (dropped ps ∷ ds) = ps ++ gone ds

  -- A pop that finds nothing returns the null pointer.
  abbrev pub AllNull : List (Departure M) → Type ℓ
  AllNull [] = Unit
  AllNull (handed p ∷ ds) = AllNull ds
  AllNull (empty_handed p ∷ ds) = (p ≡ none) × AllNull ds
  AllNull (dropped ps ∷ ds) = AllNull ds

  -- Whatever threads push, pop and clear: the messages that pops return and clears drop, each once
  -- and in the order in which they leave, and then those left in the queue, are exactly the ones
  -- held at first and then pushed, in order; and a pop on an empty queue returns the null pointer.
  pub every_message_leaves_once :
      (q : MessageQueue M) (os : List (Other M))
      → let (out, rest) = history q os in (gone out ++ rest ≡ q ++ inputs os) × AllNull out
  unfolding history act push_ptr try_pop pop clear
  every_message_leaves_once q [] = (sym (append-nil q), tt)
  every_message_leaves_once q (pushes p ∷ os) =
      let (same, null) = every_message_leaves_once (q ++ (p ∷ [])) os in
      (same ∙ append_assoc q (p ∷ []) (inputs os), null)
  every_message_leaves_once [] (pops ∷ os) =
      let (same, null) = every_message_leaves_once [] os in (same, (refl, null))
  every_message_leaves_once (p ∷ q) (pops ∷ os) =
      let (same, null) = every_message_leaves_once q os in (ap (λ ps. p ∷ ps) same, null)
  every_message_leaves_once q (clears ∷ os) =
      let (same, null) = every_message_leaves_once [] os in
      (append_assoc q (gone (history [] os).0) (history [] os).1 ∙ ap (λ ps. q ++ ps) same, null)

  -- `wait_for` with a timeout comes back. It returns the front pointer of the queue as it stands
  -- at the end of the wait and removes it, or the empty pointer, and then the queue is empty.
  pub wait_for_message_lem :
      (ws : List (Wake (Other M))) (q : MessageQueue M)
      → HasTimeout ws
      → (p : SharedPtr M) × (q' : MessageQueue M) × (wait_for_message ws q ≡ some (p, q'))
        × (((p ≡ none) × (wait_for act has_item ws q ≡ returned false []) × (q' ≡ []))
            ⊎ (wait_for act has_item ws q ≡ returned true (p ∷ q')))
  unfolding wait_for_message after_wait_for pop
  wait_for_message_lem ws q h = ended (wait_for-returns act has_item ws q h)
    where
      ended :
          (b : Bool) × (t : MessageQueue M) × (wait_for act has_item ws q ≡ returned b t)
          → (p : SharedPtr M) × (q' : MessageQueue M) × (wait_for_message ws q ≡ some (p, q'))
            × (((p ≡ none) × (wait_for act has_item ws q ≡ returned false []) × (q' ≡ []))
                ⊎ (wait_for act has_item ws q ≡ returned true (p ∷ q')))
      ended (true, [], e) = absurd (ground (arith, wait_for-pred act has_item ws q e))
      ended (false, [], e) = (none, [], rw e, inl (refl, e, refl))
      ended (true, p ∷ q', e) = (p, q', rw e, inr e)
      ended (false, p ∷ q', e) = absurd (ground (arith, wait_for-pred act has_item ws q e))

  -- `wait` either still waits, and then the queue is empty after all that others have done, or has
  -- returned the front pointer of the queue as it stood at the end of the wait, and removed it.
  pub wait_message_lem :
      (ws : List (List (Other M))) (q : MessageQueue M)
      → ((wait_message ws q ≡ none) × (act_all act (flatten ws) q ≡ []))
        ⊎ ((p : SharedPtr M) × (q' : MessageQueue M) × (wait_message ws q ≡ some (p, q'))
            × (wait act has_item ws q ≡ returned true (p ∷ q')))
  unfolding wait_message after_wait pop
  wait_message_lem ws q = ended (wait act has_item ws q) refl
    where
      ended :
          (w : Waited (MessageQueue M))
          → wait act has_item ws q ≡ w
          → ((after_wait w ≡ none) × (act_all act (flatten ws) q ≡ []))
            ⊎ ((p : SharedPtr M) × (q' : MessageQueue M) × (after_wait w ≡ some (p, q'))
                × (w ≡ returned true (p ∷ q')))
      ended (asleep []) d = inl (refl, sym (wait-asleep act has_item ws q d).0)
      ended (asleep (p ∷ t)) d = absurd (ground (arith, wait-asleep act has_item ws q d))
      ended (returned b []) d = absurd (ground (arith, wait-pred act has_item ws q d))
      ended (returned b (p ∷ t)) d = inr (p, t, refl, ground (arith, wait-pred act has_item ws q d))
