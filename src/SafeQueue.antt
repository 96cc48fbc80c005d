-- ===== src/SafeQueue.antt =====
-- src/include/threading/threadSafeQueue.hpp. Each method runs under the queue's mutex, so it is
-- one step on the list; a blocked `waitPop` sees what others do in between.
pub mod Laws
pub mod Wakeups
mod Tests
use boilerplate_thread_messa.Prelude.{
  Bool, true, false, not, ◌||◌, Option, none, some, List, [], ◌∷◌, ◌++◌, is_empty,
}
use boilerplate_thread_messa.CondVar.{Waited, returned, asleep, wait}

module _ {ℓ} {T : Type ℓ} where
  -- Both overloads of `push`; the notification is `notify_one`.
  unfoldable pub push : T → List T → List T
  push value q = q ++ (value ∷ [])

  unfoldable pub try_pop : List T → Option T × List T
  try_pop [] = (none, [])
  try_pop (x ∷ q) = (some x, q)

  unfoldable pub empty : List T → Bool
  empty q = is_empty q

-- What other threads do while one waits: the queue's methods, and changes of the state that the
-- stop predicate reads.
pub data Other {ℓ κ} (T : Type ℓ) (E : Type κ) : Type (ℓ ⊔ κ) where
  pushes : T → Other T E
  pops : Other T E
  changes : E → Other T E

module _ {ℓ κ} {T : Type ℓ} {E : Type κ} where
  unfoldable pub act : Other T E → List T × E → List T × E
  act (pushes x) (q, e) = (push x q, e)
  act pops (q, e) = ((try_pop q).1, e)
  act (changes e') (q, e) = (q, e')

  module _ (stop : E → Bool) where
    unfoldable pub ready : List T × E → Bool
    ready (q, e) = not (is_empty q) || stop e

    -- The code behind the wait: the front element, if there is one. `none` is a thread that still
    -- waits.
    unfoldable pub after_wait : Waited (List T × E) → Option (Option T × List T × E)
    after_wait (returned b (q, e)) = let (x, q') = try_pop q in some (x, q', e)
    after_wait (asleep s) = none

    unfoldable pub wait_pop : List (List (Other T E)) → List T × E → Option (Option T × List T × E)
    wait_pop ws s = after_wait (wait act ready ws s)
