-- ===== src/SafeQueue/Laws.antt =====
-- The order of the queue of src/include/threading/threadSafeQueue.hpp, and the end of `waitPop`.
use boilerplate_thread_messa.Prelude.{
  ◌≡◌, refl, sym, ap, ◌∙◌, Bool, true, false, Option, none, some, List, [], ◌∷◌, ◌++◌, append_assoc,
  append-nil, arith, ◌⊎◌, inl, inr,
}
use boilerplate_thread_messa.CondVar.{
  Waited, returned, asleep, wait, wait-pred, wait-asleep, act_all,
}
use mathlib.Core.List.{flatten}
use boilerplate_thread_messa.SafeQueue.{push, try_pop, Other, act, ready, after_wait, wait_pop}

pub data Call {ℓ} (T : Type ℓ) : Type ℓ where
  pushed : T → Call T
  popped : Call T

module _ {ℓ} {T : Type ℓ} where
  -- The calls of all threads in the order in which they take the mutex, with the values that
  -- `tryPop` hands out.
  pub history : List T → List (Call T) → List T × List T
  history q [] = ([], q)
  history q (pushed x ∷ cs) = history (push x q) cs
  history q (popped ∷ cs) =
      let (x, q') = try_pop q in
      let (out, rest) = history q' cs in (elim x [ none ↦ out | some y ↦ y ∷ out ], rest)

  abbrev pub inputs : List (Call T) → List T
  inputs [] = []
  inputs (pushed x ∷ cs) = x ∷ inputs cs
  inputs (popped ∷ cs) = inputs cs

  -- Whatever the order of the calls, what was handed out and then what is left is what the queue
  -- held and then what was pushed.
  pub history_in_order :
      (q : List T) (cs : List (Call T))
      → let (out, rest) = history q cs in out ++ rest ≡ q ++ inputs cs
  unfolding history push try_pop
  history_in_order q [] = sym (append-nil q)
  history_in_order q (pushed x ∷ cs) =
      history_in_order (q ++ (x ∷ [])) cs ∙ append_assoc q (x ∷ []) (inputs cs)
  history_in_order [] (popped ∷ cs) = history_in_order [] cs
  history_in_order (x ∷ q) (popped ∷ cs) = ap (λ xs. x ∷ xs) (history_in_order q cs)

module _ {ℓ κ} {T : Type ℓ} {E : Type κ} (stop : E → Bool) where
  -- `waitPop` returns either the front element of the queue as it is when the wait ends, which it
  -- removes, or nothing, and then the queue is empty and the stop predicate holds.
  pub wait_pop_lem :
      (ws : List (List (Other T E))) (s : List T × E) {x : Option T} {q : List T} {e : E}
      → wait_pop stop ws s ≡ some (x, q, e)
      → ((x ≡ none) × (q ≡ []) × (stop e ≡ true))
        ⊎ ((y : T) × (x ≡ some y) × (wait act (ready stop) ws s ≡ returned true (y ∷ q, e)))
  unfolding wait_pop after_wait ready try_pop
  wait_pop_lem ws s {x} {q} {e} h = inverted (wait act (ready stop) ws s) refl h
    where
      inverted :
          (w : Waited (List T × E))
          → wait act (ready stop) ws s ≡ w
          → after_wait stop w ≡ some (x, q, e)
          → ((x ≡ none) × (q ≡ []) × (stop e ≡ true))
            ⊎ ((y : T) × (x ≡ some y) × (w ≡ returned true (y ∷ q, e)))
      inverted (asleep t) d p = cc
      inverted (returned b ([], e')) d p = inl (ground (arith, wait-pred act (ready stop) ws s d))
      inverted (returned b (y ∷ q', e')) d p =
          inr (y, ground arith, ground (arith, wait-pred act (ready stop) ws s d))

  -- `waitPop` goes on waiting only while the queue is empty and the stop predicate fails, after
  -- all that the other threads have done.
  pub wait_pop_blocks :
      (ws : List (List (Other T E))) (s : List T × E)
      → wait_pop stop ws s ≡ none
      → let (q, e) = act_all act (flatten ws) s in (q ≡ []) × (stop e ≡ false)
  unfolding wait_pop after_wait ready try_pop
  wait_pop_blocks ws s h = inverted (wait act (ready stop) ws s) refl h
    where
      inverted :
          (w : Waited (List T × E))
          → wait act (ready stop) ws s ≡ w
          → after_wait stop w ≡ none
          → let (q, e) = act_all act (flatten ws) s in (q ≡ []) × (stop e ≡ false)
      inverted (asleep ([], e)) d p = ground (arith, wait-asleep act (ready stop) ws s d)
      inverted (asleep (x ∷ q, e)) d p =
          absurd (ground (arith, wait-asleep act (ready stop) ws s d))
      inverted (returned b ([], e)) d p = cc
      inverted (returned b (x ∷ q, e)) d p = cc
