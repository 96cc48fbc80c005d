-- ===== src/CondVar.antt =====
-- `std::condition_variable` as the sources use it: a wait under a lock with a predicate. While a
-- thread waits, the lock is free and others act on the shared state `S`; each time the thread
-- wakes, by a notification, spuriously or by its timeout, it tests the predicate again.
pub mod Ghost
use boilerplate_thread_messa.Prelude.{
  ◌≡◌, refl, Bool, true, false, List, [], ◌∷◌, ◌++◌, arith, inl, inr, Bool-cases, if◌then◌else◌,
}
use mathlib.Core.List.{flatten}

-- What ends one sleep, with the operations of other threads since the last test.
pub data Wake {ℓ} (Op : Type ℓ) : Type ℓ where
  woken : List Op → Wake Op
  timed_out : List Op → Wake Op

pub data Waited {ℓ} (S : Type ℓ) : Type ℓ where
  returned : Bool → S → Waited S
  asleep : S → Waited S

abbrev pub HasTimeout {ℓ} : {Op : Type ℓ} → List (Wake Op) → Type 0
HasTimeout [] = ⊥
HasTimeout (woken _ ∷ ws) = HasTimeout ws
HasTimeout (timed_out _ ∷ _) = Unit

module _ {ℓ κ} {S : Type ℓ} {Op : Type κ} (act : Op → S → S) where
  abbrev pub act_all : List Op → S → S
  act_all [] s = s
  act_all (o ∷ os) s = act_all os (act o s)

  act_all-append : (os ps : List Op) (s : S) → act_all (os ++ ps) s ≡ act_all ps (act_all os s)
  act_all-append [] ps s = refl
  act_all-append (o ∷ os) ps s = act_all-append os ps (act o s)

  module _ (pred : S → Bool) where
    -- `wait_for(lock, timeout, pred)`: after the timeout the predicate is tested once more, and its
    -- value is the result.
    unfoldable pub wait_for : List (Wake Op) → S → Waited S
    wait_for [] s = if pred s then returned true s else asleep s
    wait_for (woken os ∷ ws) s =
        let rest = wait_for ws (act_all os s) in if pred s then returned true s else rest
    wait_for (timed_out os ∷ ws) s =
        let s' = act_all os s in if pred s then returned true s else returned (pred s') s'

    -- `wait(lock, pred)`, with the operations of others before each test.
    unfoldable pub wait : List (List Op) → S → Waited S
    wait [] s = if pred s then returned true s else asleep s
    wait (os ∷ ws) s = let rest = wait ws (act_all os s) in if pred s then returned true s else rest

    -- The result of `wait_for` is the value of the predicate at that moment.
    pub wait_for-pred :
        (ws : List (Wake Op)) (s : S) {b : Bool} {t : S} → wait_for ws s ≡ returned b t → pred t ≡ b
    unfolding wait_for
    wait_for-pred [] s e = ground arith
    wait_for-pred (woken os ∷ ws) s {b} {t} e =
        ground (arith, wait_for-pred ws (act_all os s) {b = b} {t = t})
    wait_for-pred (timed_out os ∷ ws) s e = ground arith

    -- Where the predicate holds already, the thread does not sleep.
    pub wait_for_now :
        (ws : List (Wake Op)) (s : S) → pred s ≡ true → wait_for ws s ≡ returned true s
    unfolding wait_for
    wait_for_now [] s e = rw e
    wait_for_now (woken os ∷ ws) s e = rw e
    wait_for_now (timed_out os ∷ ws) s e = rw e

    -- A wait with a timeout comes back.
    pub wait_for-returns :
        (ws : List (Wake Op)) (s : S)
        → HasTimeout ws
        → (b : Bool) × (t : S) × (wait_for ws s ≡ returned b t)
    unfolding wait_for
    wait_for-returns [] s h = absurd h
    wait_for-returns (woken os ∷ ws) s h = elim (Bool-cases (pred s)) [
      | inl e ↦ (true, s, rw e)
      | inr e ↦ rw e (wait_for-returns ws (act_all os s) h)
    ]
    wait_for-returns (timed_out os ∷ ws) s h = elim (Bool-cases (pred s)) [
      | inl e ↦ (true, s, rw e)
      | inr e ↦ (pred (act_all os s), act_all os s, rw e)
    ]

    pub wait-pred :
        (ws : List (List Op)) (s : S) {b : Bool} {t : S}
        → wait ws s ≡ returned b t
        → (pred t ≡ true) × (b ≡ true)
    unfolding wait flatten
    wait-pred [] s e = ground arith
    wait-pred (os ∷ ws) s {b} {t} e = ground (arith, wait-pred ws (act_all os s) {b = b} {t = t})

    -- A thread that still sleeps found the predicate false at each test, the last one included.
    pub wait-asleep :
        (ws : List (List Op)) (s : S) {t : S}
        → wait ws s ≡ asleep t
        → (t ≡ act_all (flatten ws) s) × (pred t ≡ false)
    unfolding wait flatten
    wait-asleep [] s e = ground arith
    wait-asleep (os ∷ ws) s {t} e =
        ground (arith, wait-asleep ws (act_all os s) {t = t}, act_all-append os (flatten ws) s)
