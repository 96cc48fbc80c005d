-- ===== src/RingBuffer/Wait.antt =====
-- `wait_pop_for` of src/include/threading/spScRingBuffer.hpp, while the producer pushes; and the
-- notification that the producer sends without the consumer's mutex.
use boilerplate_thread_messa.Prelude.{
  ℕ, ◌<◌, ◌≡◌, ◌≢◌, refl, ap, ◌∙◌, Bool, true, false, not, ◌||◌, Option, none, some, List, [], ◌∷◌,
  if◌then◌else◌, arith,
}
use boilerplate_thread_messa.CondVar.{
  Wake, HasTimeout, Waited, returned, asleep, wait_for, wait_for-pred, wait_for-returns,
}
use boilerplate_thread_messa.RingBuffer.{SpScRingBuffer, push, pop, empty}
use boilerplate_thread_messa.RingBuffer.Invariant.{IsReady}
use boilerplate_thread_messa.RingBuffer.Span.{contents}
use boilerplate_thread_messa.RingBuffer.Fifo.{put, push-put, empty-full}

module _ {ℓ} {A : Type ℓ} where
  -- What the producer does while the consumer waits: `push`.
  unfoldable pub act : A → SpScRingBuffer A → SpScRingBuffer A
  act x r = (push x r).1

  unfoldable pub wake_pred : SpScRingBuffer A → Bool
  wake_pred r = not r.m_initialized || not (empty r)

  -- The code behind the wait. `none` is a consumer that still waits.
  unfoldable pub after_wait : A → Waited (SpScRingBuffer A) → Option (Bool × A × SpScRingBuffer A)
  after_wait out (returned ok r) =
      if not ok
      then some (false, out, r)
      else if not r.m_initialized || empty r
      then some (false, out, r)
      else some (pop out r)
  after_wait out (asleep r) = none

  unfoldable pub wait_pop_for :
      A → List (Wake A) → SpScRingBuffer A → Option (Bool × A × SpScRingBuffer A)
  wait_pop_for out ws r =
      if not r.m_initialized
      then some (false, out, r)
      else after_wait out (wait_for act wake_pred ws r)

  empty-pop : (out : A) (r : SpScRingBuffer A) → empty r ≡ true → pop out r ≡ (false, out, r)
  unfolding empty pop
  empty-pop out r e = ground arith

  uninitialized_pop :
      (out : A) (r : SpScRingBuffer A) → r.m_initialized ≡ false → pop out r ≡ (false, out, r)
  unfolding pop
  uninitialized_pop out r e = ground arith

  pub after_wait-pop :
      (out : A) (ok : Bool) (r : SpScRingBuffer A)
      → wake_pred r ≡ ok
      → after_wait out (returned ok r) ≡ some (pop out r)
  unfolding after_wait wake_pred
  after_wait-pop out ok r e = ground (arith, empty-pop out r, uninitialized_pop out r)

  -- With a timeout `wait_pop_for` comes back, and then does what `pop` does on the buffer as it
  -- stands at the end of the wait.
  pub wait_pop_for-pop :
      (out : A) (ws : List (Wake A)) (r : SpScRingBuffer A)
      → HasTimeout ws
      → r.m_initialized ≡ true
      → (ok : Bool) × (r' : SpScRingBuffer A) × (wait_for act wake_pred ws r ≡ returned ok r')
        × (wait_pop_for out ws r ≡ some (pop out r'))
  unfolding wait_pop_for
  wait_pop_for-pop out ws r h started =
      let (ok, r', e) = wait_for-returns act wake_pred ws r h in
      (ok, r', e, simp (started, e) (after_wait-pop out ok r' (wait_for-pred act wake_pred ws r e)))

-- Where the consumer stands in the wait. It holds `m_waitMutex` from the test until it sleeps.
pub data Phase : Type 0 where
  testing about_to_sleep sleeping done : Phase

-- `to_notify`: the producer has pushed and not yet called `notifyOne`.
pub record Race {ℓ} (A : Type ℓ) : Type ℓ where
  pub ring : SpScRingBuffer A
  pub phase : Phase
  pub to_notify : Bool

-- Neither `push` nor `notifyOne` takes the mutex, so both can run at any phase.
pub data Step {ℓ} {A : Type ℓ} (s : Race A) : Race A → Type ℓ where
  test_true : s.phase ≡ testing → wake_pred s.ring ≡ true → Step s (record s { phase = done })
  test_false :
      s.phase ≡ testing → wake_pred s.ring ≡ false → Step s (record s { phase = about_to_sleep })
  sleep : s.phase ≡ about_to_sleep → Step s (record s { phase = sleeping })
  wake_up : s.phase ≡ sleeping → Step s (record s { phase = testing })
  push_value :
      (x : A)
      → s.to_notify ≡ false
      → (push x s.ring).0 ≡ true
      → Step s (record s { ring = (push x s.ring).1; to_notify = true })
  notify_sleeper :
      s.to_notify ≡ true
      → s.phase ≡ sleeping
      → Step s (record s { phase = testing; to_notify = false })
  notify_nobody : s.to_notify ≡ true → s.phase ≢ sleeping → Step s (record s { to_notify = false })

pub data Reach {ℓ} {A : Type ℓ} (s : Race A) : Race A → Type ℓ where
  here : Reach s s
  later : {t u : Race A} → Reach s t → Step t u → Reach s u

module _ {ℓ} {A : Type ℓ} where
  abbrev pub waiting : SpScRingBuffer A → Race A
  waiting r = record { ring = r; phase = testing; to_notify = false }

  -- A wake-up can be lost. From every ready and empty buffer of two slots or more, and for every
  -- value, there is a run in which the consumer sleeps, the value lies in the buffer and no
  -- notification is to come.
  pub wakeup_can_be_lost :
      (d x : A) (r : SpScRingBuffer A) (k : ℕ)
      → IsReady r k
      → 1 < r.m_capacity
      → contents d r ≡ []
      → (s : Race A) × Reach (waiting r) s
        × (s.phase ≡ sleeping)
        × (s.to_notify ≡ false)
        × (contents d s.ring ≡ x ∷ [])
  unfolding wake_pred put
  wakeup_can_be_lost d x r k v big nothing = (
    record { ring = (push x r).1; phase = sleeping; to_notify = false },
    later
        (later
          (later (later here (test_false refl untrue)) (push_value x refl (ap (λ p. p.0) pushed)))
          (notify_nobody refl (λ e. cc)))
        (sleep refl),
    refl,
    refl,
    ap (λ p. p.1) pushed,
  )
    where
      untrue : wake_pred r ≡ false
      untrue = ground (arith, v.started, (empty-full v d).0, nothing)

      pushed : ◌≡◌ {A = Bool × List A} ((push x r).0, contents d (push x r).1) (true, x ∷ [])
      pushed = push-put v d x ∙ rw nothing (ground arith)
