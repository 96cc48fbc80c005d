-- ===== src/RingBuffer/Log.antt =====
-- What `wait_pop_for` of src/include/threading/spScRingBuffer.hpp takes, against what the producer
-- gets into the buffer in the meantime.
use boilerplate_thread_messa.Prelude.{
  ℕ, ◌≡◌, refl, sym, subst, ap, ◌∙◌, append-nil, append_assoc, Bool, true, false, Option, none,
  some, List, [], ◌∷◌, ◌++◌, arith, if◌then◌else◌, ◌-◌,
}
use boilerplate_thread_messa.CondVar.{Wake, Waited, returned, asleep, wait_for, wait_for-pred}
use boilerplate_thread_messa.CondVar.Ghost.{waited, left, wait_for_erases, wait_for_keeps}
use boilerplate_thread_messa.RingBuffer.{SpScRingBuffer, push, pop}
use boilerplate_thread_messa.RingBuffer.Invariant.{IsReady, push-IsReady, pop-IsReady}
use boilerplate_thread_messa.RingBuffer.Span.{contents}
use boilerplate_thread_messa.RingBuffer.Fifo.{put, get, push-put, pop-get}
use boilerplate_thread_messa.RingBuffer.Wait.{
  act, wake_pred, wait_pop_for, after_wait, after_wait-pop,
}

-- A buffer with the values that have been accepted since the start.
pub record Logged {ℓ} (A : Type ℓ) : Type ℓ where
  pub ring : SpScRingBuffer A
  pub accepted : List A

module _ {ℓ} {A : Type ℓ} where
  abbrev pub log_push : A → Logged A → Logged A
  log_push x s = record {
    ring = (push x s.ring).1;
    accepted = if (push x s.ring).0 then s.accepted ++ (x ∷ []) else s.accepted;
  }

  -- The wait of `wait_pop_for`, with the log.
  abbrev pub logged_wait : List (Wake A) → SpScRingBuffer A → Waited (Logged A)
  unfolding wake_pred
  logged_wait ws r =
      wait_for log_push (λ s. wake_pred s.ring) ws (record { ring = r; accepted = [] })

  -- The values that the producer got into the buffer while the consumer waited.
  abbrev pub accepted_in : List (Wake A) → SpScRingBuffer A → List A
  accepted_in ws r = (left (logged_wait ws r)).accepted

  -- The buffer holds what it held, and then what has been accepted.
  record Grown (d : A) (k : ℕ) (r : SpScRingBuffer A) (s : Logged A) : Type ℓ where
    pub ready : IsReady s.ring k
    pub holds : contents d s.ring ≡ contents d r ++ s.accepted

  pub put_grows :
      (bound : ℕ) (x : A) (q q' : List A) (ok : Bool)
      → ◌≡◌ {A = Bool × List A} (ok, q') (put bound x q)
      → q' ≡ (if ok then q ++ (x ∷ []) else q)
  unfolding put
  put_grows bound x q q' ok e = ground arith

  grows_more :
      (ok : Bool) (x : A) (p q a : List A)
      → q ≡ p ++ a
      → (if ok then q ++ (x ∷ []) else q) ≡ p ++ (if ok then a ++ (x ∷ []) else a)
  grows_more true x p q a e = ap (λ l. l ++ (x ∷ [])) e ∙ append_assoc p a (x ∷ [])
  grows_more false x p q a e = e

  log_push-Grown :
      (d : A) (k : ℕ) (r : SpScRingBuffer A) (x : A) (s : Logged A)
      → Grown d k r s
      → Grown d k r (log_push x s)
  log_push-Grown d k r x s g = record {
    ready = push-IsReady x g.ready;
    holds =
        put_grows (s.ring.m_capacity - 1) x (contents d s.ring) (contents d (push x s.ring).1)
          (push x s.ring).0 (push-put g.ready d x)
        ∙ grows_more (push x s.ring).0 x (contents d r) (contents d s.ring) s.accepted g.holds;
  }

  wait_erases :
      (ws : List (Wake A)) (r : SpScRingBuffer A)
      → waited (λ (s : Logged A). s.ring) (logged_wait ws r) ≡ wait_for act wake_pred ws r
  unfolding act logged_wait wait_for wake_pred
  wait_erases ws r = wait_for_erases act log_push (λ s. s.ring) (λ x s. refl) wake_pred ws _

  -- A result is what `get` gives on the elements `q`; a wait that is not over has none.
  abbrev IsGot : A → A → ℕ → List A → Option (Bool × A × SpScRingBuffer A) → Type ℓ
  unfolding get
  IsGot d out k q none = Unit
  IsGot d out k q (some (got, x, r)) =
      ◌≡◌ {A = Bool × A × List A} (got, x, contents d r) (get out q) × IsReady r k

  pop-IsGot :
      (d out : A) (k : ℕ) (q : List A) {r : SpScRingBuffer A}
      → IsReady r k
      → contents d r ≡ q
      → IsGot d out k q (some (pop out r))
  unfolding IsGot
  pop-IsGot d out k q v e = (pop-get v d out ∙ ap (get out) e, pop-IsReady out v)

  taken_from :
      (d out : A) (k : ℕ) (ws : List (Wake A)) (r : SpScRingBuffer A) (res : Waited (Logged A))
      → waited (λ (s : Logged A). s.ring) res ≡ wait_for act wake_pred ws r
      → Grown d k r (left res)
      → IsGot d out k
          (contents d r ++ (left res).accepted)
          (after_wait out (wait_for act wake_pred ws r))
  unfolding waited IsGot after_wait
  taken_from d out k ws r (returned b s) same g =
      subst (IsGot d out k (contents d r ++ s.accepted))
        (sym (after_wait-pop out b s.ring (wait_for-pred act wake_pred ws r (sym same)))
          ∙ ap (after_wait out) same)
        (pop-IsGot d out k (contents d r ++ s.accepted) g.ready g.holds)
  taken_from d out k ws r (asleep s) same g =
      subst (λ w. IsGot d out k (contents d r ++ s.accepted) (after_wait out w)) same tt

  -- On a ready buffer a `wait_pop_for` that comes back takes the first of what the buffer held and
  -- of what the producer got into it in the meantime, if there is any, and leaves the rest, in
  -- order.
  pub wait_pop_for_history :
      (d out : A) (k : ℕ) (ws : List (Wake A)) (r : SpScRingBuffer A) {got : Bool} {x : A}
      {r' : SpScRingBuffer A}
      → IsReady r k
      → wait_pop_for out ws r ≡ some (got, x, r')
      → ◌≡◌ {A = Bool × A × List A}
          (got, x, contents d r')
          (get out (contents d r ++ accepted_in ws r))
        × IsReady r' k
  unfolding wait_pop_for logged_wait IsGot
  wait_pop_for_history d out k ws r v e =
      let woke : wait_pop_for out ws r ≡ after_wait out (wait_for act wake_pred ws r) =
        rw (v.started) refl in
      subst (IsGot d out k (contents d r ++ accepted_in ws r)) (sym woke ∙ e) (
        taken_from d out k ws r (logged_wait ws r) (wait_erases ws r) (
          wait_for_keeps log_push (λ s. wake_pred s.ring) (Grown d k r) (log_push-Grown d k r) ws
            (record { ready = v; holds = sym (append-nil (contents d r)) })))
