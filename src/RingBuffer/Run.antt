-- ===== src/RingBuffer/Run.antt =====
-- Sequences of calls on one ring buffer of src/include/threading/spScRingBuffer.hpp, and their
-- replies.
use boilerplate_thread_messa.Prelude.{
  ℕ, ◌-◌, ◌^◌, ◌<◌, ◌≡◌, refl, ap, ap₂, ◌∙◌, Bool, true, false, List, [], ◌∷◌, length, arith, ◌==◌,
}
use boilerplate_thread_messa.Prelude.Words.{size_mod}
use boilerplate_thread_messa.RingBuffer.{SpScRingBuffer, init, push, pop, empty, full}
use boilerplate_thread_messa.RingBuffer.Invariant.{IsReady, init-IsReady, push-IsReady, pop-IsReady}
use boilerplate_thread_messa.RingBuffer.Fifo.{put, get, push-put, pop-get, empty-full}
use boilerplate_thread_messa.RingBuffer.Span.{contents, contents_of_reset}

pub data Call {ℓ} (A : Type ℓ) : Type ℓ where
  pushes : A → Call A
  pops : Call A
  asks_empty asks_full : Call A

-- What a call returns; `took` is the result of `pop` with what `out` holds then.
pub data Reply {ℓ} (A : Type ℓ) : Type ℓ where
  said : Bool → Reply A
  took : Bool → A → Reply A

module _ {ℓ} {A : Type ℓ} (out : A) where
  unfoldable pub run : SpScRingBuffer A → List (Call A) → List (Reply A)
  run r [] = []
  run r (pushes x ∷ cs) = let (ok, r') = push x r in said ok ∷ run r' cs
  run r (pops ∷ cs) = let (ok, x, r') = pop out r in took ok x ∷ run r' cs
  run r (asks_empty ∷ cs) = said (empty r) ∷ run r cs
  run r (asks_full ∷ cs) = said (full r) ∷ run r cs

  -- The same calls on a queue of at most `bound` elements.
  unfoldable pub run_queue : ℕ → List A → List (Call A) → List (Reply A)
  run_queue bound q [] = []
  run_queue bound q (pushes x ∷ cs) =
      let (ok, q') = put bound x q in said ok ∷ run_queue bound q' cs
  run_queue bound q (pops ∷ cs) = let (ok, x, q') = get out q in took ok x ∷ run_queue bound q' cs
  run_queue bound q (asks_empty ∷ cs) = said (length q == 0) ∷ run_queue bound q cs
  run_queue bound q (asks_full ∷ cs) = said (length q == bound) ∷ run_queue bound q cs

module _ {ℓ} {A : Type ℓ} where
  pub capacity-push : (x : A) (r : SpScRingBuffer A) → (push x r).1.m_capacity ≡ r.m_capacity
  unfolding push
  capacity-push x r = ground arith

  pub capacity-pop : (out : A) (r : SpScRingBuffer A) → (pop out r).2.m_capacity ≡ r.m_capacity
  unfolding pop
  capacity-pop out r = ground arith

  pub run_ready :
      (out : A) (k : ℕ) (cs : List (Call A)) (r : SpScRingBuffer A)
      → IsReady r k
      → run out r cs ≡ run_queue out (r.m_capacity - 1) (contents out r) cs
  unfolding run run_queue
  run_ready out k [] r v = refl
  run_ready out k (pushes x ∷ cs) r v =
      rw (run_ready out k cs (push x r).1 (push-IsReady x v), ← push-put v out x, capacity-push)
  run_ready out k (pops ∷ cs) r v =
      rw (run_ready out k cs (pop out r).2 (pop-IsReady out v), ← pop-get v out out, capacity-pop)
  run_ready out k (asks_empty ∷ cs) r v = rw (run_ready out k cs r v, (empty-full v out).0)
  run_ready out k (asks_full ∷ cs) r v = rw (run_ready out k cs r v, (empty-full v out).1)

  -- After `init` with `2 ^ k`, on whatever buffer, no sequence of calls tells the ring buffer from
  -- a queue, empty at first, that holds `2 ^ k - 1` elements at most.
  pub run_refines :
      (value out : A) (k : ℕ) (r : SpScRingBuffer A) (cs : List (Call A))
      → 2 ^ k < size_mod
      → run out (init value (2 ^ k) r).1 cs ≡ run_queue out (2 ^ k - 1) [] cs
  run_refines value out k r cs h =
      let (ok, v, head, tail) = init-IsReady value k r h in
      run_ready out k cs _ v
      ∙ ap₂ (λ bound q. run_queue out bound q cs) (ap (λ c. c - 1) v.power)
          (contents_of_reset out (init value (2 ^ k) r).1 (omega (arith, v.head_in)) head tail)

  -- Before `init` every call is refused and changes nothing.
  pub uninitialized_refuses :
      (r : SpScRingBuffer A) (x out : A)
      → r.m_initialized ≡ false
      → (push x r ≡ (false, r))
        × (pop out r ≡ (false, out, r))
        × (empty r ≡ true)
        × (full r ≡ false)
  unfolding push pop empty full
  uninitialized_refuses r x out e = ground arith
