-- ===== src/RingBuffer/Replies.antt =====
-- What the replies of a ring buffer of src/include/threading/spScRingBuffer.hpp tell of it.
use boilerplate_thread_messa.Prelude.{
  ℕ, suc, zero, ◌-◌, ◌^◌, ◌≤◌, ◌≡◌, ◌↔◌, refl, sym, ap, ap₂, ◌∙◌, List, [], ◌∷◌, length, arith,
}
use boilerplate_thread_messa.RingBuffer.{SpScRingBuffer}
use boilerplate_thread_messa.RingBuffer.Invariant.{IsReady}
use boilerplate_thread_messa.RingBuffer.Fifo.{get}
use boilerplate_thread_messa.RingBuffer.Span.{contents, length-contents, used_facts}
use boilerplate_thread_messa.RingBuffer.Run.{Call, pops, run, run_queue, run_ready}

module _ {ℓ} {A : Type ℓ} (out : A) where
  abbrev pub drain : ℕ → List (Call A)
  drain zero = []
  drain (suc n) = pops ∷ drain n

  -- Popping a queue empty shows all of it.
  drain_shows :
      (n bound : ℕ) (p q : List A)
      → length p ≤ n
      → length q ≤ n
      → run_queue out bound p (drain n) ≡ run_queue out bound q (drain n)
      → p ≡ q
  unfolding run_queue get
  drain_shows zero bound [] [] h g e = refl
  drain_shows zero bound (x ∷ p) q h g e = absurd (omega (arith, h))
  drain_shows zero bound [] (y ∷ q) h g e = absurd (omega (arith, g))
  drain_shows (suc n) bound [] [] h g e = refl
  drain_shows (suc n) bound (x ∷ p) [] h g e = absurd cc
  drain_shows (suc n) bound [] (y ∷ q) h g e = absurd cc
  drain_shows (suc n) bound (x ∷ p) (y ∷ q) h g e =
      let same : x ≡ y = cc in
      ap₂ (λ a l. a ∷ l) same (drain_shows n bound p q (omega (arith, h)) (omega (arith, g)) cc)

module _ {ℓ} {A : Type ℓ} (out : A) {k : ℕ} {r s : SpScRingBuffer A} (v : IsReady r k)
    (w : IsReady s k) where
  in_capacity : {t : SpScRingBuffer A} → IsReady t k → length (contents out t) ≤ 2 ^ k
  in_capacity u = omega (arith, length-contents u out, (used_facts u).0, u.power)

  -- Two ready buffers of one capacity hold the same elements exactly if no sequence of calls tells
  -- one from the other, wherever their heads and tails stand and whatever the free slots hold.
  pub same_replies :
      (contents out r ≡ contents out s) ↔ ((cs : List (Call A)) → run out r cs ≡ run out s cs)
  same_replies = (
    λ e cs.
        run_ready out k cs r v
        ∙ ap₂ (λ c q. run_queue out (c - 1) q cs) (v.power ∙ sym w.power) e
        ∙ sym (run_ready out k cs s w),
    λ same.
        drain_shows out (2 ^ k) (r.m_capacity - 1) (contents out r) (contents out s) (in_capacity v)
          (in_capacity w)
          (sym (run_ready out k (drain out (2 ^ k)) r v)
            ∙ same (drain out (2 ^ k))
            ∙ run_ready out k (drain out (2 ^ k)) s w
            ∙ ap (λ c. run_queue out (c - 1) (contents out s) (drain out (2 ^ k)))
                (w.power ∙ sym v.power)),
  )
