-- ===== src/RingBuffer/Spsc/Range.antt =====
-- The indices that `push` and `pop` of src/include/threading/spScRingBuffer.hpp hold and store.
use boilerplate_thread_messa.Prelude.{ℕ, ◌^◌, ◌<◌, ◌≡◌, List, [], ◌∷◌, length, arith}
use boilerplate_thread_messa.Prelude.Words.{size_mod}
use boilerplate_thread_messa.RingBuffer.{SpScRingBuffer, init}
use boilerplate_thread_messa.RingBuffer.Invariant.{IsReady}
use boilerplate_thread_messa.RingBuffer.Spsc.{
  Producer, loaded_head, has_room, stored_value, Consumer, loaded_tail, has_item, read_value,
  System, start, Reach,
}
use boilerplate_thread_messa.RingBuffer.Spsc.Order.{
  ProducerAgrees, ConsumerAgrees, start-Inv, Reach-Inv,
}

-- The indices in the locals of a call.
abbrev pub producer_indices {ℓ} : {A : Type ℓ} → Producer A → List ℕ
producer_indices Producer.outside = []
producer_indices (loaded_head v h) = h ∷ []
producer_indices (has_room v h n) = h ∷ n ∷ []
producer_indices (stored_value v n) = n ∷ []

abbrev pub consumer_indices {ℓ} : {A : Type ℓ} → Consumer A → List ℕ
consumer_indices Consumer.outside = []
consumer_indices (loaded_tail t) = t ∷ []
consumer_indices (has_item t) = t ∷ []
consumer_indices (read_value t v) = t ∷ []

abbrev pub AllBelow : ℕ → List ℕ → Type 0
AllBelow c [] = Unit
AllBelow c (i ∷ is) = (i < c) × AllBelow c is

module _ {A : Type 0} (out : A) {k : ℕ} {r : SpScRingBuffer A} (v : IsReady r k) where
  producer_in : (p : Producer A) → ProducerAgrees out r p → AllBelow (2 ^ k) (producer_indices p)
  producer_in Producer.outside h = tt
  producer_in (loaded_head x i) h = (omega (arith, h, v.head_in, v.power), tt)
  producer_in (has_room x i n) h =
      (omega (arith, h.0, v.head_in, v.power), (omega (arith, h.1, v.head_in, v.power), tt))
  producer_in (stored_value x n) h = (omega (arith, h.0, v.head_in, v.power), tt)

  consumer_in : (c : Consumer A) → ConsumerAgrees out r c → AllBelow (2 ^ k) (consumer_indices c)
  consumer_in Consumer.outside h = tt
  consumer_in (loaded_tail t) h = (omega (arith, h, v.tail_in, v.power), tt)
  consumer_in (has_item t) h = (omega (arith, h.0, v.tail_in, v.power), tt)
  consumer_in (read_value t x) h = (omega (arith, h.0, v.tail_in, v.power), tt)

-- In every reachable state of `push` and `pop` at once, after `init` with `2 ^ k`, the storage has
-- `2 ^ k` slots, and every index, the two that are shared and those in the locals of both calls, is
-- below that.
pub indices_in_range :
    {A : Type 0} (value out : A) (k : ℕ) (r : SpScRingBuffer A)
    → 2 ^ k < size_mod
    → {s : System A} → Reach out (start (init value (2 ^ k) r).1) s
    → (length s.ring.m_buffer ≡ 2 ^ k)
      × (s.ring.m_head < 2 ^ k)
      × (s.ring.m_tail < 2 ^ k)
      × AllBelow (2 ^ k) (producer_indices s.producer)
      × AllBelow (2 ^ k) (consumer_indices s.consumer)
indices_in_range value out k r small {s} reached =
    let inv = Reach-Inv (start-Inv value out k r small) reached in
    let v = inv.ready in
    (
      omega (arith, v.storage, v.power),
      omega (arith, v.head_in, v.power),
      omega (arith, v.tail_in, v.power),
      producer_in out v s.producer inv.producing,
      consumer_in out v s.consumer inv.consuming,
    )
