-- ===== src/RingBuffer/Spsc/Safety.antt =====
-- The reachable states of `push` and `pop` at once, on a buffer that `init` made ready.
use boilerplate_thread_messa.Prelude.{
  ℕ, ◌+◌, ◌^◌, ◌<◌, ◌≡◌, refl, sym, subst, ◌∙◌, ◌≢◌, [], ◌++◌, length, arith,
}
use native.Mathlib.Decide.{ℕ_discrete}
use boilerplate_thread_messa.Prelude.Words.{size_mod}
use boilerplate_thread_messa.RingBuffer.{SpScRingBuffer, init, next_index}
use boilerplate_thread_messa.RingBuffer.Span.{contents, used_facts, length-contents}
use boilerplate_thread_messa.RingBuffer.Spsc.{
  Producer, loaded_head, has_room, stored_value, Consumer, loaded_tail, has_item, read_value,
  System, Step, find_full, find_room, store_value, store_head, find_empty, find_item, load_value,
  store_tail, start, Reach,
}
use boilerplate_thread_messa.RingBuffer.Spsc.Linear.{full_contents, empty_contents}
use boilerplate_thread_messa.RingBuffer.Spsc.Order.{
  ProducerAgrees, ConsumerAgrees, Inv, start-Inv, Reach-Inv,
}

module _ {A : Type 0} (value out : A) (k : ℕ) (r : SpScRingBuffer A) (small : 2 ^ k < size_mod)
    {s : System A} (reached : Reach out (start (init value (2 ^ k) r).1) s) where
  abbrev inv : Inv out k s
  inv = Reach-Inv (start-Inv value out k r small) reached

  -- In every reachable state the values popped so far, followed by those in the buffer, are the
  -- values pushed so far, in order; and fewer than `2 ^ k` are in the buffer.
  popped-then-held :
      (s.popped ++ contents out s.ring ≡ s.pushed) × (length (contents out s.ring) < 2 ^ k)
  popped-then-held = (
    inv.in_order,
    omega (arith, length-contents inv.ready out, (used_facts inv.ready).0, inv.ready.power),
  )

  -- When the producer is about to write a slot and the consumer about to read one, the two slots
  -- differ, and both lie inside the storage.
  no_race :
      (v : A) (h n t : ℕ)
      → s.producer ≡ has_room v h n
      → s.consumer ≡ has_item t
      → (h ≢ t) × (h < length s.ring.m_buffer) × (t < length s.ring.m_buffer)
  no_race v h n t p c =
      let (at_head, _, _) = subst (ProducerAgrees out s.ring) p inv.producing in
      let (at_tail, busy) = subst (ConsumerAgrees out s.ring) c inv.consuming in
      (
        λ same. busy (sym same ∙ at_head),
        omega (arith, at_head, inv.ready.head_in, inv.ready.storage),
        omega (arith, at_tail, inv.ready.tail_in, inv.ready.storage),
      )

  -- A `push` is refused only at a moment when the buffer holds `2 ^ k - 1` elements, and a `pop`
  -- only at a moment when it holds none.
  refusals_are_right :
      ((v : A) (h : ℕ)
        → s.producer ≡ loaded_head v h
        → next_index s.ring h ≡ s.ring.m_tail
        → length (contents out s.ring) + 1 ≡ 2 ^ k)
      × ((t : ℕ) → s.consumer ≡ loaded_tail t → t ≡ s.ring.m_head → contents out s.ring ≡ [])
  refusals_are_right = (
    λ v h p full. omega (arith, full_contents inv v h p full, inv.ready.power, inv.ready.head_in),
    empty_contents inv,
  )

-- The accesses that are left of a call.
abbrev pub producer_left {ℓ} : {A : Type ℓ} → Producer A → ℕ
producer_left Producer.outside = 0
producer_left (loaded_head _ _) = 3
producer_left (has_room _ _ _) = 2
producer_left (stored_value _ _) = 1

abbrev pub consumer_left {ℓ} : {A : Type ℓ} → Consumer A → ℕ
consumer_left Consumer.outside = 0
consumer_left (loaded_tail _) = 3
consumer_left (has_item _) = 2
consumer_left (read_value _ _) = 1

module _ {A : Type 0} (out : A) where
  producer_turn :
      (s : System A) (p : Producer A)
      → s.producer ≡ p
      → 0 < producer_left p
      → (t : System A) × Step out s t
        × (producer_left t.producer < producer_left p)
        × (t.consumer ≡ s.consumer)
  producer_turn s Producer.outside e h = absurd (omega arith)
  producer_turn s (loaded_head v i) e h = elim (ℕ_discrete (next_index s.ring i) s.ring.m_tail) [
    | yes full ↦ (_, find_full v i e full, omega arith, refl)
    | no free ↦ (_, find_room v i e free, omega arith, refl)
  ]
  producer_turn s (has_room v i n) e h = (_, store_value v i n e, omega arith, refl)
  producer_turn s (stored_value v n) e h = (_, store_head v n e, omega arith, refl)

  consumer_turn :
      (s : System A) (c : Consumer A)
      → s.consumer ≡ c
      → 0 < consumer_left c
      → (t : System A) × Step out s t
        × (consumer_left t.consumer < consumer_left c)
        × (t.producer ≡ s.producer)
  consumer_turn s Consumer.outside e h = absurd (omega arith)
  consumer_turn s (loaded_tail i) e h = elim (ℕ_discrete i s.ring.m_head) [
    | yes none_there ↦ (_, find_empty i e none_there, omega arith, refl)
    | no there ↦ (_, find_item i e there, omega arith, refl)
  ]
  consumer_turn s (has_item i) e h = (_, load_value i e, omega arith, refl)
  consumer_turn s (read_value i v) e h = (_, store_tail i v e, omega arith, refl)

  -- Neither call waits for the other thread: in any state a thread inside its call has a next
  -- access, which leaves fewer accesses of that call and leaves the other thread where it is.
  calls_never_wait :
      (s : System A)
      → (0 < producer_left s.producer
          → (t : System A) × Step out s t
            × (producer_left t.producer < producer_left s.producer)
            × (t.consumer ≡ s.consumer))
        × (0 < consumer_left s.consumer
            → (t : System A) × Step out s t
              × (consumer_left t.consumer < consumer_left s.consumer)
              × (t.producer ≡ s.producer))
  calls_never_wait s = (producer_turn s s.producer refl, consumer_turn s s.consumer refl)
