-- ===== src/RingBuffer/Spsc/Tests.antt =====
-- A run of one producer and one consumer on two slots, and examples of the theorems on it.
use boilerplate_thread_messa.Prelude.{ℕ, ◌^◌, ◌<◌, ◌≡◌, refl, true, false, [], ◌∷◌, length, arith}
use boilerplate_thread_messa.RingBuffer.{SpScRingBuffer, uninitialized, init}
use boilerplate_thread_messa.RingBuffer.Span.{contents}
use boilerplate_thread_messa.RingBuffer.Run.{pushes, pops, said, took, run}
use boilerplate_thread_messa.RingBuffer.Spsc.Linear.{queue_after, linearizable}
use boilerplate_thread_messa.RingBuffer.Spsc.{
  load_value, store_tail, find_empty, has_room, has_item, System, load_head, find_room, store_value,
  store_head, load_tail, find_item, start, Reach, here, later,
}
use boilerplate_thread_messa.RingBuffer.Spsc.Range.{
  AllBelow, producer_indices, consumer_indices, indices_in_range,
}

abbrev four : SpScRingBuffer ℕ
four = (init 0 (2 ^ 2) uninitialized).1

abbrev began : System ℕ
began = start four

-- The buffer with 7 in slot 0; the producer is about to write 8 into slot 1, the consumer about
-- to read slot 0.
abbrev busy : System ℕ
busy = record {
  ring = record four { m_buffer = 7 ∷ 0 ∷ 0 ∷ 0 ∷ []; m_head = 1 };
  producer = has_room 8 1 2;
  consumer = has_item 0;
  pushed = 7 ∷ [];
  popped = [];
}

reached : Reach 0 began busy
unfolding init
reached =
    later
      (later
        (later
          (later
            (later
              (later (later (later here (load_head 7 refl refl)) (find_room 7 0 refl (omega arith)))
                (store_value 7 0 1 refl))
              (store_head 7 1 refl))
            (load_head 8 refl refl))
          (load_tail refl refl))
        (find_room 8 1 refl (omega arith)))
      (find_item 0 refl (omega arith))

indices_in_range_example :
    (length busy.ring.m_buffer ≡ 2 ^ 2)
    × (busy.ring.m_head < 2 ^ 2)
    × (busy.ring.m_tail < 2 ^ 2)
    × AllBelow (2 ^ 2) (producer_indices busy.producer)
    × AllBelow (2 ^ 2) (consumer_indices busy.consumer)
indices_in_range_example = indices_in_range 0 0 2 uninitialized (omega arith) reached

-- 7 has been popped, and then the buffer found empty; the producer still waits to write 8.
abbrev AnyReached : Type 0
AnyReached = (s : System ℕ) × Reach 0 began s

drained : AnyReached
unfolding init reached
drained = (
  _,
  later
      (later (later (later reached (load_value 0 refl)) (store_tail 0 7 refl))
        (load_tail refl refl))
      (find_empty 1 refl refl),
)

linearizable_example :
    (run 0 four (pushes 7 ∷ pops ∷ pops ∷ []) ≡ said true ∷ took true 7 ∷ took false 0 ∷ [])
    × (queue_after 0 3 [] (pushes 7 ∷ pops ∷ pops ∷ []) ≡ contents 0 drained.0.ring)
unfolding reached drained
linearizable_example = linearizable 0 0 2 uninitialized (omega arith) drained.1
