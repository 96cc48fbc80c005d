-- ===== src/RingBuffer/Spsc/Weak/Tests.antt =====
-- A run of `push` and `pop` of src/include/threading/spScRingBuffer.hpp in which the producer
-- goes by an old tail, and examples of the theorems on it.
use boilerplate_thread_messa.Prelude.{ℕ, ◌+◌, ◌^◌, ◌<◌, ◌≡◌, ◌≢◌, refl, ◌++◌, length, arith}
use boilerplate_thread_messa.RingBuffer.{SpScRingBuffer, uninitialized, init}
use boilerplate_thread_messa.RingBuffer.Span.{contents}
use boilerplate_thread_messa.RingBuffer.Spsc.{has_room, has_item}
use boilerplate_thread_messa.RingBuffer.Spsc.Weak.{
  Weak, load_head, find_room, store_value, store_head, load_tail, find_item, load_value, store_tail,
  weak_start, Reach, here, later,
}
use boilerplate_thread_messa.RingBuffer.Spsc.Weak.Safety.{
  stale_loads_are_safe, accesses_are_ordered,
}

abbrev four : SpScRingBuffer ℕ
four = (init 0 (2 ^ 2) uninitialized).1

-- 7 has been popped and 8 pushed. The producer is about to write 9, and still goes by the first
-- tail; the consumer is about to read 8.
abbrev AnyReached : Type 0
AnyReached = (w : Weak ℕ) × Reach 0 (weak_start four) w

one_through : AnyReached
unfolding init
one_through = (
  _,
  later
      (later
        (later
          (later
            (later
              (later
                (later (later here (load_head 7 refl refl))
                  (find_room 7 0 0 refl (omega arith) (omega arith) (omega arith)))
                (store_value 7 0 1 refl))
              (store_head 7 1 refl))
            (load_tail refl refl))
          (find_item 0 1 refl (omega arith) (omega arith) (omega arith)))
        (load_value 0 refl))
      (store_tail 0 7 refl),
)

stale : AnyReached
unfolding init one_through
stale = (
  _,
  later
      (later
        (later
          (later
            (later
              (later
                (later (later one_through.1 (load_head 8 refl refl))
                  (find_room 8 1 0 refl (omega arith) (omega arith) (omega arith)))
                (store_value 8 1 2 refl))
              (store_head 8 2 refl))
            (load_head 9 refl refl))
          (find_room 9 2 0 refl (omega arith) (omega arith) (omega arith)))
        (load_tail refl refl))
      (find_item 1 2 refl (omega arith) (omega arith) (omega arith)),
)

stale_loads_are_safe_example :
    (stale.0.now.popped ++ contents 0 stale.0.now.ring ≡ stale.0.now.pushed)
    × (length (contents 0 stale.0.now.ring) < 2 ^ 2)
stale_loads_are_safe_example = stale_loads_are_safe 0 0 2 uninitialized (omega arith) stale.1

accesses_are_ordered_example :
    ((v : ℕ) (h n : ℕ)
      → stale.0.now.producer ≡ has_room v h n
      → length stale.0.now.pushed + 1 < stale.0.seen_tail + 2 ^ 2)
    × ((t : ℕ) → stale.0.now.consumer ≡ has_item t → length stale.0.now.popped < stale.0.seen_head)
    × ((v : ℕ) (h n t : ℕ)
        → stale.0.now.producer ≡ has_room v h n
        → stale.0.now.consumer ≡ has_item t
        → h ≢ t)
accesses_are_ordered_example = accesses_are_ordered 0 0 2 uninitialized (omega arith) stale.1
