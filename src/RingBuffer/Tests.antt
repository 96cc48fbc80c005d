-- ===== src/RingBuffer/Tests.antt =====
-- Runs of the ring buffer of src/include/threading/spScRingBuffer.hpp, and examples of its
-- theorems on small buffers.
use std.Equiv.{IsEquiv}
use native.Mathlib.Nat.{ℕ_set}
use boilerplate_thread_messa.RingBuffer.Abstract.{
  Buffer, to_queue, push_class, pop_class, to_queue-IsEquiv,
}
use boilerplate_thread_messa.RingBuffer.Fifo.{put, get}
use mathlib.Core.Quot.{Quot}
use boilerplate_thread_messa.Prelude.{
  ℕ, ◌-◌, ◌^◌, ◌≡◌, refl, ◌↔◌, true, false, List, [], ◌∷◌, arith,
}
use boilerplate_thread_messa.RingBuffer.{SpScRingBuffer, uninitialized, init, pop}
use boilerplate_thread_messa.RingBuffer.Invariant.{IsReady, init-iff_power}
use boilerplate_thread_messa.RingBuffer.Span.{contents}
use boilerplate_thread_messa.RingBuffer.Run.{
  Call, pushes, pops, asks_full, run, run_queue, run_refines,
}
use boilerplate_thread_messa.RingBuffer.Wait.{Race, sleeping, Reach, waiting, wakeup_can_be_lost}

abbrev blank : SpScRingBuffer ℕ
blank = uninitialized

-- Four slots that hold 8 and 9, round the end of the storage.
abbrev wrapped : SpScRingBuffer ℕ
wrapped = record {
  m_buffer = 9 ∷ 6 ∷ 7 ∷ 8 ∷ [];
  m_capacity = 4;
  m_mask = 3;
  m_head = 1;
  m_tail = 3;
  m_initialized = true;
}

abbrev two_slots : SpScRingBuffer ℕ
two_slots = record {
  m_buffer = 0 ∷ 0 ∷ [];
  m_capacity = 2;
  m_mask = 1;
  m_head = 0;
  m_tail = 0;
  m_initialized = true;
}

two_slots-IsReady : IsReady two_slots 1
two_slots-IsReady = record {
  started = refl;
  power = refl;
  fits = omega arith;
  masked = refl;
  storage = refl;
  head_in = omega arith;
  tail_in = omega arith;
}

init_four : (init 0 4 blank).1.m_buffer ≡ 0 ∷ 0 ∷ 0 ∷ 0 ∷ []
unfolding init
init_four = refl

init_six : init 0 6 blank ≡ (false, blank)
unfolding init
init_six = refl

pop-wrapped : pop 0 wrapped ≡ (true, 8, record wrapped { m_tail = 0 })
unfolding pop
pop-wrapped = refl

abbrev script : List (Call ℕ)
script = pushes 1 ∷ pushes 2 ∷ pushes 3 ∷ pushes 4 ∷ asks_full ∷ pops ∷ pops ∷ pushes 5 ∷ pops ∷ []

run_refines_example : run 0 (init 0 (2 ^ 2) blank).1 script ≡ run_queue 0 (2 ^ 2 - 1) [] script
run_refines_example = run_refines 0 0 2 blank script (omega arith)

init-iff_power_example : ((init 0 6 blank).0 ≡ true) ↔ ((k : ℕ) × (6 ≡ 2 ^ k))
init-iff_power_example = init-iff_power 0 6 blank (omega arith)

wakeup_can_be_lost_example :
    (s : Race ℕ) × Reach (waiting two_slots) s
    × (s.phase ≡ sleeping)
    × (s.to_notify ≡ false)
    × (contents 0 s.ring ≡ 7 ∷ [])
wakeup_can_be_lost_example = wakeup_can_be_lost 0 7 two_slots 1 two_slots-IsReady (omega arith) refl

abbrev empty_class : Buffer ℕ_set 0 1 (omega arith)
empty_class = Quot.mk (two_slots, two_slots-IsReady)

to_queue-IsEquiv_example :
    let (pushed, b1) = push_class ℕ_set 0 1 (omega arith) 7 empty_class in
    let (popped, y, b2) = pop_class ℕ_set 0 1 (omega arith) empty_class in
    IsEquiv (to_queue ℕ_set 0 1 (omega arith))
    × ((pushed, (to_queue ℕ_set 0 1 (omega arith) b1).0)
        ≡ put (2 ^ 1 - 1) 7 (to_queue ℕ_set 0 1 (omega arith) empty_class).0)
    × ((popped, y, (to_queue ℕ_set 0 1 (omega arith) b2).0)
        ≡ get 0 (to_queue ℕ_set 0 1 (omega arith) empty_class).0)
to_queue-IsEquiv_example = to_queue-IsEquiv ℕ_set 0 1 (omega arith) 7 empty_class
