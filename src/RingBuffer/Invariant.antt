-- ===== src/RingBuffer/Invariant.antt =====
-- `init` of src/include/threading/spScRingBuffer.hpp, and the representation invariant.
use Prim.Native.Nat.{bit_and}
use boilerplate_thread_messa.Prelude.{
  ℕ, ◌+◌, ◌-◌, ◌%◌, ◌^◌, ◌<◌, ◌≡◌, refl, ◌↔◌, true, false, length, length-set, length-resize,
  resize, arith, ap,
}
use boilerplate_thread_messa.Prelude.Words.{size_mod, add_size, sub_size}
use boilerplate_thread_messa.Prelude.Bits.{
  bit_and_mask, two_pow-and_pred, log_of_and_pred, one-le-two_pow,
}
use boilerplate_thread_messa.RingBuffer.{SpScRingBuffer, init, push, pop, next_index}

-- An initialised buffer of `2 ^ k` slots, as many as a `size_t` counts at most.
pub record IsReady {ℓ} {A : Type ℓ} (r : SpScRingBuffer A) (k : ℕ) : Type 0 where
  pub started : r.m_initialized ≡ true
  pub power : r.m_capacity ≡ 2 ^ k
  pub fits : r.m_capacity < size_mod
  pub masked : r.m_mask ≡ 2 ^ k - 1
  pub storage : length r.m_buffer ≡ r.m_capacity
  pub head_in : r.m_head < r.m_capacity
  pub tail_in : r.m_tail < r.m_capacity

pred_size : (c : ℕ) → 0 < c → c < size_mod → sub_size c 1 ≡ c - 1
pred_size c p h = omega arith

-- The test of `init` on a nonzero capacity.
power_test : (c : ℕ) → c < size_mod → bit_and c (sub_size c 1) ≡ 0 → 0 < c → (k : ℕ) × (c ≡ 2 ^ k)
power_test c h e p = log_of_and_pred c p (rw (pred_size c p h) at e)

test_power : (k : ℕ) → 2 ^ k < size_mod → bit_and (2 ^ k) (sub_size (2 ^ k) 1) ≡ 0
test_power k h = rw (pred_size (2 ^ k) (one-le-two_pow k) h) (two_pow-and_pred k)

module _ {ℓ} {A : Type ℓ} where
  init_passes :
      (value : A) (c : ℕ) (r : SpScRingBuffer A)
      → (init value c r).0 ≡ true
      → (0 < c) × (bit_and c (sub_size c 1) ≡ 0)
  unfolding init
  init_passes value c r e = ground arith

  init_accepts :
      (value : A) (c : ℕ) (r : SpScRingBuffer A)
      → 0 < c
      → bit_and c (sub_size c 1) ≡ 0
      → init value c r ≡ (
        true,
        record {
          m_buffer = resize c value r.m_buffer;
          m_capacity = c;
          m_mask = sub_size c 1;
          m_head = 0;
          m_tail = 0;
          m_initialized = true;
        },
      )
  unfolding init
  init_accepts value c r p e = ground arith

  -- For a capacity that a `size_t` holds, `init` succeeds exactly on the powers of two.
  pub init-iff_power :
      (value : A) (c : ℕ) (r : SpScRingBuffer A)
      → c < size_mod
      → ((init value c r).0 ≡ true) ↔ ((k : ℕ) × (c ≡ 2 ^ k))
  init-iff_power value c r h = (
    λ e. let (p, z) = init_passes value c r e in power_test c h z p,
    λ (k, e).
        ap (λ s. s.0)
          (init_accepts value c r (omega (arith, e, one-le-two_pow k))
            (rw e (test_power k (rw e at h)))),
  )

  -- A failed `init` leaves the buffer as it was.
  pub init_fails :
      (value : A) (c : ℕ) (r : SpScRingBuffer A)
      → (init value c r).0 ≡ false
      → (init value c r).1 ≡ r
  unfolding init
  init_fails value c r e = ground arith

  -- `init` of a power of two gives a ready and empty buffer, whatever the buffer was before.
  pub init-IsReady :
      (value : A) (k : ℕ) (r : SpScRingBuffer A)
      → 2 ^ k < size_mod
      → let (ok, r') = init value (2 ^ k) r in
        (ok ≡ true) × IsReady r' k × (r'.m_head ≡ 0) × (r'.m_tail ≡ 0)
  init-IsReady value k r h = rw (init_accepts value (2 ^ k) r (one-le-two_pow k) (test_power k h)) (
    refl,
    record {
      started = refl;
      power = refl;
      fits = h;
      masked = pred_size (2 ^ k) (one-le-two_pow k) h;
      storage = length-resize (2 ^ k) value r.m_buffer;
      head_in = one-le-two_pow k;
      tail_in = one-le-two_pow k;
    },
    refl,
    refl,
  )

  pub next_index_lem :
      {r : SpScRingBuffer A} {k : ℕ} (i : ℕ)
      → IsReady r k
      → i < r.m_capacity
      → next_index r i ≡ (i + 1) % r.m_capacity
  next_index_lem {r} {k} i v h =
      rw (v.masked, bit_and_mask k (add_size i 1), ← v.power)
        (ap (λ (t : ℕ). t % r.m_capacity) (omega arith))

  pub next_index-lt :
      {r : SpScRingBuffer A} {k : ℕ} (i : ℕ)
      → IsReady r k
      → i < r.m_capacity
      → next_index r i < r.m_capacity
  next_index-lt i v h = omega (arith, next_index_lem i v h)

  -- `push` keeps the invariant.
  pub push-IsReady :
      {r : SpScRingBuffer A} {k : ℕ} (value : A) → IsReady r k → IsReady (push value r).1 k
  unfolding push
  push-IsReady {r} value v =
      ground (arith, length-set r.m_buffer r.m_head value, next_index-lt r.m_head v v.head_in)

  -- `pop` keeps the invariant.
  pub pop-IsReady : {r : SpScRingBuffer A} {k : ℕ} (out : A) → IsReady r k → IsReady (pop out r).2 k
  unfolding pop
  pop-IsReady {r} out v = ground (arith, next_index-lt r.m_tail v v.tail_in)
