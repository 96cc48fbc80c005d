-- ===== src/RingBuffer.antt =====
-- src/include/threading/spScRingBuffer.hpp: the single-producer, single-consumer ring buffer, each
-- method run as a whole. `RingBuffer/Spsc` takes `push` and `pop` apart into their atomic accesses.
pub mod Invariant
pub mod Span
pub mod Fifo
pub mod Run
pub mod Replies
pub mod Abstract
pub mod Wait
pub mod Log
pub mod Spsc
mod Tests
use Prim.Native.Nat.{bit_and}
use boilerplate_thread_messa.Prelude.{
  ℕ, Bool, true, false, not, List, [], ◌==◌, if◌then◌else◌, set, get_or, resize,
}
use boilerplate_thread_messa.Prelude.Words.{add_size, sub_size}

pub record SpScRingBuffer {ℓ} (A : Type ℓ) : Type ℓ where
  pub m_buffer : List A
  pub m_capacity : ℕ
  pub m_mask : ℕ
  pub m_head : ℕ
  pub m_tail : ℕ
  pub m_initialized : Bool

module _ {ℓ} {A : Type ℓ} where
  -- `SpScRingBuffer() = default`
  abbrev pub uninitialized : SpScRingBuffer A
  uninitialized = record {
    m_buffer = [];
    m_capacity = 0;
    m_mask = 0;
    m_head = 0;
    m_tail = 0;
    m_initialized = false;
  }

  -- `value` is `T{}`, with which `resize` fills new slots.
  unfoldable pub init : A → ℕ → SpScRingBuffer A → Bool × SpScRingBuffer A
  init value capacity r =
      if capacity == 0
      then (false, r)
      else if not (bit_and capacity (sub_size capacity 1) == 0)
      then (false, r)
      else (
        true,
        record {
          m_buffer = resize capacity value r.m_buffer;
          m_capacity = capacity;
          m_mask = sub_size capacity 1;
          m_head = 0;
          m_tail = 0;
          m_initialized = true;
        },
      )

  -- The index after `i`: `(i + 1) & m_mask`.
  abbrev pub next_index : SpScRingBuffer A → ℕ → ℕ
  next_index r i = bit_and (add_size i 1) r.m_mask

  -- A `set` out of range changes nothing; `Invariant.IsReady` rules it out.
  unfoldable pub push : A → SpScRingBuffer A → Bool × SpScRingBuffer A
  push value r =
      if not r.m_initialized
      then (false, r)
      else let head = r.m_head in
        let next = next_index r head in
        if next == r.m_tail
        then (false, r)
        else (true, record r { m_buffer = set r.m_buffer head value; m_head = next })

  -- The second result is what `out` holds on return.
  unfoldable pub pop : A → SpScRingBuffer A → Bool × A × SpScRingBuffer A
  pop out r =
      if not r.m_initialized
      then (false, out, r)
      else let tail = r.m_tail in
        if tail == r.m_head
        then (false, out, r)
        else (true, get_or r.m_buffer tail out, record r { m_tail = next_index r tail })

  unfoldable pub empty : SpScRingBuffer A → Bool
  empty r = if not r.m_initialized then true else r.m_tail == r.m_head

  unfoldable pub full : SpScRingBuffer A → Bool
  full r = if not r.m_initialized then false else next_index r r.m_head == r.m_tail

  unfoldable pub capacity : SpScRingBuffer A → ℕ
  capacity r = r.m_capacity
