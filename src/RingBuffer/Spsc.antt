-- ===== src/RingBuffer/Spsc.antt =====
-- src/include/threading/spScRingBuffer.hpp with one producer and one consumer at once. `push` and
-- `pop` are taken apart into their loads and stores, which interleave in any order. An acquire
-- load that reads a release store sees all that was written before that store, and each index is
-- stored by one thread only, so the accesses are modelled as steps on one memory.
pub mod Order
pub mod Safety
pub mod Range
pub mod Weak
pub mod Linear
mod Tests
use boilerplate_thread_messa.Prelude.{ℕ, ◌≡◌, ◌≢◌, true, List, [], ◌∷◌, ◌++◌, get_or, set}
use boilerplate_thread_messa.RingBuffer.{SpScRingBuffer, next_index}

-- Where the producer stands in `push`, with the locals that are live there.
pub data Producer {ℓ} (A : Type ℓ) : Type ℓ where
  outside : Producer A
  loaded_head : (value : A) (head : ℕ) → Producer A
  has_room : (value : A) (head next : ℕ) → Producer A
  stored_value : (value : A) (next : ℕ) → Producer A

-- Where the consumer stands in `pop`.
pub data Consumer {ℓ} (A : Type ℓ) : Type ℓ where
  outside : Consumer A
  loaded_tail : (tail : ℕ) → Consumer A
  has_item : (tail : ℕ) → Consumer A
  read_value : (tail : ℕ) (value : A) → Consumer A

-- `pushed` and `popped` record the values of the calls that returned true, in order.
pub record System {ℓ} (A : Type ℓ) : Type ℓ where
  pub ring : SpScRingBuffer A
  pub producer : Producer A
  pub consumer : Consumer A
  pub pushed : List A
  pub popped : List A

-- One access of one thread. `out` is what the consumer's variable held before.
pub data Step {ℓ} {A : Type ℓ} (out : A) (s : System A) : System A → Type ℓ where
  load_head :
      (value : A)
      → s.ring.m_initialized ≡ true
      → s.producer ≡ Producer.outside
      → Step out s (record s { producer = loaded_head value s.ring.m_head })
  find_full :
      (value : A) (head : ℕ)
      → s.producer ≡ loaded_head value head
      → next_index s.ring head ≡ s.ring.m_tail
      → Step out s (record s { producer = Producer.outside })
  find_room :
      (value : A) (head : ℕ)
      → s.producer ≡ loaded_head value head
      → next_index s.ring head ≢ s.ring.m_tail
      → Step out s (record s { producer = has_room value head (next_index s.ring head) })
  store_value :
      (value : A) (head next : ℕ)
      → s.producer ≡ has_room value head next
      → Step out s (record s {
        ring = record (s.ring) { m_buffer = set s.ring.m_buffer head value };
        producer = stored_value value next;
      })
  store_head :
      (value : A) (next : ℕ)
      → s.producer ≡ stored_value value next
      → Step out s (record s {
        ring = record (s.ring) { m_head = next };
        producer = Producer.outside;
        pushed = s.pushed ++ (value ∷ []);
      })
  load_tail :
      s.ring.m_initialized ≡ true
      → s.consumer ≡ Consumer.outside
      → Step out s (record s { consumer = loaded_tail s.ring.m_tail })
  find_empty :
      (tail : ℕ)
      → s.consumer ≡ loaded_tail tail
      → tail ≡ s.ring.m_head
      → Step out s (record s { consumer = Consumer.outside })
  find_item :
      (tail : ℕ)
      → s.consumer ≡ loaded_tail tail
      → tail ≢ s.ring.m_head
      → Step out s (record s { consumer = has_item tail })
  load_value :
      (tail : ℕ)
      → s.consumer ≡ has_item tail
      → Step out s (record s { consumer = read_value tail (get_or s.ring.m_buffer tail out) })
  store_tail :
      (tail : ℕ) (value : A)
      → s.consumer ≡ read_value tail value
      → Step out s (record s {
        ring = record (s.ring) { m_tail = next_index s.ring tail };
        consumer = Consumer.outside;
        popped = s.popped ++ (value ∷ []);
      })

-- Both threads outside their calls, over a buffer from `init`.
abbrev pub start {ℓ} : {A : Type ℓ} → SpScRingBuffer A → System A
start r = record {
  ring = r;
  producer = Producer.outside;
  consumer = Consumer.outside;
  pushed = [];
  popped = [];
}

pub data Reach {ℓ} {A : Type ℓ} (out : A) (s : System A) : System A → Type ℓ where
  here : Reach out s s
  later : {t u : System A} → Reach out s t → Step out t u → Reach out s u
