-- ===== src/RingBuffer/Spsc/Weak.antt =====
-- `push` and `pop` of src/include/threading/spScRingBuffer.hpp with the loads that the memory
-- orders allow. A thread loads its own index as it stored it last. Its acquire load of the other
-- thread's index gives any value of that index's modification order that is not older than the
-- one it saw last, and it then sees what was written before that store.
pub mod History
pub mod Seen
pub mod Order
pub mod Safety
pub mod Embed
mod Tests
use boilerplate_thread_messa.Prelude.{
  ℕ, ◌≤◌, ◌<◌, ◌≡◌, ◌≢◌, true, List, [], ◌∷◌, ◌++◌, length, get_or, set,
}
use boilerplate_thread_messa.RingBuffer.{SpScRingBuffer, next_index}
use boilerplate_thread_messa.RingBuffer.Spsc.{
  Producer, loaded_head, has_room, stored_value, Consumer, loaded_tail, has_item, read_value,
  System, start,
}

-- `heads` and `tails` are the modification orders of the two indices, the oldest value first, and
-- `seen_head` and `seen_tail` the places in them that the other thread has seen last.
pub record Weak {ℓ} (A : Type ℓ) : Type ℓ where
  pub now : System A
  pub heads : List ℕ
  pub tails : List ℕ
  pub seen_head : ℕ
  pub seen_tail : ℕ

pub data Step {ℓ} {A : Type ℓ} (out : A) (w : Weak A) : Weak A → Type ℓ where
  load_head :
      (value : A)
      → w.now.ring.m_initialized ≡ true
      → w.now.producer ≡ Producer.outside
      → Step out w
          (record w { now = record (w.now) { producer = loaded_head value w.now.ring.m_head } })
  find_full :
      (value : A) (head at : ℕ)
      → w.now.producer ≡ loaded_head value head
      → w.seen_tail ≤ at
      → at < length w.tails
      → next_index w.now.ring head ≡ get_or w.tails at 0
      → Step out w
          (record w { now = record (w.now) { producer = Producer.outside }; seen_tail = at })
  find_room :
      (value : A) (head at : ℕ)
      → w.now.producer ≡ loaded_head value head
      → w.seen_tail ≤ at
      → at < length w.tails
      → next_index w.now.ring head ≢ get_or w.tails at 0
      → Step out w (record w {
        now = record (w.now) { producer = has_room value head (next_index w.now.ring head) };
        seen_tail = at;
      })
  store_value :
      (value : A) (head next : ℕ)
      → w.now.producer ≡ has_room value head next
      → Step out w (record w {
        now = record (w.now) {
          ring = record (w.now.ring) { m_buffer = set w.now.ring.m_buffer head value };
          producer = stored_value value next;
        };
      })
  store_head :
      (value : A) (next : ℕ)
      → w.now.producer ≡ stored_value value next
      → Step out w (record w {
        now = record (w.now) {
          ring = record (w.now.ring) { m_head = next };
          producer = Producer.outside;
          pushed = w.now.pushed ++ (value ∷ []);
        };
        heads = w.heads ++ (next ∷ []);
      })
  load_tail :
      w.now.ring.m_initialized ≡ true
      → w.now.consumer ≡ Consumer.outside
      → Step out w (record w { now = record (w.now) { consumer = loaded_tail w.now.ring.m_tail } })
  find_empty :
      (tail at : ℕ)
      → w.now.consumer ≡ loaded_tail tail
      → w.seen_head ≤ at
      → at < length w.heads
      → tail ≡ get_or w.heads at 0
      → Step out w
          (record w { now = record (w.now) { consumer = Consumer.outside }; seen_head = at })
  find_item :
      (tail at : ℕ)
      → w.now.consumer ≡ loaded_tail tail
      → w.seen_head ≤ at
      → at < length w.heads
      → tail ≢ get_or w.heads at 0
      → Step out w (record w { now = record (w.now) { consumer = has_item tail }; seen_head = at })
  load_value :
      (tail : ℕ)
      → w.now.consumer ≡ has_item tail
      → Step out w (record w {
        now = record (w.now) { consumer = read_value tail (get_or w.now.ring.m_buffer tail out) };
      })
  store_tail :
      (tail : ℕ) (value : A)
      → w.now.consumer ≡ read_value tail value
      → Step out w (record w {
        now = record (w.now) {
          ring = record (w.now.ring) { m_tail = next_index w.now.ring tail };
          consumer = Consumer.outside;
          popped = w.now.popped ++ (value ∷ []);
        };
        tails = w.tails ++ (next_index w.now.ring tail ∷ []);
      })

-- Behind `init`, each index has been stored once.
abbrev pub weak_start {ℓ} : {A : Type ℓ} → SpScRingBuffer A → Weak A
weak_start r = record {
  now = start r;
  heads = r.m_head ∷ [];
  tails = r.m_tail ∷ [];
  seen_head = 0;
  seen_tail = 0;
}

pub data Reach {ℓ} {A : Type ℓ} (out : A) (w : Weak A) : Weak A → Type ℓ where
  here : Reach out w w
  later : {t u : Weak A} → Reach out w t → Step out t u → Reach out w u
