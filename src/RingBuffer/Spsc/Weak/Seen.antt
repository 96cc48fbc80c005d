-- ===== src/RingBuffer/Spsc/Weak/Seen.antt =====
-- What the index that a thread has seen last tells it about the ring buffer of
-- src/include/threading/spScRingBuffer.hpp.
use boilerplate_thread_messa.Prelude.{
  ℕ, ◌+◌, ◌%◌, ◌^◌, ◌≤◌, ◌<◌, ◌≡◌, ◌≢◌, sym, subst, ap, ◌∙◌, length, length-append, get_or, arith,
}
use native.Mathlib.Decide.{dec_lt}
use boilerplate_thread_messa.RingBuffer.{next_index}
use boilerplate_thread_messa.RingBuffer.Invariant.{next_index_lem}
use boilerplate_thread_messa.RingBuffer.Span.{contents, used_facts, length-contents}
use boilerplate_thread_messa.RingBuffer.Spsc.{
  Producer, loaded_head, has_room, stored_value, Consumer, loaded_tail, has_item, read_value,
}
use boilerplate_thread_messa.RingBuffer.Spsc.Order
use boilerplate_thread_messa.RingBuffer.Spsc.Order.{ProducerAgrees, ConsumerAgrees, start-Inv}
use boilerplate_thread_messa.RingBuffer.Spsc.Weak.{Weak}
use boilerplate_thread_messa.RingBuffer.Spsc.Weak.History.{
  IsHistory, next_stored, room_behind, next-apart, item_behind, tail-apart,
}

-- The slots that a call has found free or filled, and not yet published.
abbrev pub ahead : {A : Type 0} → Producer A → ℕ
ahead (has_room _ _ _) = 1
ahead (stored_value _ _) = 1
ahead _ = 0

abbrev pub taking : {A : Type 0} → Consumer A → ℕ
taking (has_item _) = 1
taking (read_value _ _) = 1
taking _ = 0

pub record Inv {A : Type 0} (out : A) (k : ℕ) (w : Weak A) : Type 0 where
  pub strong : Order.Inv out k w.now
  pub head_history : IsHistory (2 ^ k) (length w.now.pushed) w.now.ring.m_head w.heads
  pub tail_history : IsHistory (2 ^ k) (length w.now.popped) w.now.ring.m_tail w.tails
  pub seen_tail_in : w.seen_tail ≤ length w.now.popped
  pub seen_head_in : w.seen_head ≤ length w.now.pushed
  pub near : length w.now.pushed + ahead w.now.producer < w.seen_tail + 2 ^ k
  pub behind : length w.now.popped + taking w.now.consumer ≤ w.seen_head

module _ {A : Type 0} {out : A} {k : ℕ} {w : Weak A} (inv : Inv out k w) where
  open inv use {strong, head_history, tail_history, seen_tail_in, seen_head_in, near, behind}

  counted :
      (length w.now.popped ≤ length w.now.pushed)
      × (length w.now.pushed < length w.now.popped + 2 ^ k)
  counted =
      let total = ap length strong.in_order in
      let sum = length-append w.now.popped (contents out w.now.ring) in
      let held = length-contents strong.ready out in
      let few = (used_facts strong.ready).0 in
      (omega (arith, total, sum), omega (arith, total, sum, held, few, strong.ready.power))

  next_head_at :
      (head : ℕ)
      → head ≡ w.now.ring.m_head
      → next_index w.now.ring head ≡ (length w.now.pushed + 1) % 2 ^ k
  next_head_at head e =
      next_index_lem head strong.ready (rw e strong.ready.head_in)
      ∙ rw (strong.ready.power, e) (next_stored (2 ^ k) (length w.now.pushed) head_history)

  pub next_tail_at :
      (tail : ℕ)
      → tail ≡ w.now.ring.m_tail
      → next_index w.now.ring tail ≡ (length w.now.popped + 1) % 2 ^ k
  next_tail_at tail e =
      next_index_lem tail strong.ready (rw e strong.ready.tail_in)
      ∙ rw (strong.ready.power, e) (next_stored (2 ^ k) (length w.now.popped) tail_history)

  -- A producer that finds room in an old tail is less than a round ahead of it.
  pub room_found :
      (value : A) (head at : ℕ)
      → w.now.producer ≡ loaded_head value head
      → w.seen_tail ≤ at
      → at < length w.tails
      → next_index w.now.ring head ≢ get_or w.tails at 0
      → (length w.now.pushed + 1 < at + 2 ^ k) × (next_index w.now.ring head ≢ w.now.ring.m_tail)
  room_found value head at e seen within differ =
      let at_head = subst (ProducerAgrees out w.now.ring) e strong.producing in
      let next = next_head_at head at_head in
      let far =
        room_behind (2 ^ k) (length w.now.pushed) at (omega (arith, near, ap ahead e))
          (λ same. differ (next ∙ same ∙ sym (tail_history.entry at within))) in
      (
        far,
        λ same.
            next-apart (2 ^ k) (length w.now.pushed) (length w.now.popped) counted.0
              (omega (arith, far, tail_history.many)) (sym next ∙ same ∙ tail_history.last),
      )

  pub item_found :
      (tail at : ℕ)
      → w.now.consumer ≡ loaded_tail tail
      → w.seen_head ≤ at
      → at < length w.heads
      → tail ≢ get_or w.heads at 0
      → (length w.now.popped < at) × (tail ≢ w.now.ring.m_head)
  item_found tail at e seen within differ =
      let at_tail = subst (ConsumerAgrees out w.now.ring) e strong.consuming in
      let here_now = at_tail ∙ tail_history.last in
      let some_there =
        item_behind (2 ^ k) (length w.now.popped) at (omega (arith, behind))
          (λ same. differ (here_now ∙ same ∙ sym (head_history.entry at within))) in
      (
        some_there,
        λ same.
            tail-apart (2 ^ k) (length w.now.pushed) (length w.now.popped)
              (omega (arith, some_there, head_history.many)) counted.1
              (sym here_now ∙ same ∙ head_history.last),
      )

  -- What a refusal tells.
  pub full_seen :
      (value : A) (head at : ℕ)
      → w.now.producer ≡ loaded_head value head
      → w.seen_tail ≤ at
      → at < length w.tails
      → next_index w.now.ring head ≡ get_or w.tails at 0
      → length w.now.pushed + 1 ≡ at + 2 ^ k
  full_seen value head at e seen within full =
      let at_head = subst (ProducerAgrees out w.now.ring) e strong.producing in
      let same = sym (next_head_at head at_head) ∙ full ∙ tail_history.entry at within in
      elim (dec_lt (length w.now.pushed + 1) (at + 2 ^ k)) [
        | yes near_by ↦ absurd (
            next-apart (2 ^ k) (length w.now.pushed) at
              (omega (arith, within, tail_history.many, counted.0)) near_by same)
        | no far ↦ omega (arith, near, ap ahead e, seen, far)
      ]

  pub empty_seen :
      (tail at : ℕ)
      → w.now.consumer ≡ loaded_tail tail
      → w.seen_head ≤ at
      → at < length w.heads
      → tail ≡ get_or w.heads at 0
      → length w.now.popped ≡ at
  empty_seen tail at e seen within none_there =
      let at_tail = subst (ConsumerAgrees out w.now.ring) e strong.consuming in
      let same = sym (at_tail ∙ tail_history.last) ∙ none_there ∙ head_history.entry at within in
      elim (dec_lt (length w.now.popped) at) [
        | yes behind_it ↦ absurd (
            tail-apart (2 ^ k) at (length w.now.popped) behind_it
              (omega (arith, within, head_history.many, counted.1)) same)
        | no there ↦ omega (arith, behind, seen, there)
      ]
