-- ===== src/RingBuffer/Spsc/Weak/Safety.antt =====
-- The reachable states of `push` and `pop` of src/include/threading/spScRingBuffer.hpp with old
-- values of the other thread's index.
use boilerplate_thread_messa.Prelude.{
  ℕ, ◌≤◌, get_or, ◌+◌, ◌^◌, ◌<◌, ◌≡◌, ◌≢◌, ap, sym, subst, ◌∙◌, ◌++◌, length, arith,
}
use boilerplate_thread_messa.Prelude.Words.{size_mod}
use boilerplate_thread_messa.RingBuffer.{SpScRingBuffer, init, next_index}
use boilerplate_thread_messa.RingBuffer.Span.{contents, used_facts, length-contents}
use boilerplate_thread_messa.RingBuffer.Spsc.{loaded_head, loaded_tail, has_room, has_item}
use boilerplate_thread_messa.RingBuffer.Spsc.Order.{ProducerAgrees, ConsumerAgrees}
use boilerplate_thread_messa.RingBuffer.Spsc.Weak.{Weak, weak_start, Reach}
use boilerplate_thread_messa.RingBuffer.Spsc.Weak.Order.{weak_start-Inv, Reach-Inv}
use boilerplate_thread_messa.RingBuffer.Spsc.Weak.Seen.{Inv, ahead, taking, full_seen, empty_seen}

module _ {A : Type 0} (value out : A) (k : ℕ) (r : SpScRingBuffer A) (small : 2 ^ k < size_mod)
    {w : Weak A} (reached : Reach out (weak_start (init value (2 ^ k) r).1) w) where
  abbrev inv : Inv out k w
  inv = Reach-Inv (weak_start-Inv value out k r small) reached

  -- Old values of the indices do no harm: in every reachable state the values popped so far,
  -- followed by those in the buffer, are the values pushed so far, in order, and fewer than `2 ^ k`
  -- are in the buffer.
  pub stale_loads_are_safe :
      (w.now.popped ++ contents out w.now.ring ≡ w.now.pushed)
      × (length (contents out w.now.ring) < 2 ^ k)
  stale_loads_are_safe = (
    inv.strong.in_order,
    omega (
      arith,
      length-contents inv.strong.ready out,
      (used_facts inv.strong.ready).0,
      inv.strong.ready.power,
    ),
  )

  -- The accesses of the two threads to a slot are ordered by the indices that they have loaded. A
  -- producer about to write a slot has seen the store of the tail behind the read of the item that
  -- was in the slot a round before, and a consumer about to read a slot has seen the store of the
  -- head behind the write of its item; if both are about to do so, the slots differ.
  pub accesses_are_ordered :
      ((v : A) (h n : ℕ)
        → w.now.producer ≡ has_room v h n
        → length w.now.pushed + 1 < w.seen_tail + 2 ^ k)
      × ((t : ℕ) → w.now.consumer ≡ has_item t → length w.now.popped < w.seen_head)
      × ((v : A) (h n t : ℕ)
          → w.now.producer ≡ has_room v h n
          → w.now.consumer ≡ has_item t
          → h ≢ t)
  accesses_are_ordered = (
    λ v h n p. omega (arith, inv.near, ap ahead p),
    λ t c. omega (arith, inv.behind, ap taking c),
    λ v h n t p c.
        let (at_head, _, _) = subst (ProducerAgrees out w.now.ring) p inv.strong.producing in
        let (at_tail, busy) = subst (ConsumerAgrees out w.now.ring) c inv.strong.consuming in
        λ same. busy (sym same ∙ at_head),
  )

  -- A refusal goes by the index that the call has seen: a `push` is refused only with `2 ^ k - 1`
  -- pushes more than the pops it has seen, and a `pop` only with as many pops as the pushes it
  -- has seen.
  pub refusals_go_by_seen :
      ((v : A) (h at : ℕ)
        → w.now.producer ≡ loaded_head v h
        → w.seen_tail ≤ at
        → at < length w.tails
        → next_index w.now.ring h ≡ get_or w.tails at 0
        → length w.now.pushed + 1 ≡ at + 2 ^ k)
      × ((t at : ℕ)
          → w.now.consumer ≡ loaded_tail t
          → w.seen_head ≤ at
          → at < length w.heads
          → t ≡ get_or w.heads at 0
          → length w.now.popped ≡ at)
  refusals_go_by_seen = (full_seen inv, empty_seen inv)
