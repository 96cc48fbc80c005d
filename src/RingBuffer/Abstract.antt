-- ===== src/RingBuffer/Abstract.antt =====
-- The ring buffers of src/include/threading/spScRingBuffer.hpp up to what their methods tell: an
-- abstract type of bounded queues.
use std.Equiv.{IsEquiv, iso_to_equiv}
use mathlib.Core.HLevel.{Σ_prop_path}
use mathlib.Core.Quot
use mathlib.Core.Quot.{Quot, Quot-set}
use native.Mathlib.Bridge.{le_prop}
use boilerplate_thread_messa.Prelude.{
  ℕ, ◌+◌, ◌-◌, ◌^◌, ◌<◌, ◌≡◌, sym, append-nil, append_assoc, length-append, ap, ap₂, ◌∙◌, Bool,
  List, [], ◌∷◌, ◌++◌, length, arith,
}
use boilerplate_thread_messa.Prelude.Words.{size_mod}
use boilerplate_thread_messa.RingBuffer.{SpScRingBuffer, uninitialized, init, push, pop}
use boilerplate_thread_messa.RingBuffer.Invariant.{IsReady, init-IsReady, push-IsReady, pop-IsReady}
use boilerplate_thread_messa.RingBuffer.Fifo.{put, get, push-put, pop-get}
use boilerplate_thread_messa.RingBuffer.Span.{
  contents, contents_of_reset, used_facts, length-contents,
}
use boilerplate_thread_messa.RingBuffer.Run.{Call, pushes, pops, run}
use boilerplate_thread_messa.RingBuffer.Replies.{same_replies}

module _ {ℓ} {A : Type ℓ} where
  abbrev push_all : List A → SpScRingBuffer A → SpScRingBuffer A
  push_all [] r = r
  push_all (x ∷ q) r = push_all q (push x r).1

  push_all-IsReady :
      (q : List A) {r : SpScRingBuffer A} {k : ℕ} → IsReady r k → IsReady (push_all q r) k
  push_all-IsReady [] v = v
  push_all-IsReady (x ∷ q) v = push_all-IsReady q (push-IsReady x v)

  -- A push into a buffer with room appends.
  contents-push :
      (out x : A) {r : SpScRingBuffer A} {k : ℕ}
      → IsReady r k
      → length (contents out r) + 1 < 2 ^ k
      → contents out (push x r).1 ≡ contents out r ++ (x ∷ [])
  unfolding put
  contents-push out x {r} v room = ap (λ s. s.1) (push-put v out x) ∙ ground (arith, v.power)

  contents-push_all :
      (out : A) (q : List A) {r : SpScRingBuffer A} {k : ℕ}
      → IsReady r k
      → length (contents out r) + length q < 2 ^ k
      → contents out (push_all q r) ≡ contents out r ++ q
  contents-push_all out [] {r} v room = sym (append-nil (contents out r))
  contents-push_all out (x ∷ q) {r} v room =
      let one = contents-push out x v (omega (arith, room)) in
      let more =
        contents-push_all out q (push-IsReady x v)
          (rw (one, length-append (contents out r) (x ∷ [])) (omega (arith, room))) in
      more ∙ ap (λ l. l ++ q) one ∙ append_assoc (contents out r) (x ∷ []) q

module _ {ℓ} {A : Type ℓ} (A_set : IsSet A) (out : A) (k : ℕ) (fits : 2 ^ k < size_mod) where
  -- The initialised buffers of `2 ^ k` slots.
  abbrev pub Ready : Type ℓ
  Ready = (r : SpScRingBuffer A) × IsReady r k

  -- No sequence of calls tells one from the other.
  abbrev pub SameReplies : Ready → Ready → Type ℓ
  SameReplies (r, _) (s, _) = (cs : List (Call A)) → run out r cs ≡ run out s cs

  abbrev pub Buffer : Type ℓ
  Buffer = Quot SameReplies

  -- The queues of at most `2 ^ k - 1` elements.
  abbrev pub Queue : Type ℓ
  Queue = (q : List A) × (length q < 2 ^ k)

  pub Queue_set : IsSet Queue
  Queue_set = hlevel (A_set, room_prop)
    where
      room_prop : (q : List A) → IsProp (length q < 2 ^ k)
      room_prop q = le_prop

  unfoldable pub queue_of : Ready → Queue
  queue_of (r, v) =
      (contents out r, omega (arith, length-contents v out, (used_facts v).0, v.power))

  pub queue_of_same : (a b : Ready) → SameReplies a b → queue_of a ≡ queue_of b
  unfolding queue_of
  queue_of_same (r, v) (s, w) same = Σ_prop_path (λ q. le_prop) ((same_replies out v w).1 same)

  unfoldable pub to_queue : Buffer → Queue
  to_queue = Quot.lift Queue_set queue_of queue_of_same

  -- A fresh buffer into which the queue is pushed.
  filled : Queue → Ready
  filled (q, room) = (
    push_all q (init out (2 ^ k) uninitialized).1,
    push_all-IsReady q (init-IsReady out k uninitialized fits).1,
  )

  contents-filled : (q : Queue) → contents out (filled q).0 ≡ q.0
  unfolding filled
  contents-filled (q, room) =
      let (_, v, head, tail) = init-IsReady out k uninitialized fits in
      let none =
        contents_of_reset out (init out (2 ^ k) uninitialized).1 (omega (arith, v.head_in)) head
          tail in
      contents-push_all out q v (rw none (omega (arith, room))) ∙ ap (λ l. l ++ q) none

  -- The class of the buffer into which the queue is pushed.
  of_queue : Queue → Buffer
  of_queue q = Quot.mk (filled q)

  to_queue-of_queue : (q : Queue) → to_queue (of_queue q) ≡ q
  unfolding to_queue of_queue queue_of
  to_queue-of_queue q = Σ_prop_path (λ l. le_prop) (contents-filled q)

  of_queue-to_queue : (b : Buffer) → of_queue (to_queue b) ≡ b
  unfolding to_queue of_queue queue_of
  of_queue-to_queue =
      Quot.ind (λ b. Quot-set _ _)
        λ a.
          Quot.sound
            ((same_replies out (filled (queue_of a)).1 a.1).0 (contents-filled (queue_of a)))

  pub push_same :
      (x : A) (a b : Ready)
      → SameReplies a b
      → ((push x a.0).0 ≡ (push x b.0).0)
        × SameReplies ((push x a.0).1, push-IsReady x a.1) ((push x b.0).1, push-IsReady x b.1)
  unfolding run
  push_same x a b same =
      (let e = same (pushes x ∷ []) in cc, λ cs. let e = same (pushes x ∷ cs) in cc)

  pub pop_same :
      (a b : Ready)
      → SameReplies a b
      → ((pop out a.0).0 ≡ (pop out b.0).0)
        × ((pop out a.0).1 ≡ (pop out b.0).1)
        × SameReplies ((pop out a.0).2, pop-IsReady out a.1) ((pop out b.0).2, pop-IsReady out b.1)
  unfolding run
  pop_same a b same = (
    let e = same (pops ∷ []) in cc,
    let e = same (pops ∷ []) in cc,
    λ cs. let e = same (pops ∷ cs) in cc,
  )

  -- `push` and `pop` of a class.
  unfoldable pub push_class : A → Buffer → Bool × Buffer
  push_class x =
      Quot.lift (hlevel (Quot-set))
        (λ (r, v). ((push x r).0, Quot.mk ((push x r).1, push-IsReady x v)))
        λ a b same. let (e, f) = push_same x a b same in ap₂ (λ ok c. (ok, c)) e (Quot.sound f)

  unfoldable pub pop_class : Buffer → Bool × A × Buffer
  pop_class =
      Quot.lift (hlevel (A_set, Quot-set))
        (λ (r, v). ((pop out r).0, (pop out r).1, Quot.mk ((pop out r).2, pop-IsReady out v)))
        λ a b same.
          let (e, f, g) = pop_same a b same in
          let h : ◌≡◌ {A = Buffer} _ _ = Quot.sound g in λ i. (e i, f i, h i)

  to_queue-push_pop :
      (x : A) (b : Buffer)
      → let (pushed, b1) = push_class x b in
        let (popped, y, b2) = pop_class b in
        ((pushed, (to_queue b1).0) ≡ put (2 ^ k - 1) x (to_queue b).0)
        × ((popped, y, (to_queue b2).0) ≡ get out (to_queue b).0)
  unfolding push_class pop_class to_queue queue_of
  to_queue-push_pop x =
      Quot.ind (λ b. hlevel (A_set))
        λ (r, v). (rw (← v.power) (push-put v out x), pop-get v out out)

  to_queue-equivalence : IsEquiv to_queue
  unfolding to_queue
  to_queue-equivalence =
      (iso_to_equiv (record {
        fun = to_queue;
        inv = of_queue;
        rinv = to_queue-of_queue;
        linv = of_queue-to_queue;
      })).1

  -- Up to what its methods tell, a ready ring buffer of `2 ^ k` slots, which a `size_t` counts, is
  -- exactly a queue of at most `2 ^ k - 1` elements, for elements that form a set: `contents` is an
  -- equivalence of the two types, under which `push` is the queue's `put`, refused at `2 ^ k - 1`
  -- elements and nowhere else, and `pop` its `get`, the replies included.
  pub to_queue-IsEquiv :
      (x : A) (b : Buffer)
      → let (pushed, b1) = push_class x b in
        let (popped, y, b2) = pop_class b in
        IsEquiv to_queue
        × ((pushed, (to_queue b1).0) ≡ put (2 ^ k - 1) x (to_queue b).0)
        × ((popped, y, (to_queue b2).0) ≡ get out (to_queue b).0)
  to_queue-IsEquiv x b =
      let (pushed, popped) = to_queue-push_pop x b in (to_queue-equivalence, pushed, popped)
