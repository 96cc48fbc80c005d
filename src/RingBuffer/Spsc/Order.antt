-- ===== src/RingBuffer/Spsc/Order.antt =====
-- The invariant of `push` and `pop` of src/include/threading/spScRingBuffer.hpp at once: what the
-- locals of the two threads say about the buffer.
use boilerplate_thread_messa.Prelude.{
  ℕ, suc, ◌+◌, ◌-◌, ◌%◌, ◌^◌, ◌<◌, ◌≡◌, refl, sym, subst, ap, ap₂, ◌∙◌, ◌≢◌, [], ◌∷◌, ◌++◌, get_or,
  set, append_assoc, length-set, get_or-set_self, get_or-set_ne, arith,
}
use native.Mathlib.Nat.{mod-mod, mod-eq_of_lt}
use boilerplate_thread_messa.Prelude.Words.{size_mod}
use boilerplate_thread_messa.RingBuffer.{SpScRingBuffer, init, next_index}
use boilerplate_thread_messa.RingBuffer.Invariant.{
  IsReady, init-IsReady, next_index_lem, next_index-lt,
}
use boilerplate_thread_messa.RingBuffer.Span.{
  span, span-snoc, span-set_behind, span_congr, span-pos, used, contents, used_facts, used-push,
  used-pop, next_tail, wrap_cases, contents_of_reset,
}
use boilerplate_thread_messa.RingBuffer.Spsc.{
  Producer, loaded_head, has_room, stored_value, Consumer, loaded_tail, has_item, read_value,
  System, Step, load_head, find_full, find_room, store_value, store_head, load_tail, find_empty,
  find_item, load_value, store_tail, start, Reach, here, later,
}

-- What the locals of the producer say about the buffer.
abbrev pub ProducerAgrees : {A : Type 0} → A → SpScRingBuffer A → Producer A → Type 0
ProducerAgrees out r Producer.outside = Unit
ProducerAgrees out r (loaded_head v h) = h ≡ r.m_head
ProducerAgrees out r (has_room v h n) =
    (h ≡ r.m_head) × (n ≡ (r.m_head + 1) % r.m_capacity) × (n ≢ r.m_tail)
ProducerAgrees out r (stored_value v n) =
    (n ≡ (r.m_head + 1) % r.m_capacity) × (n ≢ r.m_tail) × (get_or r.m_buffer r.m_head out ≡ v)

-- What the locals of the consumer say about it.
abbrev pub ConsumerAgrees : {A : Type 0} → A → SpScRingBuffer A → Consumer A → Type 0
ConsumerAgrees out r Consumer.outside = Unit
ConsumerAgrees out r (loaded_tail t) = t ≡ r.m_tail
ConsumerAgrees out r (has_item t) = (t ≡ r.m_tail) × (t ≢ r.m_head)
ConsumerAgrees out r (read_value t v) =
    (t ≡ r.m_tail) × (t ≢ r.m_head) × (get_or r.m_buffer t out ≡ v)

pub record Inv {A : Type 0} (out : A) (k : ℕ) (s : System A) : Type 0 where
  pub ready : IsReady s.ring k
  pub in_order : s.popped ++ contents out s.ring ≡ s.pushed
  pub producing : ProducerAgrees out s.ring s.producer
  pub consuming : ConsumerAgrees out s.ring s.consumer

next_injective : (c a b : ℕ) → a < c → b < c → (a + 1) % c ≡ (b + 1) % c → a ≡ b
next_injective c a b p q e = grind (arith, wrap_cases c (a + 1), wrap_cases c (b + 1))

module _ {A : Type 0} {out : A} {k : ℕ} {s : System A} (inv : Inv out k s) where
  open inv use {ready, in_order, producing, consuming}

  Step-ready : {t : System A} → Step out s t → IsReady t.ring k
  Step-ready (store_value v h n e) = ground (arith, ready, length-set s.ring.m_buffer h v)
  Step-ready (store_head v n e) = ground (arith, ready, producing, mod-lt-cap)
    where
      mod-lt-cap : (s.ring.m_head + 1) % s.ring.m_capacity < s.ring.m_capacity
      mod-lt-cap = omega (arith, ready.head_in)
  Step-ready (store_tail t v e) =
      ground (arith, ready, consuming, next_index-lt s.ring.m_tail ready ready.tail_in)
  Step-ready (load_head v i e) = ready
  Step-ready (find_full v h e f) = ready
  Step-ready (find_room v h e f) = ready
  Step-ready (load_tail i e) = ready
  Step-ready (find_empty t e f) = ready
  Step-ready (find_item t e f) = ready
  Step-ready (load_value t e) = ready

  Step-producing : {t : System A} → Step out s t → ProducerAgrees out t.ring t.producer
  Step-producing (store_value v h n e) = ground (
    arith,
    producing,
    ready.storage,
    ready.head_in,
    get_or-set_self s.ring.m_buffer s.ring.m_head v out,
  )
  Step-producing (store_head v n e) = tt
  Step-producing (store_tail t v e) = ground (
    arith,
    producing,
    consuming,
    next_index_lem s.ring.m_tail ready ready.tail_in,
    next_injective s.ring.m_capacity s.ring.m_head s.ring.m_tail ready.head_in ready.tail_in,
  )
  Step-producing (load_head v i e) = refl
  Step-producing (find_full v h e f) = tt
  Step-producing (find_room v h e f) =
      ground (arith, producing, f, next_index_lem s.ring.m_head ready ready.head_in)
  Step-producing (load_tail i e) = producing
  Step-producing (find_empty t e f) = producing
  Step-producing (find_item t e f) = producing
  Step-producing (load_value t e) = producing

  Step-consuming : {t : System A} → Step out s t → ConsumerAgrees out t.ring t.consumer
  Step-consuming (store_value v h n e) =
      ground (
        arith,
        producing,
        consuming,
        get_or-set_ne s.ring.m_buffer s.ring.m_head s.ring.m_tail v out,
      )
  Step-consuming (store_head v n e) = ground (arith, producing, consuming)
  Step-consuming (store_tail t v e) = tt
  Step-consuming (load_head v i e) = consuming
  Step-consuming (find_full v h e f) = consuming
  Step-consuming (find_room v h e f) = consuming
  Step-consuming (load_tail i e) = refl
  Step-consuming (find_empty t e f) = tt
  Step-consuming (find_item t e f) = ground (arith, consuming, f)
  Step-consuming (load_value t e) = ground (arith, consuming)

  -- The stored value comes into `contents` with the new head, and leaves it with the new tail.
  pub store_value-contents :
      (v : A) (h n : ℕ)
      → s.producer ≡ has_room v h n
      → contents out (record (s.ring) { m_buffer = set s.ring.m_buffer h v }) ≡ contents out s.ring
  store_value-contents v h n e =
      let at_head : h ≡ s.ring.m_head = ground (arith, producing) in
      span-set_behind out s.ring.m_buffer s.ring.m_capacity v h s.ring.m_tail (used s.ring)
        (used_facts ready).0 ((used_facts ready).1 ∙ sym at_head)

  pub store_head-contents :
      (v : A) (n : ℕ)
      → s.producer ≡ stored_value v n
      → contents out (record (s.ring) { m_head = n }) ≡ contents out s.ring ++ (v ∷ [])
  store_head-contents v n e =
      let agrees : ProducerAgrees out s.ring (stored_value v n) =
        subst (ProducerAgrees out s.ring) e producing in
      let one_more : used (record (s.ring) { m_head = n }) ≡ suc (used s.ring) =
        rw (agrees.0) (omega (arith, used-push ready (λ same. agrees.1 (agrees.0 ∙ same)))) in
      ap (span out s.ring.m_buffer s.ring.m_capacity s.ring.m_tail) one_more
      ∙ span-snoc out s.ring.m_buffer s.ring.m_capacity s.ring.m_tail (used s.ring)
      ∙ ap (λ x. contents out s.ring ++ (x ∷ []))
          (ap (λ i. get_or s.ring.m_buffer i out) (used_facts ready).1 ∙ agrees.2)

  pub store_tail-contents :
      (t : ℕ) (v : A)
      → s.consumer ≡ read_value t v
      → contents out s.ring ≡ v ∷ contents out (record (s.ring) { m_tail = next_index s.ring t })
  store_tail-contents t v e =
      let (at_tail, busy, value) = subst (ConsumerAgrees out s.ring) e consuming in
      let busy' : s.ring.m_tail ≢ s.ring.m_head = λ same. busy (at_tail ∙ same) in
      let moved : next_index s.ring t ≡ next_tail ready =
        ap (next_index s.ring) at_tail ∙ next_index_lem s.ring.m_tail ready ready.tail_in in
      let one_less : used s.ring - 1 ≡ used (record (s.ring) { m_tail = next_index s.ring t }) =
        rw moved (omega (arith, used-pop ready busy')) in
      let same_start : suc s.ring.m_tail % s.ring.m_capacity
          ≡ next_index s.ring t % s.ring.m_capacity =
        rw moved (
          ap (λ i. i % s.ring.m_capacity) (omega arith)
          ∙ sym (mod-mod (s.ring.m_tail + 1) s.ring.m_capacity)) in
      span-pos ready out s.ring.m_tail (used s.ring) (λ z. busy' ((used_facts ready).2.0 z))
      ∙ ap₂ ◌∷◌
          (ap (λ i. get_or s.ring.m_buffer i out) (mod-eq_of_lt ready.tail_in ∙ sym at_tail)
            ∙ value)
          (ap (span out s.ring.m_buffer s.ring.m_capacity (suc s.ring.m_tail)) one_less
            ∙ span_congr out s.ring.m_buffer s.ring.m_capacity (suc s.ring.m_tail)
                (next_index s.ring t) _ same_start)

  Step-in_order : {t : System A} → Step out s t → t.popped ++ contents out t.ring ≡ t.pushed
  Step-in_order (store_value v h n e) =
      ap (λ q. s.popped ++ q) (store_value-contents v h n e) ∙ in_order
  Step-in_order (store_head v n e) =
      ap (λ q. s.popped ++ q) (store_head-contents v n e)
      ∙ sym (append_assoc s.popped (contents out s.ring) (v ∷ []))
      ∙ ap (λ q. q ++ (v ∷ [])) in_order
  Step-in_order (store_tail t v e) =
      append_assoc s.popped (v ∷ []) _
      ∙ ap (λ q. s.popped ++ q) (sym (store_tail-contents t v e))
      ∙ in_order
  Step-in_order (load_head v i e) = in_order
  Step-in_order (find_full v h e f) = in_order
  Step-in_order (find_room v h e f) = in_order
  Step-in_order (load_tail i e) = in_order
  Step-in_order (find_empty t e f) = in_order
  Step-in_order (find_item t e f) = in_order
  Step-in_order (load_value t e) = in_order

-- Every access of either thread keeps the invariant.
pub Step-Inv :
    {A : Type 0} {out : A} {k : ℕ} {s t : System A} → Step out s t → Inv out k s → Inv out k t
Step-Inv st inv = record {
  ready = Step-ready inv st;
  in_order = Step-in_order inv st;
  producing = Step-producing inv st;
  consuming = Step-consuming inv st;
}

pub start-Inv :
    {A : Type 0} (value out : A) (k : ℕ) (r : SpScRingBuffer A)
    → 2 ^ k < size_mod
    → Inv out k (start (init value (2 ^ k) r).1)
start-Inv value out k r h =
    let (ok, v, head, tail) = init-IsReady value k r h in
    record {
      ready = v;
      in_order =
          contents_of_reset out (init value (2 ^ k) r).1 (omega (arith, v.head_in)) head tail;
      producing = tt;
      consuming = tt;
    }

pub Reach-Inv :
    {A : Type 0} {out : A} {k : ℕ} {s t : System A} → Inv out k s → Reach out s t → Inv out k t
Reach-Inv inv here = inv
Reach-Inv inv (later r st) = Step-Inv st (Reach-Inv inv r)
