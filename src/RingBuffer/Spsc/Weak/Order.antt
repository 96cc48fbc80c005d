-- ===== src/RingBuffer/Spsc/Weak/Order.antt =====
-- The invariant of `push` and `pop` of src/include/threading/spScRingBuffer.hpp with old values of
-- the other thread's index: every step is one on the current indices, or a refusal.
use boilerplate_thread_messa.Prelude.{
  ℕ, ◌+◌, ◌%◌, ◌^◌, ◌<◌, ◌≡◌, refl, sym, subst, ap, ◌∙◌, [], ◌∷◌, ◌++◌, length, length-append,
  get_or, arith,
}
use native.Mathlib.Nat.{mod-eq_of_lt}
use boilerplate_thread_messa.Prelude.Words.{size_mod}
use boilerplate_thread_messa.RingBuffer.{SpScRingBuffer, init, next_index}
use boilerplate_thread_messa.RingBuffer.Invariant.{init-IsReady}
use boilerplate_thread_messa.RingBuffer.Spsc
use boilerplate_thread_messa.RingBuffer.Spsc.{
  Producer, loaded_head, has_room, stored_value, Consumer, loaded_tail, has_item, read_value,
  System,
}
use boilerplate_thread_messa.RingBuffer.Spsc.Order
use boilerplate_thread_messa.RingBuffer.Spsc.Order.{ProducerAgrees, ConsumerAgrees, start-Inv}
use boilerplate_thread_messa.RingBuffer.Spsc.Weak.{
  Weak, Step, load_head, find_full, find_room, store_value, store_head, load_tail, find_empty,
  find_item, load_value, store_tail, weak_start, Reach, here, later,
}
use boilerplate_thread_messa.RingBuffer.Spsc.Weak.History.{IsHistory, IsHistory-snoc, next_stored}
use boilerplate_thread_messa.RingBuffer.Spsc.Weak.Seen.{
  Inv, ahead, taking, room_found, item_found, next_tail_at,
}

module _ {A : Type 0} {out : A} {k : ℕ} {w : Weak A} (inv : Inv out k w) where
  open inv use {strong, head_history, tail_history, seen_tail_in, seen_head_in, near, behind}

  Step-Inv : {u : Weak A} → Step out w u → Inv out k u
  Step-Inv (load_head v i e) = record {
    strong = Order.Step-Inv (Spsc.load_head v i e) strong;
    head_history = head_history;
    tail_history = tail_history;
    seen_tail_in = seen_tail_in;
    seen_head_in = seen_head_in;
    near = omega (arith, near, ap ahead e);
    behind = behind;
  }
  Step-Inv (find_full v h at e seen within full) = record {
    strong = record {
      ready = strong.ready;
      in_order = strong.in_order;
      producing = tt;
      consuming = strong.consuming;
    };
    head_history = head_history;
    tail_history = tail_history;
    seen_tail_in = omega (arith, within, tail_history.many);
    seen_head_in = seen_head_in;
    near = omega (arith, near, ap ahead e, seen);
    behind = behind;
  }
  Step-Inv (find_room v h at e seen within differ) =
      let (far, free) = room_found inv v h at e seen within differ in
      record {
        strong = Order.Step-Inv (Spsc.find_room v h e free) strong;
        head_history = head_history;
        tail_history = tail_history;
        seen_tail_in = omega (arith, within, tail_history.many);
        seen_head_in = seen_head_in;
        near = far;
        behind = behind;
      }
  Step-Inv (store_value v h n e) = record {
    strong = Order.Step-Inv (Spsc.store_value v h n e) strong;
    head_history = head_history;
    tail_history = tail_history;
    seen_tail_in = seen_tail_in;
    seen_head_in = seen_head_in;
    near = omega (arith, near, ap ahead e);
    behind = behind;
  }
  Step-Inv (store_head v n e) =
      let (next, _, _) = subst (ProducerAgrees out w.now.ring) e strong.producing in
      let more : length w.now.pushed + 1 ≡ length (w.now.pushed ++ (v ∷ [])) =
        sym (length-append w.now.pushed (v ∷ [])) in
      record {
        strong = Order.Step-Inv (Spsc.store_head v n e) strong;
        head_history =
            subst (λ m. IsHistory (2 ^ k) m n (w.heads ++ (n ∷ []))) more
              (IsHistory-snoc (2 ^ k) (length w.now.pushed) head_history (
                next
                ∙ rw (strong.ready.power)
                    (next_stored (2 ^ k) (length w.now.pushed) head_history)));
        tail_history = tail_history;
        seen_tail_in = seen_tail_in;
        seen_head_in = omega (arith, seen_head_in, more);
        near = omega (arith, near, ap ahead e, more);
        behind = behind;
      }
  Step-Inv (load_tail i e) = record {
    strong = Order.Step-Inv (Spsc.load_tail i e) strong;
    head_history = head_history;
    tail_history = tail_history;
    seen_tail_in = seen_tail_in;
    seen_head_in = seen_head_in;
    near = near;
    behind = omega (arith, behind, ap taking e);
  }
  Step-Inv (find_empty t at e seen within none_there) = record {
    strong = record {
      ready = strong.ready;
      in_order = strong.in_order;
      producing = strong.producing;
      consuming = tt;
    };
    head_history = head_history;
    tail_history = tail_history;
    seen_tail_in = seen_tail_in;
    seen_head_in = omega (arith, within, head_history.many);
    near = near;
    behind = omega (arith, behind, ap taking e, seen);
  }
  Step-Inv (find_item t at e seen within differ) =
      let (there, busy) = item_found inv t at e seen within differ in
      record {
        strong = Order.Step-Inv (Spsc.find_item t e busy) strong;
        head_history = head_history;
        tail_history = tail_history;
        seen_tail_in = seen_tail_in;
        seen_head_in = omega (arith, within, head_history.many);
        near = near;
        behind = omega (arith, there);
      }
  Step-Inv (load_value t e) = record {
    strong = Order.Step-Inv (Spsc.load_value t e) strong;
    head_history = head_history;
    tail_history = tail_history;
    seen_tail_in = seen_tail_in;
    seen_head_in = seen_head_in;
    near = near;
    behind = omega (arith, behind, ap taking e);
  }
  Step-Inv (store_tail t v e) =
      let (at_tail, _, _) = subst (ConsumerAgrees out w.now.ring) e strong.consuming in
      let more : length w.now.popped + 1 ≡ length (w.now.popped ++ (v ∷ [])) =
        sym (length-append w.now.popped (v ∷ [])) in
      let next = next_index w.now.ring t in
      record {
        strong = Order.Step-Inv (Spsc.store_tail t v e) strong;
        head_history = head_history;
        tail_history =
            subst (λ m. IsHistory (2 ^ k) m next (w.tails ++ (next ∷ []))) more
              (IsHistory-snoc (2 ^ k) (length w.now.popped) tail_history
                (next_tail_at inv t at_tail));
        seen_tail_in = omega (arith, seen_tail_in, more);
        seen_head_in = seen_head_in;
        near = near;
        behind = omega (arith, behind, ap taking e, more);
      }

start-IsHistory : (c index : ℕ) → 0 < c → index ≡ 0 → IsHistory c 0 index (index ∷ [])
start-IsHistory c index h e = record {
  many = refl;
  entry = λ at before.
      let first : at ≡ 0 = omega (arith, before) in
      ap (λ i. get_or (index ∷ []) i 0) first
      ∙ e
      ∙ sym (mod-eq_of_lt h)
      ∙ ap (λ i. i % c) (sym first);
  last = e ∙ sym (mod-eq_of_lt h);
}

pub weak_start-Inv :
    {A : Type 0} (value out : A) (k : ℕ) (r : SpScRingBuffer A)
    → 2 ^ k < size_mod
    → Inv out k (weak_start (init value (2 ^ k) r).1)
weak_start-Inv value out k r h =
    let (ok, v, head, tail) = init-IsReady value k r h in
    let slots : 0 < 2 ^ k = omega (arith, v.head_in, v.power) in
    record {
      strong = start-Inv value out k r h;
      head_history = start-IsHistory (2 ^ k) _ slots head;
      tail_history = start-IsHistory (2 ^ k) _ slots tail;
      seen_tail_in = omega arith;
      seen_head_in = omega arith;
      near = omega (arith, slots);
      behind = omega arith;
    }

pub Reach-Inv :
    {A : Type 0} {out : A} {k : ℕ} {w u : Weak A} → Inv out k w → Reach out w u → Inv out k u
Reach-Inv inv here = inv
Reach-Inv inv (later r st) = Step-Inv (Reach-Inv inv r) st
