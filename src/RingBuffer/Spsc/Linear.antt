-- ===== src/RingBuffer/Spsc/Linear.antt =====
-- `push` and `pop` of src/include/threading/spScRingBuffer.hpp at once, against calls one after the
-- other on a bounded queue. A call takes effect at one of its own accesses: the store of its index,
-- or the load that finds the buffer full or empty.
use boilerplate_thread_messa.Prelude.{
  ℕ, ◌+◌, ◌-◌, ◌%◌, ◌^◌, ◌<◌, ◌≡◌, ◌≢◌, refl, sym, subst, ap, ◌∙◌, true, false, List, [], ◌∷◌, ◌++◌,
  length, arith, ◌==◌,
}
use boilerplate_thread_messa.Prelude.Words.{size_mod}
use boilerplate_thread_messa.RingBuffer.{SpScRingBuffer, init, next_index}
use boilerplate_thread_messa.RingBuffer.Invariant.{next_index_lem}
use boilerplate_thread_messa.RingBuffer.Span.{span, contents, used_facts, length-contents}
use boilerplate_thread_messa.RingBuffer.Fifo.{put, get}
use boilerplate_thread_messa.RingBuffer.Run.{
  Call, pushes, pops, asks_empty, asks_full, Reply, said, took, run_queue, run as run_calls,
  run_refines,
}
use boilerplate_thread_messa.RingBuffer.Spsc.{
  loaded_head, stored_value, loaded_tail, System, Step, load_head, find_full, find_room,
  store_value, store_head, load_tail, find_empty, find_item, load_value, store_tail, start, Reach,
  here, later,
}
use boilerplate_thread_messa.RingBuffer.Spsc.Order.{
  ProducerAgrees, ConsumerAgrees, Inv, start-Inv, Reach-Inv, store_value-contents,
  store_head-contents, store_tail-contents,
}

module _ {A : Type 0} (out : A) where
  -- The call that takes effect at the access, if one does.
  abbrev pub call_of : {s t : System A} → Step out s t → List (Call A)
  call_of (find_full v h e f) = pushes v ∷ []
  call_of (store_head v n e) = pushes v ∷ []
  call_of (find_empty t e f) = pops ∷ []
  call_of (store_tail t v e) = pops ∷ []
  call_of _ = []

  -- What that call returns.
  abbrev pub reply_of : {s t : System A} → Step out s t → List (Reply A)
  reply_of (find_full v h e f) = said false ∷ []
  reply_of (store_head v n e) = said true ∷ []
  reply_of (find_empty t e f) = took false out ∷ []
  reply_of (store_tail t v e) = took true v ∷ []
  reply_of _ = []

  -- The calls of a run in the order in which they take effect, and what they return.
  abbrev pub calls_of : {s t : System A} → Reach out s t → List (Call A)
  calls_of here = []
  calls_of (later r st) = calls_of r ++ call_of st

  abbrev pub replies_of : {s t : System A} → Reach out s t → List (Reply A)
  replies_of here = []
  replies_of (later r st) = replies_of r ++ reply_of st

  -- The queue that calls leave.
  abbrev pub queue_after : ℕ → List A → List (Call A) → List A
  queue_after bound q [] = q
  queue_after bound q (pushes x ∷ cs) = queue_after bound (put bound x q).1 cs
  queue_after bound q (pops ∷ cs) = queue_after bound (get out q).2 cs
  queue_after bound q (asks_empty ∷ cs) = queue_after bound q cs
  queue_after bound q (asks_full ∷ cs) = queue_after bound q cs

  run_queue-append :
      (bound : ℕ) (q : List A) (cs ds : List (Call A))
      → run_queue out bound q (cs ++ ds)
        ≡ run_queue out bound q cs ++ run_queue out bound (queue_after bound q cs) ds
  unfolding run_queue
  run_queue-append bound q [] ds = refl
  run_queue-append bound q (pushes x ∷ cs) ds =
      ap (λ rs. said (put bound x q).0 ∷ rs) (run_queue-append bound (put bound x q).1 cs ds)
  run_queue-append bound q (pops ∷ cs) ds =
      ap (λ rs. took (get out q).0 (get out q).1 ∷ rs) (run_queue-append bound (get out q).2 cs ds)
  run_queue-append bound q (asks_empty ∷ cs) ds =
      ap (λ rs. said (length q == 0) ∷ rs) (run_queue-append bound q cs ds)
  run_queue-append bound q (asks_full ∷ cs) ds =
      ap (λ rs. said (length q == bound) ∷ rs) (run_queue-append bound q cs ds)

  queue_after-append :
      (bound : ℕ) (q : List A) (cs ds : List (Call A))
      → queue_after bound q (cs ++ ds) ≡ queue_after bound (queue_after bound q cs) ds
  queue_after-append bound q [] ds = refl
  queue_after-append bound q (pushes x ∷ cs) ds = queue_after-append bound (put bound x q).1 cs ds
  queue_after-append bound q (pops ∷ cs) ds = queue_after-append bound (get out q).2 cs ds
  queue_after-append bound q (asks_empty ∷ cs) ds = queue_after-append bound q cs ds
  queue_after-append bound q (asks_full ∷ cs) ds = queue_after-append bound q cs ds

module _ {A : Type 0} (bound : ℕ) (x : A) (q : List A) where
  put_full : length q ≡ bound → put bound x q ≡ (false, q)
  unfolding put
  put_full e = ground arith

  put_room : length q ≢ bound → put bound x q ≡ (true, q ++ (x ∷ []))
  unfolding put
  put_room ne = ground arith

module _ {A : Type 0} {out : A} {k : ℕ} {s : System A} (inv : Inv out k s) where
  open inv use {ready, producing, consuming}

  pub full_contents :
      (v : A) (h : ℕ)
      → s.producer ≡ loaded_head v h
      → next_index s.ring h ≡ s.ring.m_tail
      → length (contents out s.ring) ≡ 2 ^ k - 1
  full_contents v h p full =
      let at_head = subst (ProducerAgrees out s.ring) p producing in
      let next : next_index s.ring h ≡ (s.ring.m_head + 1) % s.ring.m_capacity =
        ap (next_index s.ring) at_head ∙ next_index_lem s.ring.m_head ready ready.head_in in
      omega
        (arith, length-contents ready out, (used_facts ready).3.1 (sym next ∙ full), ready.power)

  pub empty_contents :
      (t : ℕ) → s.consumer ≡ loaded_tail t → t ≡ s.ring.m_head → contents out s.ring ≡ []
  empty_contents t c none_there =
      let at_tail = subst (ConsumerAgrees out s.ring) c consuming in
      ap (span out s.ring.m_buffer s.ring.m_capacity s.ring.m_tail)
        ((used_facts ready).2.1 (sym at_tail ∙ none_there))

  room_contents :
      (v : A) (n : ℕ) → s.producer ≡ stored_value v n → length (contents out s.ring) ≢ 2 ^ k - 1
  room_contents v n p full =
      let (next, free, _) = subst (ProducerAgrees out s.ring) p producing in
      free (
        next
        ∙ (used_facts ready).3.0
            (sym (length-contents ready out) ∙ full ∙ ap (λ c. c - 1) (sym ready.power)))

  -- The call that takes effect at an access returns what it returns on the queue of the elements,
  -- and leaves that queue as the access leaves the elements.
  Step-call :
      {t : System A} (st : Step out s t)
      → (run_queue out (2 ^ k - 1) (contents out s.ring) (call_of out st) ≡ reply_of out st)
        × (queue_after out (2 ^ k - 1) (contents out s.ring) (call_of out st) ≡ contents out t.ring)
  unfolding run_queue get
  Step-call (find_full v h e f) =
      let same = put_full (2 ^ k - 1) v (contents out s.ring) (full_contents v h e f) in
      (ap (λ p. said p.0 ∷ []) same, ap (λ p. p.1) same)
  Step-call (store_head v n e) =
      let same = put_room (2 ^ k - 1) v (contents out s.ring) (room_contents v n e) in
      (ap (λ p. said p.0 ∷ []) same, ap (λ p. p.1) same ∙ sym (store_head-contents inv v n e))
  Step-call (find_empty t e f) = let same = empty_contents t e f in rw same (refl, refl)
  Step-call (store_tail t v e) = rw (store_tail-contents inv t v e) (refl, refl)
  Step-call (store_value v h n e) = (refl, sym (store_value-contents inv v h n e))
  Step-call (load_head v i e) = (refl, refl)
  Step-call (find_room v h e f) = (refl, refl)
  Step-call (load_tail i e) = (refl, refl)
  Step-call (find_item t e f) = (refl, refl)
  Step-call (load_value t e) = (refl, refl)

module _ {A : Type 0} (value out : A) (k : ℕ) (r : SpScRingBuffer A)
    (small : 2 ^ k < size_mod) where
  began : Inv out k (start (init value (2 ^ k) r).1)
  began = start-Inv value out k r small

  Reach-calls :
      {s : System A} (run : Reach out (start (init value (2 ^ k) r).1) s)
      → (run_queue out (2 ^ k - 1) [] (calls_of out run) ≡ replies_of out run)
        × (queue_after out (2 ^ k - 1) [] (calls_of out run) ≡ contents out s.ring)
  unfolding run_queue
  Reach-calls here = (refl, sym began.in_order)
  Reach-calls (later run st) =
      let (same, left) = Reach-calls run in
      let (reply, after) = Step-call (Reach-Inv began run) st in
      (
        run_queue-append out (2 ^ k - 1) [] (calls_of out run) (call_of out st)
            ∙ rw (same, left, reply) refl,
        queue_after-append out (2 ^ k - 1) [] (calls_of out run) (call_of out st) ∙ rw left after,
      )

  -- The two threads at once do what single calls do, one after the other. In every interleaving of
  -- their accesses the calls return what the same calls return when each runs as a whole, in the
  -- order in which they take effect, on a fresh buffer of `2 ^ k` slots, below `2 ^ 64`; and the
  -- buffer holds what a bounded queue of `2 ^ k - 1` elements holds behind them.
  pub linearizable :
      {s : System A} (run : Reach out (start (init value (2 ^ k) r).1) s)
      → (run_calls out (init value (2 ^ k) r).1 (calls_of out run) ≡ replies_of out run)
        × (queue_after out (2 ^ k - 1) [] (calls_of out run) ≡ contents out s.ring)
  linearizable run =
      let (same, left) = Reach-calls run in
      (run_refines value out k r (calls_of out run) small ∙ same, left)
