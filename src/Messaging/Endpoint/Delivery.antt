-- ===== src/Messaging/Endpoint/Delivery.antt =====
-- What `Send` does to the queues, to the receiver and to the error output.
use Prim.Native.String.{String}
use boilerplate_thread_messa.Prelude.{
  ℕ, ◌≡◌, refl, sym, ap, ◌∙◌, append-nil, append_assoc, true, false, Option, none, some, List, [],
  ◌∷◌, ◌++◌, arith, ◌==◌, if◌then◌else◌,
}
use boilerplate_thread_messa.Messaging.Message.{Payload, SharedPtr, dynamic_pointer_cast}
use boilerplate_thread_messa.Messaging.Queue.{MessageQueue}
use boilerplate_thread_messa.Messaging.Endpoint.{World, make_sender, send}

module _ {ℓ μ} {M : Type ℓ} {T : Type μ} ⦃p : Payload M T⦄ where
  -- The payloads of type `T` that a consumer gets out of a queue by popping it empty and casting
  -- each pointer; pointers to other types, and empty ones, are passed over.
  unfoldable pub received : MessageQueue M → List T
  received [] = []
  received (m ∷ q) = elim (dynamic_pointer_cast {T = T} m) [
    | some x ↦ x ∷ received q
    | none ↦ received q
  ]

  pub received-snoc :
      (q : MessageQueue M) (x : T) → received (q ++ (some (p.wrap x) ∷ [])) ≡ received q ++ (x ∷ [])
  unfolding received
  received-snoc [] x = rw (p.unwrap_wrap x, received)
  received-snoc (m ∷ q) x = ground (arith, received-snoc q x)

module _ {ℓ κ μ} {M : Type ℓ} {S : Type κ} {T : Type μ} ⦃p : Payload M T⦄
    (hook : ℕ → String → SharedPtr M → World M S → World M S) where
  -- A sender from `makeSender(false)` appends the wrapped message to its receiver's queue, and
  -- changes no other queue, prints nothing and calls nothing.
  pub send_silently :
      (r : ℕ) (x : T) (w : World M S)
      → let w' = send hook (make_sender r false) x w in
        (w'.queues r ≡ w.queues r ++ (some (p.wrap x) ∷ []))
        × ((j : ℕ)
            → w'.queues j ≡ (if r == j then w.queues r ++ (some (p.wrap x) ∷ []) else w.queues j))
        × (w'.cerr ≡ w.cerr)
        × (w'.state ≡ w.state)
  unfolding send make_sender
  send_silently r x w = (ground arith, λ j. ground arith, refl, refl)

  -- With `makeSender(true)` the receiver's hook runs once, behind the push, and gets the pointer
  -- that was enqueued and the name of its type.
  pub send_notifies :
      (r : ℕ) (x : T) (w : World M S)
      → send hook (make_sender r true) x w
        ≡ hook r p.type_name (some (p.wrap x)) (send hook (make_sender r false) x w)
  unfolding send make_sender
  send_notifies r x w = refl

  -- Without a queue the message is dropped and its type name is printed; nothing else happens.
  pub send_unbound :
      (n : Option ℕ) (x : T) (w : World M S)
      → send hook (record { message_queue_ptr = none; post_notify = n }) x w
        ≡ record w { cerr = w.cerr ++ (p.type_name ∷ []) }
  unfolding send
  send_unbound n x w = refl

  pub send_all : ℕ → List T → World M S → World M S
  send_all r [] w = w
  send_all r (x ∷ xs) w = send_all r xs (send hook (make_sender r false) x w)

  -- The round trip: after any number of sends the receiver gets, behind what it already had of
  -- that type, exactly the payloads that were sent, in order.
  pub received-send_all :
      (r : ℕ) (xs : List T) (w : World M S)
      → received ((send_all r xs w).queues r) ≡ received (w.queues r) ++ xs
  unfolding send_all
  received-send_all r [] w = sym (append-nil (received (w.queues r)))
  received-send_all r (x ∷ xs) w =
      received-send_all r xs (send hook (make_sender r false) x w)
      ∙ ap (λ q. received q ++ xs) ((send_silently r x w).0)
      ∙ ap (λ q. q ++ xs) (received-snoc (w.queues r) x)
      ∙ append_assoc (received (w.queues r)) (x ∷ []) xs
