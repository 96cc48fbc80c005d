-- ===== src/Task/Posting.antt =====
-- What a task of src/include/taskBase.hpp sends to itself.
use Prim.Native.String.{String}
use boilerplate_thread_messa.Prelude.{
  ℕ, ◌≡◌, refl, sym, ap, ◌∙◌, append-nil, append_assoc, Bool, false, Option, some, List, [], ◌∷◌,
  ◌++◌, ◌≢◌, arith,
}
use boilerplate_thread_messa.Messaging.Message.{Payload, SharedPtr}
use boilerplate_thread_messa.Messaging.Endpoint.{World, make_sender, send, set_queue}
use boilerplate_thread_messa.Messaging.Queue.{push_ptr}
use boilerplate_thread_messa.Messaging.Endpoint.Delivery.{received, received-snoc, send_notifies}
use boilerplate_thread_messa.Task.{
  Task, RunFunction, OnMessageFunction, new_task, on_post_message_received, post,
}

-- A message function that keeps to the state beside the queues.
abbrev pub observing {ℓ κ} :
    {M : Type ℓ} {S : Type κ} → (String → SharedPtr M → S → S) → OnMessageFunction M S
observing g i name message w = record w { state = g name message w.state }

-- The state that such a function leaves, called once for each payload in order.
abbrev pub told {ℓ κ μ} :
    {M : Type ℓ} {S : Type κ} {T : Type μ} ⦃p : Payload M T⦄
    → (String → SharedPtr M → S → S)
    → List T
    → S
    → S
told g [] s = s
told ⦃p⦄ g (x ∷ xs) s = told g xs (g p.type_name (some (p.wrap x)) s)

module _ {ℓ κ μ} {Token : Type 0} {M : Type ℓ} {S : Type κ} {T : Type μ} ⦃p : Payload M T⦄ where
  unfoldable pub post_all : (ℕ → Task Token M S) → ℕ → List T → World M S → World M S
  post_all tasks i [] w = w
  post_all tasks i (x ∷ xs) w = post_all tasks i xs (post tasks i x w)

  module _ (tasks : ℕ → Task Token M S) (i : ℕ) (alone obeys : Bool)
      (f : Option (RunFunction Token M S)) (g : String → SharedPtr M → S → S)
      (made : tasks i ≡ new_task alone obeys i f (some (observing g))) where
    -- The pushed message, and then the message function.
    posted : T → World M S → World M S
    posted x w = record (set_queue i (w.queues i ++ (some (p.wrap x) ∷ [])) w) {
      state = g p.type_name (some (p.wrap x)) w.state;
    }

    post_lem : (x : T) (w : World M S) → post tasks i x w ≡ posted x w
    unfolding post new_task make_sender send on_post_message_received push_ptr posted
    post_lem x w =
        let hook : ℕ → String → SharedPtr M → World M S → World M S =
          λ j type_info wrapped v. on_post_message_received (tasks j) j type_info wrapped v in
        let wrapped = some (p.wrap x) in
        ap (λ t. send hook t.sender x w) made
        ∙ send_notifies hook i x w
        ∙ ap
            (λ t.
              on_post_message_received t i p.type_name wrapped
                (send hook (make_sender i false) x w))
            made

    -- What a task posts to itself reaches its queue behind what it already had of that type,
    -- exactly the payloads, in order; its message function has run once for each, in order, on the
    -- pointer that was pushed; and no other queue has changed: for a task of `Task`'s constructor
    -- whose message function only keeps a state.
    received-post_all :
        (xs : List T) (w : World M S)
        → let w' = post_all tasks i xs w in
          (received {T = T} (w'.queues i) ≡ received (w.queues i) ++ xs)
          × (w'.state ≡ told g xs w.state)
          × ((j : ℕ) → i ≢ j → w'.queues j ≡ w.queues j)
    unfolding post_all posted
    received-post_all [] w = (sym (append-nil (received (w.queues i))), refl, λ j h. refl)
    received-post_all (x ∷ xs) w =
        let (a, b, c) = received-post_all xs (posted x w) in
        let next = post_lem x w in
        let at_own : (posted x w).queues i ≡ w.queues i ++ (some (p.wrap x) ∷ []) = ground arith in
        (
          ap (λ v. received {T = T} ((post_all tasks i xs v).queues i)) next
              ∙ a
              ∙ ap (λ q. received {T = T} q ++ xs) at_own
              ∙ ap (λ q. q ++ xs) (received-snoc (w.queues i) x)
              ∙ append_assoc (received (w.queues i)) (x ∷ []) xs,
          ap (λ v. (post_all tasks i xs v).state) next ∙ b,
          λ j h. ap (λ v. (post_all tasks i xs v).queues j) next ∙ c j h ∙ ground (arith, h),
        )
