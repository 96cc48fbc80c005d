-- ===== src/Chain/Names.antt =====
-- The names of the files behind the messages that one task of the chain still has to work on.
use boilerplate_thread_messa.Prelude.{
  ◌≡◌, refl, ap, ◌∙◌, none, some, List, [], ◌∷◌, ◌++◌, map, arith,
}
use mathlib.Core.List.{map-append}
use boilerplate_thread_messa.Prelude.Text.{Text}
use boilerplate_thread_messa.Events.{FileEvent}
use boilerplate_thread_messa.Events.Payloads.{Message}
use boilerplate_thread_messa.Messaging.Message.{Payload, SharedPtr, dynamic_pointer_cast}
use boilerplate_thread_messa.Messaging.Queue.{MessageQueue, pop}
use boilerplate_thread_messa.Messaging.Endpoint.Delivery.{received, received-snoc}

-- The names of the files behind the messages of type `T` in a task's hand and queue.
unfoldable pub names :
    {T : Type 0} ⦃p : Payload Message T⦄
    → (T → FileEvent)
    → SharedPtr Message
    → MessageQueue Message
    → List Text
names file hand q = map (λ x. (file x).file_name) (received (hand ∷ q))

module _ {T : Type 0} ⦃p : Payload Message T⦄ (file : T → FileEvent) where
  pub names-take : (q : MessageQueue Message) → names file (pop q).0 (pop q).1 ≡ names file none q
  unfolding names pop received
  names-take [] = refl
  names-take (m ∷ q) = refl

  pub names-snoc :
      (h : SharedPtr Message) (q : MessageQueue Message) (x : T)
      → names file h (q ++ (some (p.wrap x) ∷ [])) ≡ names file h q ++ ((file x).file_name ∷ [])
  unfolding names
  names-snoc h q x =
      ap (map (λ y. (file y).file_name)) (received-snoc (h ∷ q) x)
      ∙ map-append (λ y. (file y).file_name) (received (h ∷ q)) (x ∷ [])

  received-skip :
      (q : MessageQueue Message) (m : Message)
      → p.unwrap m ≡ none
      → received {T = T} (q ++ (some m ∷ [])) ≡ received q
  unfolding received
  received-skip [] m e = rw (e, received)
  received-skip (h ∷ q) m e = ground (arith, received-skip q m e)

  pub names-skip :
      (h : SharedPtr Message) (q : MessageQueue Message) (m : Message)
      → p.unwrap m ≡ none
      → names file h (q ++ (some m ∷ [])) ≡ names file h q
  unfolding names
  names-skip h q m e = ap (map (λ y. (file y).file_name)) (received-skip (h ∷ q) m e)

  pub names-drop :
      (h : SharedPtr Message) (q : MessageQueue Message)
      → dynamic_pointer_cast {T = T} h ≡ none
      → names file h q ≡ names file none q
  unfolding names received
  names-drop none q e = refl
  names-drop (some m) q e = rw (e, received)

  pub names-work :
      (h : SharedPtr Message) (q : MessageQueue Message) (x : T)
      → dynamic_pointer_cast {T = T} h ≡ some x
      → names file h q ≡ (file x).file_name ∷ names file none q
  unfolding names received
  names-work none q x e = cc
  names-work (some m) q x e = rw (e, received)
