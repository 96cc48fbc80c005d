-- ===== src/Chain/Works.antt =====
-- What the work of each task of the chain does to the names that are still to come out.
use boilerplate_thread_messa.Prelude.{
  ℕ, ◌+◌, ◌≡◌, refl, sym, ap, ◌∙◌, false, none, some, List, [], ◌∷◌, ◌++◌, map, append_assoc, inl,
  inr, Option-cases,
}
use mathlib.Core.List.{map-append}
use boilerplate_thread_messa.Prelude.Text.{Text}
use boilerplate_thread_messa.Events.{FileEvent, AppEvent, ProcessedData, TransformedData}
use boilerplate_thread_messa.Events.Payloads.{
  Message, file_event, direct_event, file_event_payload, app_event_payload, processed_data_payload,
  transformed_data_payload,
}
use boilerplate_thread_messa.Messaging.Message.{SharedPtr, dynamic_pointer_cast}
use boilerplate_thread_messa.Messaging.Queue.{push_ptr}
use boilerplate_thread_messa.Messaging.Endpoint.{make_sender, send, ensure_queue_available}
use boilerplate_thread_messa.Observer.{Observer, nth_event, emit_file, emit_direct, send_if}
use boilerplate_thread_messa.Chain.{
  AppObserver, ChainWorld, observe, mirror_file, process, transform, conclude, processing_next,
  transformation_next,
}
use boilerplate_thread_messa.Chain.Names.{names, names-snoc, names-drop, names-work}

abbrev pub same_file : FileEvent → FileEvent
same_file x = x

abbrev pub file_of_app : AppEvent → FileEvent
file_of_app x = x.original_file

abbrev pub file_of_processed : ProcessedData → FileEvent
file_of_processed x = x.original_app_event.original_file

abbrev pub file_of_transformed : TransformedData → FileEvent
file_of_transformed x = x.original_data.original_app_event.original_file

abbrev pub names_printed : ChainWorld → List Text
names_printed w = map (λ x. x.file_name) w.state

-- What the two Sends of an event do to the queues of the chain.
pub file_lem :
    (stamp : ℕ) (o : Observer) (w : ChainWorld)
    → o.m_next ≡ some (make_sender 1 false)
    → let (o', w') = emit_file stamp o w in
      (o'.m_next ≡ o.m_next)
      × (o'.m_direct_to_processing ≡ o.m_direct_to_processing)
      × (w'.queues 1 ≡ w.queues 1 ++ (some (file_event (nth_event (o.count + 1) stamp)) ∷ []))
      × (w'.queues 2 ≡ w.queues 2)
      × (w'.queues 3 ≡ w.queues 3)
      × (w'.queues 4 ≡ w.queues 4)
      × (w'.queues 0 ≡ w.queues 0)
      × (w'.state ≡ w.state)
      × (o'.count ≡ o.count + 1)
unfolding emit_file send_if send make_sender ensure_queue_available push_ptr
file_lem stamp o w e = rw e (refl, refl, refl, refl, refl, refl, refl, refl, refl)

pub direct_lem :
    (o : Observer) (w : ChainWorld)
    → o.m_direct_to_processing ≡ some (make_sender 2 false)
    → let w' = emit_direct o w in
      (w'.queues 2 ≡ w.queues 2 ++ (some (direct_event (record { counter = o.count })) ∷ []))
      × (w'.queues 1 ≡ w.queues 1)
      × (w'.queues 3 ≡ w.queues 3)
      × (w'.queues 4 ≡ w.queues 4)
      × (w'.queues 0 ≡ w.queues 0)
      × (w'.state ≡ w.state)
unfolding emit_direct send_if send make_sender ensure_queue_available push_ptr
direct_lem o w e = rw e (refl, refl, refl, refl, refl, refl)

-- A task's work moves one name from its hand to the next queue.
moved :
    (xs ys tail : List Text) (x : Text)
    → (xs ++ (x ∷ [])) ++ (ys ++ tail) ≡ xs ++ ((x ∷ ys) ++ tail)
moved xs ys tail x = append_assoc xs (x ∷ []) (ys ++ tail)

pub process_lem :
    (hand next : SharedPtr Message) (w : ChainWorld) (tail : List Text)
    → let w' = process processing_next hand w in
      (names file_of_processed next (w'.queues 3) ++ (names file_of_app none (w'.queues 2) ++ tail)
        ≡ names file_of_processed next (w.queues 3)
          ++ (names file_of_app hand (w.queues 2) ++ tail))
      × (w'.queues 1 ≡ w.queues 1)
      × (w'.queues 4 ≡ w.queues 4)
      × (w'.state ≡ w.state)
unfolding process send_if send make_sender ensure_queue_available push_ptr
process_lem hand next w tail = elim (Option-cases (dynamic_pointer_cast {T = AppEvent} hand)) [
  | inl e ↦
      rw (e, process) (rw (names-drop file_of_app hand (w.queues 2) e) (refl, refl, refl, refl))
  | inr (x, e) ↦
      rw (e, process)
        (
          ap (λ ns. ns ++ (names file_of_app none (w.queues 2) ++ tail))
                (names-snoc file_of_processed next (w.queues 3) _)
              ∙ moved (names file_of_processed next (w.queues 3))
                  (names file_of_app none (w.queues 2)) tail _
              ∙ ap (λ ns. names file_of_processed next (w.queues 3) ++ (ns ++ tail))
                  (sym (names-work file_of_app hand (w.queues 2) x e)),
          refl,
          refl,
          refl,
        )
]

pub transform_lem :
    (hand next : SharedPtr Message) (w : ChainWorld) (tail : List Text)
    → let w' = transform transformation_next hand w in
      (names file_of_transformed next (w'.queues 4)
          ++ (names file_of_processed none (w'.queues 3) ++ tail)
        ≡ names file_of_transformed next (w.queues 4)
          ++ (names file_of_processed hand (w.queues 3) ++ tail))
      × (w'.queues 1 ≡ w.queues 1)
      × (w'.queues 2 ≡ w.queues 2)
      × (w'.state ≡ w.state)
unfolding transform send_if send make_sender ensure_queue_available push_ptr
transform_lem hand next w tail =
    elim (Option-cases (dynamic_pointer_cast {T = ProcessedData} hand)) [
      | inl e ↦
          rw (e, transform)
            (rw (names-drop file_of_processed hand (w.queues 3) e) (refl, refl, refl, refl))
      | inr (x, e) ↦
          rw (e, transform)
            (
              ap (λ ns. ns ++ (names file_of_processed none (w.queues 3) ++ tail))
                    (names-snoc file_of_transformed next (w.queues 4) _)
                  ∙ moved (names file_of_transformed next (w.queues 4))
                      (names file_of_processed none (w.queues 3)) tail _
                  ∙ ap (λ ns. names file_of_transformed next (w.queues 4) ++ (ns ++ tail))
                      (sym (names-work file_of_processed hand (w.queues 3) x e)),
              refl,
              refl,
              refl,
            )
    ]

pub observe_lem :
    (hand next : SharedPtr Message) (a : AppObserver) (w : ChainWorld)
    → a.m_next ≡ some (make_sender 2 false)
    → a.m_mirror ≡ some (make_sender 0 false)
    → let (a', w') = observe hand a w in
      (names file_of_app next (w'.queues 2) ++ names same_file none (w'.queues 1)
        ≡ names file_of_app next (w.queues 2) ++ names same_file hand (w.queues 1))
      × (w'.queues 3 ≡ w.queues 3)
      × (w'.queues 4 ≡ w.queues 4)
      × (w'.state ≡ w.state)
      × (a'.m_next ≡ a.m_next)
      × (a'.m_mirror ≡ a.m_mirror)
unfolding observe mirror_file send_if send make_sender ensure_queue_available push_ptr
observe_lem hand next a w link mirror =
    elim (Option-cases (dynamic_pointer_cast {T = FileEvent} hand)) [
      | inl e ↦
          rw (e, observe)
            (rw (names-drop same_file hand (w.queues 1) e) (refl, refl, refl, refl, refl, refl))
      | inr (x, e) ↦
          rw (e, mirror, link, observe)
            (
              ap (λ ns. ns ++ names same_file none (w.queues 1))
                    (names-snoc file_of_app next (w.queues 2) _)
                  ∙ append_assoc (names file_of_app next (w.queues 2)) _
                      (names same_file none (w.queues 1))
                  ∙ ap (λ ns. names file_of_app next (w.queues 2) ++ ns)
                      (sym (names-work same_file hand (w.queues 1) x e)),
              refl,
              refl,
              refl,
              refl,
              refl,
            )
    ]

pub conclude_lem :
    (recv_time : ℕ) (hand : SharedPtr Message) (w : ChainWorld) (tail : List Text)
    → let w' = conclude recv_time hand w in
      (names_printed w' ++ (names file_of_transformed none (w'.queues 4) ++ tail)
        ≡ names_printed w ++ (names file_of_transformed hand (w.queues 4) ++ tail))
      × (w'.queues 1 ≡ w.queues 1)
      × (w'.queues 2 ≡ w.queues 2)
      × (w'.queues 3 ≡ w.queues 3)
unfolding conclude
conclude_lem recv_time hand w tail =
    elim (Option-cases (dynamic_pointer_cast {T = TransformedData} hand)) [
      | inl e ↦
          rw (e, conclude)
            (rw (names-drop file_of_transformed hand (w.queues 4) e) (refl, refl, refl, refl))
      | inr (x, e) ↦
          rw (e, conclude)
            (
              ap (λ ns. ns ++ (names file_of_transformed none (w.queues 4) ++ tail))
                    (map-append (λ y. y.file_name) w.state _)
                  ∙ moved (names_printed w) (names file_of_transformed none (w.queues 4)) tail _
                  ∙ ap (λ ns. names_printed w ++ (ns ++ tail))
                      (sym (names-work file_of_transformed hand (w.queues 4) x e)),
              refl,
              refl,
              refl,
            )
    ]
