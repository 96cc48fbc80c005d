-- ===== src/Chain/Sizes.antt =====
-- What one pass of each task of the chain does to the lengths of the queues.
use boilerplate_thread_messa.Prelude.{
  ℕ, ◌+◌, ◌≤◌, ◌≡◌, refl, false, some, length, length-append, arith, inl, inr, Option-cases,
}
use boilerplate_thread_messa.Events.{FileEvent, AppEvent, ProcessedData, TransformedData}
use boilerplate_thread_messa.Events.Payloads.{
  Message, file_event_payload, app_event_payload, processed_data_payload, transformed_data_payload,
}
use boilerplate_thread_messa.Messaging.Message.{SharedPtr, dynamic_pointer_cast}
use boilerplate_thread_messa.Messaging.Queue.{push_ptr}
use boilerplate_thread_messa.Messaging.Endpoint.{make_sender, send, ensure_queue_available}
use boilerplate_thread_messa.Observer.{send_if}
use boilerplate_thread_messa.Chain.{
  AppObserver, ChainWorld, observe, mirror_file, process, transform, conclude, processing_next,
  transformation_next,
}

pub observe_sizes :
    (hand : SharedPtr Message) (a : AppObserver) (w : ChainWorld)
    → a.m_next ≡ some (make_sender 2 false)
    → a.m_mirror ≡ some (make_sender 0 false)
    → let w' = (observe hand a w).1 in
      (length (w'.queues 2) ≤ length (w.queues 2) + 1)
      × (length (w'.queues 1) ≡ length (w.queues 1))
      × (length (w'.queues 3) ≡ length (w.queues 3))
      × (length (w'.queues 4) ≡ length (w.queues 4))
unfolding observe mirror_file send_if send make_sender ensure_queue_available push_ptr
observe_sizes hand a w link mirror =
    elim (Option-cases (dynamic_pointer_cast {T = FileEvent} hand)) [
      | inl e ↦ rw (e, observe) (omega arith, refl, refl, refl)
      | inr (x, e) ↦
          rw (e, mirror, link, observe)
            (omega (arith, length-append (w.queues 2) _), refl, refl, refl)
    ]

pub process_sizes :
    (hand : SharedPtr Message) (w : ChainWorld)
    → let w' = process processing_next hand w in
      (length (w'.queues 3) ≤ length (w.queues 3) + 1)
      × (length (w'.queues 1) ≡ length (w.queues 1))
      × (length (w'.queues 2) ≡ length (w.queues 2))
      × (length (w'.queues 4) ≡ length (w.queues 4))
unfolding process send_if send make_sender ensure_queue_available push_ptr
process_sizes hand w = elim (Option-cases (dynamic_pointer_cast {T = AppEvent} hand)) [
  | inl e ↦ rw (e, process) (omega arith, refl, refl, refl)
  | inr (x, e) ↦ rw (e, process) (omega (arith, length-append (w.queues 3) _), refl, refl, refl)
]

pub transform_sizes :
    (hand : SharedPtr Message) (w : ChainWorld)
    → let w' = transform transformation_next hand w in
      (length (w'.queues 4) ≤ length (w.queues 4) + 1)
      × (length (w'.queues 1) ≡ length (w.queues 1))
      × (length (w'.queues 2) ≡ length (w.queues 2))
      × (length (w'.queues 3) ≡ length (w.queues 3))
unfolding transform send_if send make_sender ensure_queue_available push_ptr
transform_sizes hand w = elim (Option-cases (dynamic_pointer_cast {T = ProcessedData} hand)) [
  | inl e ↦ rw (e, transform) (omega arith, refl, refl, refl)
  | inr (x, e) ↦ rw (e, transform) (omega (arith, length-append (w.queues 4) _), refl, refl, refl)
]

pub conclude_sizes :
    (now : ℕ) (hand : SharedPtr Message) (w : ChainWorld) → (conclude now hand w).queues ≡ w.queues
unfolding conclude
conclude_sizes now hand w = elim (Option-cases (dynamic_pointer_cast {T = TransformedData} hand)) [
  | inl e ↦ rw (e, conclude) refl
  | inr (x, e) ↦ rw (e, conclude) refl
]
