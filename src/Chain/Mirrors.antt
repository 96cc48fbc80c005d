-- ===== src/Chain/Mirrors.antt =====
-- The mirror events that the application observer sends back to the event maker.
use boilerplate_thread_messa.Prelude.{
  ℕ, ◌+◌, ◌≡◌, refl, ap, ◌∙◌, false, some, length, length-append, Option-cases, inl, inr,
}
use boilerplate_thread_messa.Events.{FileEvent, AppEvent, ProcessedData, TransformedData}
use boilerplate_thread_messa.Events.Payloads.{
  Message, file_event_payload, app_event_payload, processed_data_payload, transformed_data_payload,
}
use boilerplate_thread_messa.Messaging.Message.{SharedPtr, dynamic_pointer_cast}
use boilerplate_thread_messa.Messaging.Queue.{push_ptr}
use boilerplate_thread_messa.Messaging.Endpoint.{make_sender, send, ensure_queue_available}
use boilerplate_thread_messa.Observer.{send_if}
use boilerplate_thread_messa.Chain.{
  AppObserver, ChainWorld, observe, mirror_file, process, transform, conclude, processing_next,
  transformation_next,
}
use boilerplate_thread_messa.Chain.Flow.{
  Chain, Moves, commands, waits, observes, sends_direct, moved, app_takes, app_works,
  processing_takes, processing_works, transformation_takes, transformation_works, result_takes,
  result_works, fresh, Reach, here, later,
}
use boilerplate_thread_messa.Chain.Works.{direct_lem}
use boilerplate_thread_messa.Chain.Rounds.{round_lem}
use boilerplate_thread_messa.Chain.Delivery.{Reach-Inv}

observe_mirrors :
    (hand : SharedPtr Message) (a : AppObserver) (w : ChainWorld)
    → a.m_next ≡ some (make_sender 2 false)
    → a.m_mirror ≡ some (make_sender 0 false)
    → length (w.queues 0) ≡ a.mirror_counter
    → length ((observe hand a w).1.queues 0) ≡ (observe hand a w).0.mirror_counter
unfolding observe mirror_file send_if send make_sender ensure_queue_available push_ptr
observe_mirrors hand a w link mirror same =
    elim (Option-cases (dynamic_pointer_cast {T = FileEvent} hand)) [
      | inl e ↦ rw (e, observe) same
      | inr (x, e) ↦
          rw (e, mirror, link, observe) (length-append (w.queues 0) _ ∙ ap (λ n. n + 1) same)
    ]

process_apart :
    (hand : SharedPtr Message) (w : ChainWorld)
    → (process processing_next hand w).queues 0 ≡ w.queues 0
unfolding process send_if send make_sender ensure_queue_available push_ptr
process_apart hand w = elim (Option-cases (dynamic_pointer_cast {T = AppEvent} hand)) [
  | inl e ↦ rw (e, process) refl
  | inr (x, e) ↦ rw (e, process) refl
]

transform_apart :
    (hand : SharedPtr Message) (w : ChainWorld)
    → (transform transformation_next hand w).queues 0 ≡ w.queues 0
unfolding transform send_if send make_sender ensure_queue_available push_ptr
transform_apart hand w = elim (Option-cases (dynamic_pointer_cast {T = ProcessedData} hand)) [
  | inl e ↦ rw (e, transform) refl
  | inr (x, e) ↦ rw (e, transform) refl
]

conclude_apart :
    (t : ℕ) (hand : SharedPtr Message) (w : ChainWorld) → (conclude t hand w).queues 0 ≡ w.queues 0
unfolding conclude
conclude_apart t hand w = elim (Option-cases (dynamic_pointer_cast {T = TransformedData} hand)) [
  | inl e ↦ rw (e, conclude) refl
  | inr (x, e) ↦ rw (e, conclude) refl
]

-- As many mirror events as were made.
abbrev Piled : Chain → Type 0
Piled s = length (s.world.queues 0) ≡ s.app.mirror_counter

pile_lem :
    {s t : Chain}
    → s.app.m_next ≡ some (make_sender 2 false)
    → s.app.m_mirror ≡ some (make_sender 0 false)
    → Moves s t
    → Piled s
    → Piled t
pile_lem link mirror (app_takes e) h = h
pile_lem {s} link mirror app_works h = observe_mirrors s.hand_app s.app s.world link mirror h
pile_lem link mirror (processing_takes e) h = h
pile_lem {s} link mirror processing_works h =
    ap length (process_apart s.hand_processing s.world) ∙ h
pile_lem link mirror (transformation_takes e) h = h
pile_lem {s} link mirror transformation_works h =
    ap length (transform_apart s.hand_transformation s.world) ∙ h
pile_lem link mirror (result_takes e) h = h
pile_lem {s} link mirror (result_works now) h =
    ap length (conclude_apart now s.hand_result s.world) ∙ h

-- The queue of the event maker keeps every mirror event that it has ever been sent: in each
-- reachable state its length is the number of mirror events made.
pub mirrors_pile_up : {s : Chain} → Reach fresh s → length (s.world.queues 0) ≡ s.app.mirror_counter
mirrors_pile_up here = refl
mirrors_pile_up (later r (commands cmd)) = mirrors_pile_up r
mirrors_pile_up (later r (waits ws got cmd b e f w)) = mirrors_pile_up r
mirrors_pile_up (later {t} r (observes c result e)) =
    let links = (Reach-Inv r).links in
    let (n, d, how) = round_lem c result t.incoming t.world links.next_link in
    elim how [
      | inl (k, same) ↦ rw same (mirrors_pile_up r)
      | inr (k, sent) ↦ ap length sent.rest.3 ∙ mirrors_pile_up r
    ]
mirrors_pile_up (later {t} r (sends_direct e)) =
    let (_, _, _, _, q0, _) = direct_lem t.incoming t.world (Reach-Inv r).links.direct_link in
    ap length q0 ∙ mirrors_pile_up r
mirrors_pile_up (later r (moved m)) =
    let links = (Reach-Inv r).links in
    pile_lem links.app_link links.mirror_link m (mirrors_pile_up r)
