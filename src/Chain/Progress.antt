-- ===== src/Chain/Progress.antt =====
-- The four tasks behind the event maker at work while no new event is made.
use boilerplate_thread_messa.Prelude.{
  ℕ, List, ◌++◌, suc, zero, ◌+◌, ◌*◌, ◌≤◌, ◌<◌, ◌≡◌, refl, ap, ◌∙◌, none, some, [], ◌∷◌, length,
  arith,
}
use boilerplate_thread_messa.Events.{FileEvent}
use boilerplate_thread_messa.Events.Payloads.{
  Message, file_event_payload, app_event_payload, processed_data_payload, transformed_data_payload,
}
use boilerplate_thread_messa.Messaging.Message.{Payload, SharedPtr}
use boilerplate_thread_messa.Messaging.Queue.{MessageQueue, pop}
use native.Mathlib.Decide.{dec_lt}
use boilerplate_thread_messa.Messaging.Endpoint.Delivery.{received}
use boilerplate_thread_messa.Messaging.Wakeups.{length-pop}
use boilerplate_thread_messa.Chain.Delivery.{HasLinks, file_names, under_way}
use boilerplate_thread_messa.Chain.Sessions.{
  Life, steps, all_names, Life-Inv, drained_prints_all, Reach-Life,
}
use boilerplate_thread_messa.Chain.Works.{
  names_printed, same_file, file_of_app, file_of_processed, file_of_transformed,
}
use boilerplate_thread_messa.Chain.Names.{names}
use boilerplate_thread_messa.Chain.Sizes.{
  observe_sizes, process_sizes, transform_sizes, conclude_sizes,
}
use boilerplate_thread_messa.Chain.Flow.{
  Chain, Moves, moved, app_takes, app_works, processing_takes, processing_works,
  transformation_takes, transformation_works, result_takes, result_works, fresh, Reach,
}

abbrev pub held : SharedPtr Message → ℕ
held none = 0
held (some m) = 1

-- The work that is left: a pointer counts for the steps that it can still need.
abbrev pub work : Chain → ℕ
work s =
    (8 * length (s.world.queues 1) + 7 * held s.hand_app)
    + (6 * length (s.world.queues 2) + 5 * held s.hand_processing)
    + (4 * length (s.world.queues 3) + 3 * held s.hand_transformation)
    + (2 * length (s.world.queues 4) + held s.hand_result)

held-le : (p : SharedPtr Message) → held p ≤ 1
held-le none = omega arith
held-le (some m) = omega arith

held-none : (p : SharedPtr Message) → ¬ (0 < held p) → p ≡ none
held-none none h = refl
held-none (some m) h = absurd (h (omega arith))

module _ {s : Chain} (links : HasLinks s.incoming s.app) where
  advance_front :
      0
        < 8 * length (s.world.queues 1)
          + 7 * held s.hand_app
          + (6 * length (s.world.queues 2) + 5 * held s.hand_processing)
      → (t : Chain) × Moves s t × (work t < work s) × (t.incoming ≡ s.incoming)
  advance_front h = elim (dec_lt 0 (held s.hand_processing)) [
    | yes p ↦ (_, processing_works, omega (arith, process_sizes s.hand_processing s.world), refl)
    | no a ↦ elim (dec_lt 0 (length (s.world.queues 2))) [
      | yes p ↦ (
        _,
        processing_takes (held-none s.hand_processing a),
        omega (arith, length-pop (s.world.queues 2), held-le (pop (s.world.queues 2)).0),
        refl,
      )
      | no b ↦ elim (dec_lt 0 (held s.hand_app)) [
        | yes p ↦ (
          _,
          app_works,
          omega (arith, observe_sizes s.hand_app s.app s.world links.app_link links.mirror_link),
          refl,
        )
        | no c ↦ (
          _,
          app_takes (held-none s.hand_app c),
          omega (arith, length-pop (s.world.queues 1), held-le (pop (s.world.queues 1)).0),
          refl,
        )
      ]
    ]
  ]

  -- While work is left, some task has a step that leaves less.
  advance : 0 < work s → (t : Chain) × Moves s t × (work t < work s) × (t.incoming ≡ s.incoming)
  advance h = elim (dec_lt 0 (held s.hand_result)) [
    | yes p ↦ (_, result_works 0, rw (conclude_sizes 0 s.hand_result s.world) (omega arith), refl)
    | no a ↦ elim (dec_lt 0 (length (s.world.queues 4))) [
      | yes p ↦ (
        _,
        result_takes (held-none s.hand_result a),
        omega (arith, length-pop (s.world.queues 4), held-le (pop (s.world.queues 4)).0),
        refl,
      )
      | no b ↦ elim (dec_lt 0 (held s.hand_transformation)) [
        | yes p ↦ (
          _,
          transformation_works,
          omega (arith, transform_sizes s.hand_transformation s.world),
          refl,
        )
        | no c ↦ elim (dec_lt 0 (length (s.world.queues 3))) [
          | yes p ↦ (
            _,
            transformation_takes (held-none s.hand_transformation c),
            omega (arith, length-pop (s.world.queues 3), held-le (pop (s.world.queues 3)).0),
            refl,
          )
          | no d ↦ advance_front (omega arith)
        ]
      ]
    ]
  ]

-- `n` steps of the four tasks.
pub data Moved : ℕ → Chain → Chain → Type 0 where
  nothing : {s : Chain} → Moved 0 s s
  first : {n : ℕ} {s t u : Chain} → Moves s t → Moved n t u → Moved (suc n) s u

settles_from :
    (fuel : ℕ) {ns : List ℕ} {s : Chain}
    → Life ns s
    → work s ≤ fuel
    → (n : ℕ) × (t : Chain) × Moved n s t
      × Life ns t
      × (n ≤ work s)
      × (work t ≡ 0)
      × (t.incoming ≡ s.incoming)
settles_from zero {s} r h = (0, s, nothing, r, omega arith, omega arith, refl)
settles_from (suc fuel) {s} r h = elim (dec_lt 0 (work s)) [
  | no idle ↦ (0, s, nothing, r, omega arith, omega arith, refl)
  | yes busy ↦
      let (t, m, less, same) = advance (Life-Inv r).links busy in
      let (n, u, ms, r', few, done, same') = settles_from fuel (steps r (moved m)) (omega arith) in
      (suc n, u, first m ms, r', omega arith, done, same' ∙ same)
]

module _ {T : Type 0} ⦃p : Payload Message T⦄ (file : T → FileEvent) where
  names_idle :
      (h : SharedPtr Message) (q : MessageQueue Message)
      → held h ≡ 0
      → length q ≡ 0
      → names file h q ≡ []
  unfolding names received
  names_idle none [] e f = refl
  names_idle none (m ∷ q) e f = absurd (omega arith)
  names_idle (some m) q e f = absurd (omega arith)

idle_under_way : (s : Chain) → work s ≡ 0 → under_way s ≡ []
idle_under_way s e =
    rw
      (
        names_idle file_of_transformed s.hand_result (s.world.queues 4) (omega arith) (omega arith),
        names_idle file_of_processed s.hand_transformation (s.world.queues 3) (omega arith)
            (omega arith),
        names_idle file_of_app s.hand_processing (s.world.queues 2) (omega arith) (omega arith),
        names_idle same_file s.hand_app (s.world.queues 1) (omega arith) (omega arith),
      )
      refl

-- Every file comes out. From each reachable state, restarts of the idle tasks included, the four
-- tasks can go on by themselves, with no further round of the event maker, for at most as many
-- steps as the work that is left, to a state in which the result task has printed every file made
-- so far, in order.
pub sessions_drain :
    {ns : List ℕ} {s : Chain}
    → Life ns s
    → (n : ℕ) × (t : Chain) × Moved n s t
      × (n ≤ work s)
      × (names_printed t.world ≡ all_names ns ++ file_names s.incoming.count)
sessions_drain {ns} {s} l =
    let (n, t, ms, l', few, done, same) = settles_from (work s) l (omega arith) in
    (
      n,
      t,
      ms,
      few,
      drained_prints_all l' (idle_under_way t done)
          ∙ ap (λ o. all_names ns ++ file_names o.count) same,
    )

-- The same of a run with no restart.
chain_drains :
    {s : Chain}
    → Reach fresh s
    → (n : ℕ) × (t : Chain) × Moved n s t
      × (n ≤ work s)
      × (names_printed t.world ≡ file_names s.incoming.count)
chain_drains r = sessions_drain (Reach-Life r)
