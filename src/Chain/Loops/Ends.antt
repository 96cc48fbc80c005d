-- ===== src/Chain/Loops/Ends.antt =====
-- A stop request ends the loops of src/include/testThreads.hpp.
use boilerplate_thread_messa.Prelude.{
  ℕ, ◌≡◌, refl, sym, subst, Bool, true, false, Option, some, List, [], ◌∷◌,
}
use boilerplate_thread_messa.CondVar.{Wake, HasTimeout}
use boilerplate_thread_messa.Messaging.Message.{SharedPtr}
use boilerplate_thread_messa.Messaging.Queue.Laws.{wait_for_message_lem}
use boilerplate_thread_messa.Messaging.Endpoint.{Sender, set_queue}
use boilerplate_thread_messa.Events.{ObserverCommand}
use boilerplate_thread_messa.Events.Payloads.{Message}
use boilerplate_thread_messa.RingBuffer.Invariant.{IsReady}
use boilerplate_thread_messa.Observer.{Observer, Readings, round, after_wait}
use boilerplate_thread_messa.Observer.Buffer.{after_wait-m_cmd_buffer}
use boilerplate_thread_messa.Observer.Commands.{serve_lem}
use boilerplate_thread_messa.Chain.{AppObserver, ChainWorld, observe, process, transform, conclude}
use boilerplate_thread_messa.Chain.Loops.{
  ended, run_loop, Passed, nothing, first, before_stop, Wakes, next_message, incoming_pass,
  app_pass, processing_pass, transformation_pass, result_pass, run_incoming, run_app,
  run_processing, run_transformation, run_result,
}

-- Some test says that a stop is requested, and each pass before it is good.
abbrev pub Stops : {R : Type 0} → (R → Type 0) → List (Bool × R) → Type 0
Stops Good [] = ⊥
Stops Good ((true, r) ∷ rs) = Unit
Stops Good ((false, r) ∷ rs) = Good r × Stops Good rs

-- The loop ends with exactly the passes before that test.
abbrev pub EndsAtStop : {R S : Type 0} → (R → S → Option S) → List (Bool × R) → S → Type 0
unfolding run_loop
EndsAtStop {S = S} pass rs s =
    (t : S) × (run_loop pass rs s ≡ ended t) × Passed pass (before_stop rs) s t

module _ {R S : Type 0} (pass : R → S → Option S) (Good : R → Type 0) (P : S → Type 0)
    (comes_back : (r : R) (s : S) → Good r → P s → (t : S) × (pass r s ≡ some t) × P t) where
  run_loop-EndsAtStop : (rs : List (Bool × R)) (s : S) → Stops Good rs → P s → EndsAtStop pass rs s
  unfolding run_loop EndsAtStop
  run_loop-EndsAtStop [] s h p = absurd h
  run_loop-EndsAtStop ((true, r) ∷ rs) s h p = (s, refl, nothing)
  run_loop-EndsAtStop ((false, r) ∷ rs) s (good, h) p =
      let (t, e, p') = comes_back r s good p in
      let (u, ends, passed) = run_loop-EndsAtStop rs t h p' in
      (u, rw (e, run_loop) ends, first e passed)

-- A `wait_for` with its timeout.
next_message_lem :
    (i : ℕ) (ws : Wakes) (w : ChainWorld)
    → HasTimeout ws
    → (p : SharedPtr Message) × (v : ChainWorld) × (next_message i ws w ≡ some (p, v))
unfolding next_message
next_message_lem i ws w timed =
    let (p, q, e, _) = wait_for_message_lem ws (w.queues i) timed in
    (p, set_queue i q w, rw (e, next_message) refl)

-- The state of the event maker from one round to the next.
abbrev pub HasBuffer : Observer × ChainWorld → Type 0
HasBuffer (o, w) = IsReady o.m_cmd_buffer 3

incoming_comes_back :
    (r : List (Wake ObserverCommand) × Readings) (s : Observer × ChainWorld)
    → HasTimeout r.0
    → HasBuffer s
    → (t : Observer × ChainWorld) × (incoming_pass r s ≡ some t) × HasBuffer t
unfolding incoming_pass round
incoming_comes_back (ws, c) (o, w) timed v =
    let (got, x, r, e, _, ready) = serve_lem ws timed v in
    let served : Observer = record o { m_cmd_buffer = r } in
    (
      after_wait c (got, x) served w,
      rw (e, round) refl,
      subst (λ b. IsReady b 3) (sym (after_wait-m_cmd_buffer c got x served w)) ready,
    )

abbrev Always : {S : Type 0} → S → Type 0
Always s = Unit

app_comes_back :
    (ws : Wakes) (s : AppObserver × ChainWorld)
    → HasTimeout ws
    → Always s
    → (t : AppObserver × ChainWorld) × (app_pass ws s ≡ some t) × Always t
unfolding app_pass
app_comes_back ws (a, w) timed h =
    let (p, v, e) = next_message_lem 1 ws w timed in (observe p a v, rw (e, app_pass) refl, tt)

processing_comes_back :
    (next : Option Sender) (ws : Wakes) (w : ChainWorld)
    → HasTimeout ws
    → Always w
    → (t : ChainWorld) × (processing_pass next ws w ≡ some t) × Always t
unfolding processing_pass
processing_comes_back next ws w timed h =
    let (p, v, e) = next_message_lem 2 ws w timed in
    (process next p v, rw (e, processing_pass) refl, tt)

transformation_comes_back :
    (next : Option Sender) (ws : Wakes) (w : ChainWorld)
    → HasTimeout ws
    → Always w
    → (t : ChainWorld) × (transformation_pass next ws w ≡ some t) × Always t
unfolding transformation_pass
transformation_comes_back next ws w timed h =
    let (p, v, e) = next_message_lem 3 ws w timed in
    (transform next p v, rw (e, transformation_pass) refl, tt)

result_comes_back :
    (r : Wakes × ℕ) (w : ChainWorld)
    → HasTimeout r.0
    → Always w
    → (t : ChainWorld) × (result_pass r w ≡ some t) × Always t
unfolding result_pass
result_comes_back (ws, recv_time) w timed h =
    let (p, v, e) = next_message_lem 4 ws w timed in
    (conclude recv_time p v, rw (e, result_pass) refl, tt)

-- A list of tests and waits that comes to a stop: each wait before it has its timeout.
abbrev pub StopsIn : List (Bool × Wakes) → Type 0
StopsIn = Stops HasTimeout

-- Each of the five tasks returns from `run` at the first test of its token that says stop, with
-- exactly the passes before that test done and each of them over, whatever the queues hold and
-- whatever the others do in its waits: if its waits have their timeouts, and, for the event maker,
-- its command buffer is ready with eight slots.
pub stop_ends_loops :
    (o : Observer) (a : AppObserver) (next : Option Sender) (w : ChainWorld)
    (rounds : List (Bool × (List (Wake ObserverCommand) × Readings))) (passes : List (Bool × Wakes))
    (results : List (Bool × (Wakes × ℕ)))
    → IsReady o.m_cmd_buffer 3
    → Stops (λ r. HasTimeout r.0) rounds
    → StopsIn passes
    → Stops (λ r. HasTimeout r.0) results
    → ((t : Observer × ChainWorld) × (run_incoming rounds o w ≡ ended t)
        × Passed incoming_pass (before_stop rounds) (record o { count = 0 }, w) t)
      × ((t : AppObserver × ChainWorld) × (run_app passes a w ≡ ended t)
          × Passed app_pass (before_stop passes) (record a { mirror_counter = 0 }, w) t)
      × ((t : ChainWorld) × (run_processing passes next w ≡ ended t)
          × Passed (processing_pass next) (before_stop passes) w t)
      × ((t : ChainWorld) × (run_transformation passes next w ≡ ended t)
          × Passed (transformation_pass next) (before_stop passes) w t)
      × ((t : ChainWorld) × (run_result results w ≡ ended t)
          × Passed result_pass (before_stop results) w t)
unfolding run_incoming run_app run_processing run_transformation run_result EndsAtStop
stop_ends_loops o a next w rounds passes results v h g k = (
  run_loop-EndsAtStop incoming_pass (λ r. HasTimeout r.0) HasBuffer incoming_comes_back rounds _ h
      v,
  run_loop-EndsAtStop app_pass HasTimeout Always app_comes_back passes _ g tt,
  run_loop-EndsAtStop (processing_pass next) HasTimeout Always (processing_comes_back next) passes w
      g tt,
  run_loop-EndsAtStop (transformation_pass next) HasTimeout Always (transformation_comes_back next)
      passes w g tt,
  run_loop-EndsAtStop result_pass (λ r. HasTimeout r.0) Always result_comes_back results w k tt,
)
