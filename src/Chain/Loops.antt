-- ===== src/Chain/Loops.antt =====
-- The loops `while (!stopToken.stop_requested())` of the five tasks in src/include/testThreads.hpp.
pub mod Ends
mod Tests
use boilerplate_thread_messa.Prelude.{ℕ, ◌≡◌, Bool, true, false, Option, none, some, List, [], ◌∷◌}
use boilerplate_thread_messa.CondVar.{Wake}
use boilerplate_thread_messa.Messaging.Message.{SharedPtr}
use boilerplate_thread_messa.Messaging.Queue.{Other, wait_for_message}
use boilerplate_thread_messa.Messaging.Endpoint.{Sender, set_queue}
use boilerplate_thread_messa.Events.{ObserverCommand}
use boilerplate_thread_messa.Events.Payloads.{Message}
use boilerplate_thread_messa.Observer.{Observer, Readings, round}
use boilerplate_thread_messa.Chain.{AppObserver, ChainWorld, observe, process, transform, conclude}

-- `blocked` is a loop whose pass has not come back.
pub data Looped (S : Type 0) : Type 0 where
  ended in_loop blocked : S → Looped S

-- Each test of the stop token with its answer, and what the pass behind it meets.
module _ {R S : Type 0} (pass : R → S → Option S) where
  unfoldable pub run_loop : List (Bool × R) → S → Looped S
  run_loop [] s = in_loop s
  run_loop ((true, r) ∷ rs) s = ended s
  run_loop ((false, r) ∷ rs) s = elim (pass r s) [ none ↦ blocked s | some t ↦ run_loop rs t ]

  -- The passes on the things of a list, all of which come back.
  pub data Passed : List R → S → S → Type 0 where
    nothing : {s : S} → Passed [] s s
    first :
        {r : R} {rs : List R} {s t u : S} → pass r s ≡ some t → Passed rs t u → Passed (r ∷ rs) s u

abbrev pub before_stop : {R : Type 0} → List (Bool × R) → List R
before_stop [] = []
before_stop ((true, r) ∷ rs) = []
before_stop ((false, r) ∷ rs) = r ∷ before_stop rs

abbrev pub Wakes : Type 0
Wakes = List (Wake (Other Message))

-- `messageQueue().wait_for(...)` of the task with queue `i`.
unfoldable pub next_message : ℕ → Wakes → ChainWorld → Option (SharedPtr Message × ChainWorld)
unfolding wait_for_message
next_message i ws w = elim (wait_for_message ws (w.queues i)) [
  | none ↦ none
  | some (p, q) ↦ some (p, set_queue i q w)
]

-- The bodies of the loops.
unfoldable pub incoming_pass :
    List (Wake ObserverCommand) × Readings → Observer × ChainWorld → Option (Observer × ChainWorld)
unfolding round
incoming_pass (ws, c) (o, w) = round c ws o w

unfoldable pub app_pass : Wakes → AppObserver × ChainWorld → Option (AppObserver × ChainWorld)
unfolding next_message observe
app_pass ws (a, w) = elim (next_message 1 ws w) [ none ↦ none | some (p, v) ↦ some (observe p a v) ]

unfoldable pub processing_pass : Option Sender → Wakes → ChainWorld → Option ChainWorld
unfolding next_message process
processing_pass next ws w = elim (next_message 2 ws w) [
  | none ↦ none
  | some (p, v) ↦ some (process next p v)
]

unfoldable pub transformation_pass : Option Sender → Wakes → ChainWorld → Option ChainWorld
unfolding next_message transform
transformation_pass next ws w = elim (next_message 3 ws w) [
  | none ↦ none
  | some (p, v) ↦ some (transform next p v)
]

unfoldable pub result_pass : Wakes × ℕ → ChainWorld → Option ChainWorld
unfolding next_message conclude
result_pass (ws, recv_time) w = elim (next_message 4 ws w) [
  | none ↦ none
  | some (p, v) ↦ some (conclude recv_time p v)
]

-- `run` of each task; the counters are variables of `run`.
unfoldable pub run_incoming :
    List (Bool × (List (Wake ObserverCommand) × Readings))
    → Observer
    → ChainWorld
    → Looped (Observer × ChainWorld)
unfolding run_loop incoming_pass
run_incoming rs o w = run_loop incoming_pass rs (record o { count = 0 }, w)

unfoldable pub run_app :
    List (Bool × Wakes) → AppObserver → ChainWorld → Looped (AppObserver × ChainWorld)
unfolding run_loop app_pass
run_app rs a w = run_loop app_pass rs (record a { mirror_counter = 0 }, w)

unfoldable pub run_processing : List (Bool × Wakes) → Option Sender → ChainWorld → Looped ChainWorld
unfolding run_loop processing_pass
run_processing rs next w = run_loop (processing_pass next) rs w

unfoldable pub run_transformation :
    List (Bool × Wakes) → Option Sender → ChainWorld → Looped ChainWorld
unfolding run_loop transformation_pass
run_transformation rs next w = run_loop (transformation_pass next) rs w

unfoldable pub run_result : List (Bool × (Wakes × ℕ)) → ChainWorld → Looped ChainWorld
unfolding run_loop result_pass
run_result rs w = run_loop result_pass rs w
