-- ===== src/Task/Tests.antt =====
-- Runs of a task of src/include/taskBase.hpp, and examples of the theorems on it.
use Prim.Native.String.{String}
use boilerplate_thread_messa.Prelude.{
  ℕ, suc, ◌≡◌, refl, true, false, Bool, some, List, [], ◌∷◌, ◌⊎◌, if◌then◌else◌,
}
use boilerplate_thread_messa.Events.{DirectEvent}
use boilerplate_thread_messa.Events.Payloads.{Message, direct_event_payload}
use boilerplate_thread_messa.Messaging.Message.{SharedPtr}
use boilerplate_thread_messa.Messaging.Queue.{try_pop}
use boilerplate_thread_messa.Messaging.Endpoint.{World, make_sender, set_queue}
use boilerplate_thread_messa.Messaging.Endpoint.Delivery.{received}
use boilerplate_thread_messa.Manager.{
  new_manager, add_lambda_task, stop_last_thread, stop_last_and_drop, get_thread_count,
}
use boilerplate_thread_messa.Worker.{Worker}
use boilerplate_thread_messa.Manager.Joined.{HasEnded}
use boilerplate_thread_messa.Task.{Task, RunFunction, new_task, is_ready_to_start, run, post}
use boilerplate_thread_messa.Task.Posting.{observing, post_all}
use boilerplate_thread_messa.Task.Starting.{add_then_stop_last}

-- A function that takes one message per call, and a hook that counts.
abbrev takes_one : RunFunction Bool Message ℕ
unfolding try_pop
takes_one i stop_requested w = if stop_requested then w else set_queue i (try_pop (w.queues i)).1 w

abbrev counts : String → SharedPtr Message → ℕ → ℕ
counts name message n = suc n

abbrev task : Task Bool Message ℕ
unfolding new_task
task = new_task false true 3 (some takes_one) (some (observing counts))

abbrev quiet : World Message ℕ
quiet = record { queues = λ j. []; cerr = []; state = 0 }

abbrev two : List DirectEvent
two = record { counter = 7 } ∷ record { counter = 8 } ∷ []

-- Two messages to itself, and one call of the function on them.
one_left :
    received {T = DirectEvent}
      ((run task 3 false (post_all {T = DirectEvent} (λ j. task) 3 two quiet)).queues 3)
    ≡ record { counter = 8 } ∷ []
unfolding run post_all received new_task takes_one post make_sender
one_left = refl

-- The function heeds its token.
add_then_stop_last_example :
    let m = add_lambda_task true true false true new_manager in
    ((true ≡ true)
      × (get_thread_count m ≡ suc (get_thread_count new_manager))
      × (stop_last_thread m ≡ some new_manager)
      × ((w : Worker) × HasEnded w × (stop_last_and_drop m ≡ some (w ∷ [], new_manager))))
    ⊎ ((true ≡ false) × (m ≡ new_manager))
unfolding is_ready_to_start
add_then_stop_last_example =
    add_then_stop_last {Token = Bool} true false true (some takes_one) new_manager
