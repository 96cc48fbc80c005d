-- ===== src/Manager.antt =====
-- src/include/threadManager.hpp. The stop sources that the manager has owned are numbers; the
-- current one is `m_stop_source`, and the ones from `unused` on have not been created.
pub mod Cycle
pub mod Keeps
pub mod Hang
pub mod Setup
pub mod Joined
pub mod Dangling
pub mod Destroyed
mod Tests
use boilerplate_thread_messa.Prelude.{
  ℕ, suc, ◌+◌, Bool, true, false, not, Option, none, some, List, [], ◌∷◌, ◌++◌, length, ◌==◌,
  if◌then◌else◌,
}
use boilerplate_thread_messa.RingBuffer.{SpScRingBuffer, uninitialized, init, push}
use boilerplate_thread_messa.Events.{
  ObserverCommand, CommandType, stop_observing, start_observing, stress_mode, set_normal_mode,
}
use boilerplate_thread_messa.Worker.{
  Sources, Worker, new_worker, start, join, stop_and_wait, is_running,
}

-- `m_observer_incoming` is the handle for commands; of the thread behind it, this module sees the
-- command buffer. `worker` is the base class of the manager itself.
pub record Manager : Type 0 where
  pub m_stop_source : ℕ
  pub sources : Sources
  pub unused : ℕ
  pub m_tasks : List Worker
  pub m_observer_incoming : Option (SpScRingBuffer ObserverCommand)
  pub worker : Worker

abbrev pub new_manager : Manager
new_manager = record {
  m_stop_source = 0;
  sources = λ _. false;
  unused = 1;
  m_tasks = [];
  m_observer_incoming = none;
  worker = new_worker true false true;
}

-- The task of the chain with the number `i`, from 0 for the event maker to 4 for the result task:
-- always ready, and its loop ends on a stop request only, and then does (`Chain/Loops/Ends`).
abbrev pub chain_task : ℕ → Worker
chain_task i = record (new_worker true false true) { number = i }

abbrev pub default_command : ObserverCommand
default_command = record { type = stop_observing; duration_sec = 0 }

-- The command buffer that the constructor of `ObserverIncomingThread` sets up.
abbrev pub new_command_buffer : SpScRingBuffer ObserverCommand
new_command_buffer = (init default_command 8 uninitialized).1

-- Which of the threads that a call creates one after the other can be created. The manager's own
-- thread is number 5, behind the tasks of the chain.
abbrev pub Spawns : Type 0
Spawns = ℕ → Bool

abbrev pub all_spawn : Spawns
all_spawn i = true

abbrev pub request : ℕ → Sources → Sources
request i asked j = if i == j then true else asked j

-- `addTask`: the tasks that are not kept, which go with their last pointer, and what the call
-- leaves. `spawns` says whether threads can be created; a null pointer is `none`.
unfoldable pub add_and_drop : Bool → Option Worker → Manager → List Worker × Manager
add_and_drop spawns none m = ([], m)
add_and_drop spawns (some task) m =
    let (ok, task') = start spawns (some m.m_stop_source) task in
    if ok then ([], record m { m_tasks = m.m_tasks ++ (task' ∷ []) }) else (task' ∷ [], m)

unfoldable pub add_task : Bool → Option Worker → Manager → Manager
unfolding add_and_drop
add_task spawns task m = (add_and_drop spawns task m).1

-- `addTask` of a lambda; `given` says whether it is not empty, `alone` whether it returns by
-- itself, `obeys` whether it returns once its token says stop.
unfoldable pub add_lambda_task : Bool → Bool → Bool → Bool → Manager → Manager
unfolding add_task
add_lambda_task spawns given alone obeys m = add_task spawns (some (new_worker given alone obeys)) m

-- Each thread of the chain can be created or not.
unfoldable pub init_test_chain : Spawns → Manager → Manager
unfolding add_task
init_test_chain spawns m =
    let m0 = record m { m_observer_incoming = some new_command_buffer } in
    let m1 = add_task (spawns 0) (some (chain_task 0)) m0 in
    let m2 = add_task (spawns 1) (some (chain_task 1)) m1 in
    let m3 = add_task (spawns 2) (some (chain_task 2)) m2 in
    let m4 = add_task (spawns 3) (some (chain_task 3)) m3 in
    add_task (spawns 4) (some (chain_task 4)) m4

unfoldable pub send_observer_command : ObserverCommand → Manager → Bool × Manager
send_observer_command cmd m = elim (m.m_observer_incoming) [
  | none ↦ (false, m)
  | some r ↦ let (ok, r') = push cmd r in (ok, record m { m_observer_incoming = some r' })
]

unfoldable pub send_stress_mode_command : Manager → Bool × Manager
unfolding send_observer_command
send_stress_mode_command = send_observer_command (record { type = stress_mode; duration_sec = 0 })

unfoldable pub send_normal_mode_command : Manager → Bool × Manager
unfolding send_observer_command
send_normal_mode_command =
    send_observer_command (record { type = set_normal_mode; duration_sec = 0 })

-- `stopSource().request_stop()`
unfoldable pub request_stop : Manager → Manager
request_stop m = record m { sources = request m.m_stop_source m.sources }

unfoldable pub restart_task : Bool → ℕ → Worker → Worker
restart_task spawns source w = if is_running w then w else (start spawns (some source) w).1

unfoldable pub restart_tasks : Spawns → ℕ → List Worker → List Worker
unfolding restart_task
restart_tasks spawns source [] = []
restart_tasks spawns source (w ∷ ws) =
    restart_task (spawns 0) source w ∷ restart_tasks (λ i. spawns (suc i)) source ws

unfoldable pub restart_all_threads : Spawns → Manager → Manager
unfolding restart_tasks
restart_all_threads spawns m = record m {
  m_stop_source = m.unused;
  unused = m.unused + 1;
  m_tasks = restart_tasks spawns m.unused m.m_tasks;
}

-- The loop of `stopAllThreads`. `none` is a `join` that never comes back.
unfoldable pub join_tasks : Sources → List Worker → Option (List Worker)
join_tasks asked [] = some []
join_tasks asked (w ∷ ws) = elim (join asked w) [
  | none ↦ none
  | some w' ↦ elim (join_tasks asked ws) [ none ↦ none | some ws' ↦ some (w' ∷ ws') ]
]

unfoldable pub stop_all_threads : Manager → Option Manager
unfolding request_stop join_tasks
stop_all_threads m =
    let m' = request_stop m in
    elim (join_tasks m'.sources m'.m_tasks) [
      | none ↦ none
      | some ws ↦ some (record m' { m_tasks = ws })
    ]

-- `m_tasks.clear()`: the tasks that go, as they are then, and what is left.
unfoldable pub clear_tasks : Manager → List Worker × Manager
clear_tasks m = (m.m_tasks, record m { m_tasks = [] })

unfoldable pub terminate_and_drop : Manager → Option (List Worker × Manager)
unfolding clear_tasks
terminate_and_drop m = elim (stop_all_threads m) [ none ↦ none | some m' ↦ some (clear_tasks m') ]

abbrev pub manager_of : Option (List Worker × Manager) → Option Manager
manager_of none = none
manager_of (some (gone, m)) = some m

unfoldable pub terminate_all_threads : Manager → Option Manager
unfolding terminate_and_drop
terminate_all_threads m = manager_of (terminate_and_drop m)

-- Split off the last task.
pub unsnoc : List Worker → Option (List Worker × Worker)
unsnoc [] = none
unsnoc (w ∷ ws) = elim (unsnoc ws) [ none ↦ some ([], w) | some (vs, v) ↦ some (w ∷ vs, v) ]

-- `m_tasks.back()->stopAndWait()`, if there is a task.
unfoldable pub stop_back : Manager → Option Manager
unfolding unsnoc
stop_back m = elim (unsnoc m.m_tasks) [
  | none ↦ some m
  | some (ws, w) ↦ elim (stop_and_wait m.sources w) [
    | none ↦ none
    | some w' ↦ some (record m { m_tasks = ws ++ (w' ∷ []) })
  ]
]

-- `m_tasks.pop_back()`, if there is a task: the one that goes, as it is then, and what is left.
unfoldable pub pop_back : Manager → List Worker × Manager
unfolding unsnoc
pop_back m = elim (unsnoc m.m_tasks) [
  | none ↦ ([], m)
  | some (ws, w) ↦ (w ∷ [], record m { m_tasks = ws })
]

unfoldable pub stop_last_and_drop : Manager → Option (List Worker × Manager)
unfolding stop_back pop_back
stop_last_and_drop m = elim (stop_back m) [ none ↦ none | some m' ↦ some (pop_back m') ]

unfoldable pub stop_last_thread : Manager → Option Manager
unfolding stop_last_and_drop
stop_last_thread m = manager_of (stop_last_and_drop m)

unfoldable pub get_thread_count : Manager → ℕ
get_thread_count m = length m.m_tasks

-- `start()` and `stopAndWait()` of the manager's own thread.
unfoldable pub start_manager : Bool → Manager → Bool × Manager
start_manager spawns m = let (ok, w) = start spawns none m.worker in (ok, record m { worker = w })

unfoldable pub stop_manager : Manager → Option Manager
stop_manager m = elim (stop_and_wait m.sources m.worker) [
  | none ↦ none
  | some w ↦ some (record m { worker = w })
]
