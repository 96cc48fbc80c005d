-- ===== src/Manager/Tests.antt =====
-- Examples of the theorems on the manager of src/include/threadManager.hpp.
use boilerplate_thread_messa.Prelude.{
  List, length, ◌+◌, ◌≡◌, refl, inl, true, false, not, ◌==◌, some, [], ◌∷◌,
}
use boilerplate_thread_messa.Worker.{Worker}
use boilerplate_thread_messa.Worker.Lifecycle.{IsInStep}
use boilerplate_thread_messa.Manager.{Manager, Spawns, new_manager, chain_task}
use boilerplate_thread_messa.Manager.Cycle.{Each}
use boilerplate_thread_messa.Manager.Joined.{HasEnded}
use boilerplate_thread_messa.Manager.Destroyed.{
  Op, add, stop_last, ask_stop, thread_ends, terminate, life, destroyed-HasEnded,
}

abbrev task : Worker
task = record (chain_task 0) {
  m_running = true;
  m_thread = record {
    joinable = true;
    requested = false;
    external_token = some 0;
    returned = false;
  };
}

-- One task runs under the first stop source, and one has never been started.
abbrev two_tasks : Manager
two_tasks = record new_manager { m_tasks = task ∷ chain_task 1 ∷ [] }

task-IsInStep : IsInStep task
task-IsInStep = record { live = λ e. (refl, refl); dead = λ e. cc }

idle-IsInStep : IsInStep (chain_task 1)
idle-IsInStep = record { live = λ e. cc; dead = λ e. inl refl }

-- One task is added, one cannot start, one is stopped; a running one ends; the rest is terminated.
abbrev calls : List Op
calls =
    add true true false true
    ∷ add false true false true
    ∷ stop_last
    ∷ ask_stop
    ∷ thread_ends 0
    ∷ terminate
    ∷ []

destroyed-HasEnded_example :
    let l = life calls two_tasks in
    Each HasEnded l.destroyed × (length l.destroyed + length l.left.m_tasks ≡ l.handed_in + 2)
destroyed-HasEnded_example = destroyed-HasEnded calls two_tasks (task-IsInStep, (idle-IsInStep, tt))

-- The thread of the processing task cannot be created.
abbrev without_processing : Spawns
without_processing i = not (i == 2)
