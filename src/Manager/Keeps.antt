-- ===== src/Manager/Keeps.antt =====
-- Which operations of src/include/threadManager.hpp keep the manager managed.
use boilerplate_thread_messa.Prelude.{ℕ, suc, ◌≡◌, refl, Bool, some, List, [], ◌∷◌, arith}
use boilerplate_thread_messa.Worker.{Sources, Worker, start, is_running}
use boilerplate_thread_messa.Manager.{
  Manager, Spawns, request, request_stop, restart_task, restart_tasks, restart_all_threads,
  stop_all_threads,
}
use boilerplate_thread_messa.Manager.Cycle.{
  Each, IsLinked, IsStopped, IsManaged, AllStopped, join_tasks_linked, request_self, stop_all_eq,
  stopped-IsLinked,
}

restart_task-IsLinked :
    (spawns : Bool) (i : ℕ) (w : Worker) → IsStopped w → IsLinked i (restart_task spawns i w)
unfolding restart_task start is_running
restart_task-IsLinked spawns i w v = record {
  sound = record {
    live = ground (arith, v.idle, v.joined);
    dead = ground (arith, v.idle, v.joined);
    heeds = ground (arith, v.idle, v.heeds);
  };
  ready = ground (arith, v.again);
  linked = ground (arith, v.idle);
}

restart_tasks-IsLinked :
    (spawns : Spawns) (i : ℕ) (ws : List Worker)
    → AllStopped ws
    → Each (IsLinked i) (restart_tasks spawns i ws)
unfolding restart_tasks
restart_tasks-IsLinked spawns i [] v = tt
restart_tasks-IsLinked spawns i (w ∷ ws) (v, vs) =
    (restart_task-IsLinked (spawns 0) i w v, restart_tasks-IsLinked (λ j. spawns (suc j)) i ws vs)

pub request_stop-IsManaged : {m : Manager} → IsManaged m → IsManaged (request_stop m)
unfolding request_stop
request_stop-IsManaged v = record {
  tasks = v.tasks;
  created = v.created;
  untouched = λ i h. ground (arith, v.untouched i, v.created);
}

pub stop_all-IsManaged :
    {m : Manager}
    → IsManaged m
    → (m' : Manager) × (stop_all_threads m ≡ some m')
      × IsManaged m'
      × AllStopped m'.m_tasks
      × (m'.worker ≡ m.worker)
unfolding request_stop
stop_all-IsManaged {m} v =
    let asked : Sources = request m.m_stop_source m.sources in
    let (ws, e, stopped, n) =
      join_tasks_linked asked m.m_stop_source m.m_tasks (request_self m.m_stop_source m.sources)
        v.tasks in
    let v' = request_stop-IsManaged v in
    (
      record m { sources = asked; m_tasks = ws },
      stop_all_eq m ws e,
      record {
        tasks = stopped-IsLinked m.m_stop_source ws stopped;
        created = v'.created;
        untouched = v'.untouched;
      },
      stopped,
      refl,
    )

pub restart_all-IsManaged :
    (spawns : Spawns) {m : Manager}
    → IsManaged m
    → AllStopped m.m_tasks
    → IsManaged (restart_all_threads spawns m)
unfolding restart_all_threads
restart_all-IsManaged spawns {m} v stopped = record {
  tasks = restart_tasks-IsLinked spawns m.unused m.m_tasks stopped;
  created = omega arith;
  untouched = λ i h. ground (arith, v.untouched i, v.created);
}
