-- ===== src/Manager/Hang.antt =====
-- `join` in src/include/threadManager.hpp on tasks that hold an old or the current source's token.
use boilerplate_thread_messa.Prelude.{
  ℕ, suc, ◌<◌, ◌≡◌, refl, ap, ◌∙◌, Bool, false, none, some, List, [], ◌∷◌, ◌++◌, arith,
}
use boilerplate_thread_messa.Worker.{Sources, Worker, join, is_running, stop_and_wait}
use boilerplate_thread_messa.Manager.{
  Manager, Spawns, request, request_stop, restart_task, restart_tasks, restart_all_threads,
  join_tasks, stop_all_threads, terminate_all_threads, stop_last_and_drop, terminate_and_drop,
  unsnoc, get_thread_count,
}
use boilerplate_thread_messa.Manager.Cycle.{IsLive, IsManaged, stop_all_then_restart}

-- A thread that can see no request keeps `join` from coming back.
join_blocks :
    (asked : Sources) (i : ℕ) (w : Worker)
    → IsLive i w
    → w.ends_alone ≡ false
    → asked i ≡ false
    → join asked w ≡ none
unfolding join
join_blocks asked i w v alone quiet =
    ground (arith, v.open_thread, v.not_returned, v.not_asked, v.token)

join_tasks_blocks :
    (asked : Sources) (before after : List Worker) (w : Worker)
    → join asked w ≡ none
    → join_tasks asked (before ++ (w ∷ after)) ≡ none
unfolding join_tasks
join_tasks_blocks asked [] after w e = ground arith
join_tasks_blocks asked (b ∷ before) after w e =
    ground (arith, join_tasks_blocks asked before after w e)

-- The restart of a task among others.
restart_tasks-middle :
    (spawns : Spawns) (i : ℕ) (before after : List Worker) (w : Worker)
    → ((b : Bool) → restart_task b i w ≡ w)
    → (bs cs : List Worker) × (restart_tasks spawns i (before ++ (w ∷ after)) ≡ bs ++ (w ∷ cs))
unfolding restart_tasks
restart_tasks-middle spawns i [] after w same =
    let others = restart_tasks (λ j. spawns (suc j)) i after in
    ([], others, ap (λ v. v ∷ others) (same (spawns 0)))
restart_tasks-middle spawns i (v ∷ before) after w same =
    let (bs, cs, e) = restart_tasks-middle (λ j. spawns (suc j)) i before after w same in
    (restart_task (spawns 0) i v ∷ bs, cs, ap (λ ws. restart_task (spawns 0) i v ∷ ws) e)

restart_live : (spawns : Bool) (i j : ℕ) (w : Worker) → IsLive j w → restart_task spawns i w ≡ w
unfolding restart_task is_running
restart_live spawns i j w v = rw (v.runs)

-- Restarting while a task of the chain runs makes the next stop hang. The running task keeps the
-- token of the old source, which nobody can ask to stop any more; `stopAllThreads` asks the new
-- source only, and its `join` never comes back.
pub restart_then_stop_hangs :
    (spawns : Spawns) (m : Manager) (before after : List Worker) (w : Worker)
    → m.m_tasks ≡ before ++ (w ∷ after)
    → IsLive m.m_stop_source w
    → w.ends_alone ≡ false
    → m.sources m.m_stop_source ≡ false
    → m.m_stop_source < m.unused
    → stop_all_threads (restart_all_threads spawns m) ≡ none
unfolding stop_all_threads restart_all_threads request_stop
restart_then_stop_hangs spawns m before after w e v alone quiet created = ground (arith, blocked)
  where
    asked : Sources
    asked = request m.unused m.sources

    blocked : join_tasks asked (restart_tasks spawns m.unused m.m_tasks) ≡ none
    blocked =
        let (bs, cs, same) =
          restart_tasks-middle spawns m.unused before after w
            (λ b. restart_live b m.unused m.m_stop_source w v) in
        ap (λ ws. join_tasks asked (restart_tasks spawns m.unused ws)) e
        ∙ ap (join_tasks asked) same
        ∙ join_tasks_blocks asked bs cs w
            (join_blocks asked m.m_stop_source w v alone (ground arith))

stop_all_handle :
    (m m' : Manager) → stop_all_threads m ≡ some m' → m'.m_observer_incoming ≡ m.m_observer_incoming
unfolding stop_all_threads request_stop
stop_all_handle m m' e = ground arith

pub terminate_all_eq :
    (m m' : Manager)
    → stop_all_threads m ≡ some m'
    → terminate_all_threads m ≡ some (record m' { m_tasks = [] })
unfolding terminate_all_threads
terminate_all_eq m m' e = rw (e, terminate_and_drop)

-- `terminateAllThreads` comes back on a managed manager and leaves no task; the handle for
-- commands stays as it was.
pub terminate_all_lem :
    (m : Manager)
    → IsManaged m
    → (m' : Manager) × (terminate_all_threads m ≡ some m')
      × (get_thread_count m' ≡ 0)
      × (m'.m_observer_incoming ≡ m.m_observer_incoming)
unfolding get_thread_count
terminate_all_lem m v =
    let (m', e, _, _, _) = stop_all_then_restart m v in
    (record m' { m_tasks = [] }, terminate_all_eq m m' e, refl, stop_all_handle m m' e)

pub unsnoc-snoc : (ws : List Worker) (w : Worker) → unsnoc (ws ++ (w ∷ [])) ≡ some (ws, w)
unfolding unsnoc
unsnoc-snoc [] w = refl
unsnoc-snoc (v ∷ ws) w = ground (arith, unsnoc-snoc ws w)

-- `stopLastThread` lets the stopped task go.
pub stop_last_eq :
    (m : Manager) (ws : List Worker) (w w' : Worker)
    → unsnoc m.m_tasks ≡ some (ws, w)
    → stop_and_wait m.sources w ≡ some w'
    → stop_last_and_drop m ≡ some (w' ∷ [], record m { m_tasks = ws })
unfolding stop_last_and_drop
stop_last_eq m ws w w' e f = ground (arith, unsnoc-snoc ws w')

pub stop_last_none : (m : Manager) → unsnoc m.m_tasks ≡ none → stop_last_and_drop m ≡ some ([], m)
unfolding stop_last_and_drop
stop_last_none m e = ground arith

pub stop_last_hangs :
    (m : Manager) (ws : List Worker) (w : Worker)
    → unsnoc m.m_tasks ≡ some (ws, w)
    → stop_and_wait m.sources w ≡ none
    → stop_last_and_drop m ≡ none
unfolding stop_last_and_drop
stop_last_hangs m ws w e f = ground arith
