-- ===== src/Manager/Destroyed.antt =====
-- When the tasks of src/include/threadManager.hpp are destroyed. The `jthread` of a worker is a
-- member of `workerBase`: were a thread still running in the destructor, it would use members of
-- the derived class that are gone already.
use boilerplate_thread_messa.Prelude.{
  ℕ, zero, suc, ◌+◌, ◌≡◌, refl, ap, subst, Bool, true, false, Option, none, some, List, [], ◌∷◌,
  ◌++◌, length, length-append, arith,
}
use boilerplate_thread_messa.Worker.{
  Sources, Worker, new_worker, start, finish, stop, stop_and_wait,
}
use boilerplate_thread_messa.Worker.Lifecycle.{IsInStep, new-IsInStep, operations-IsInStep}
use boilerplate_thread_messa.Manager.{
  Manager, Spawns, add_and_drop, restart_all_threads, stop_all_threads, terminate_and_drop,
  clear_tasks, stop_last_and_drop, join_tasks, unsnoc, request_stop,
}
use boilerplate_thread_messa.Manager.Cycle.{Each}
use boilerplate_thread_messa.Manager.Hang.{stop_last_eq, stop_last_none, stop_last_hangs}
use boilerplate_thread_messa.Manager.Joined.{
  HasEnded, Each-append, AreJoined, join_all, join-HasEnded, IsSplit, unsnoc-IsSplit,
  restart_tasks-IsInStep,
}

-- `add spawns ready alone obeys` adds a new task; `thread_ends i` is the end of the thread of task
-- `i`.
pub data Op : Type 0 where
  add : Bool → Bool → Bool → Bool → Op
  restart : Spawns → Op
  stop_all terminate stop_last ask_stop : Op
  thread_ends : ℕ → Op

abbrev pub finish_at : Sources → ℕ → List Worker → List Worker
unfolding finish
finish_at asked i [] = []
finish_at asked zero (w ∷ ws) = finish asked w ∷ ws
finish_at asked (suc i) (w ∷ ws) = w ∷ finish_at asked i ws

abbrev pub with_no_drop : Option Manager → Option (List Worker × Manager)
with_no_drop none = none
with_no_drop (some m) = some ([], m)

-- The tasks that a call lets go, as they are when it does, and what it leaves. `none` is a call
-- that never comes back.
unfoldable pub perform : Op → Manager → Option (List Worker × Manager)
unfolding finish_at
perform (add spawns ready alone obeys) m =
    some (add_and_drop spawns (some (new_worker ready alone obeys)) m)
perform (restart spawns) m = some ([], restart_all_threads spawns m)
perform stop_all m = with_no_drop (stop_all_threads m)
perform terminate m = terminate_and_drop m
perform stop_last m = stop_last_and_drop m
perform ask_stop m = some ([], request_stop m)
perform (thread_ends i) m = some ([], record m { m_tasks = finish_at m.sources i m.m_tasks })

abbrev pub handed_in_by : Op → ℕ
handed_in_by (add spawns ready alone obeys) = 1
handed_in_by _ = 0

-- What calls in a row have done, up to their end or to the first that never comes back.
pub record Life : Type 0 where
  pub destroyed : List Worker
  pub handed_in : ℕ
  pub left : Manager

unfoldable pub life : List Op → Manager → Life
unfolding perform
life [] m = record { destroyed = []; handed_in = 0; left = m }
life (op ∷ ops) m = elim (perform op m) [
  | none ↦ record { destroyed = []; handed_in = 0; left = m }
  | some (gone, m') ↦
      let l = life ops m' in
      record {
        destroyed = gone ++ l.destroyed;
        handed_in = handed_in_by op + l.handed_in;
        left = l.left;
      }
]

finish_at-IsInStep :
    (asked : Sources) (i : ℕ) (ws : List Worker)
    → Each IsInStep ws
    → Each IsInStep (finish_at asked i ws) × (length (finish_at asked i ws) ≡ length ws)
unfolding finish_at
finish_at-IsInStep asked i [] v = (tt, refl)
finish_at-IsInStep asked zero (w ∷ ws) (v, vs) =
    (((operations-IsInStep asked true none w v).1, vs), refl)
finish_at-IsInStep asked (suc i) (w ∷ ws) (v, vs) =
    let (sound, n) = finish_at-IsInStep asked i ws vs in ((v, sound), ap suc n)

-- A call that comes back: what it destroys has ended, what stays is in step, and no task is lost.
abbrev IsDone : ℕ → Option (List Worker × Manager) → Type 0
IsDone n none = Unit
IsDone n (some (gone, m)) =
    Each HasEnded gone × Each IsInStep m.m_tasks × (length gone + length m.m_tasks ≡ n)

stop_all-IsDone :
    (m : Manager)
    → Each IsInStep m.m_tasks
    → IsDone (length m.m_tasks) (with_no_drop (stop_all_threads m))
      × IsDone (length m.m_tasks) (terminate_and_drop m)
unfolding stop_all_threads terminate_and_drop request_stop
stop_all-IsDone m v = by_tasks (join_tasks asked m.m_tasks) (join_all asked m.m_tasks v)
  where
    asked : Sources
    asked = (request_stop m).sources

    with_tasks : Option (List Worker) → Option Manager
    with_tasks r = elim r [
      | none ↦ none
      | some ws ↦ some (record (request_stop m) { m_tasks = ws })
    ]

    by_tasks :
        (r : Option (List Worker))
        → AreJoined (length m.m_tasks) r
        → IsDone (length m.m_tasks) (with_no_drop (with_tasks r))
          × IsDone
              (length m.m_tasks)
              (elim (with_tasks r) [ none ↦ none | some m' ↦ some (clear_tasks m') ])
    by_tasks none h = (tt, tt)
    by_tasks (some ws) (ended, sound, n) =
        ((tt, sound, omega (arith, n)), (ended, tt, omega (arith, n)))

stop_last-IsDone :
    (m : Manager) → Each IsInStep m.m_tasks → IsDone (length m.m_tasks) (stop_last_and_drop m)
unfolding stop_and_wait
stop_last-IsDone m v = by_split (unsnoc m.m_tasks) refl (unsnoc-IsSplit m.m_tasks v)
  where
    by_stop :
        (ws : List Worker) (w : Worker)
        → unsnoc m.m_tasks ≡ some (ws, w)
        → IsSplit m.m_tasks (some (ws, w))
        → (r : Option Worker) → stop_and_wait m.sources w ≡ r
        → IsDone (length m.m_tasks) (stop_last_and_drop m)
    by_stop ws w e split none f = rw (stop_last_hangs m ws w e f) tt
    by_stop ws w e (sound, last, n) (some w') f =
        let stopping = (operations-IsInStep m.sources true none w last).2 in
        rw (stop_last_eq m ws w w' e f)
          ((join-HasEnded m.sources (stop w) w' stopping f, tt), sound, omega (arith, n))

    by_split :
        (r : Option (List Worker × Worker))
        → unsnoc m.m_tasks ≡ r
        → IsSplit m.m_tasks r
        → IsDone (length m.m_tasks) (stop_last_and_drop m)
    by_split none e split = rw (stop_last_none m e) (tt, v, omega arith)
    by_split (some (ws, w)) e split = by_stop ws w e split (stop_and_wait m.sources w) refl

add-IsDone :
    (spawns ready alone obeys : Bool) (m : Manager)
    → Each IsInStep m.m_tasks
    → IsDone (1 + length m.m_tasks) (perform (add spawns ready alone obeys) m)
unfolding perform add_and_drop start
add-IsDone true true alone obeys m v =
    let w = (start true (some m.m_stop_source) (new_worker true alone obeys)).1 in
    (
      tt,
      Each-append IsInStep m.m_tasks (w ∷ []) v (
        (operations-IsInStep m.sources true (some m.m_stop_source) (new_worker true alone obeys)
            (new-IsInStep true alone obeys)).0,
        tt,
      ),
      omega (arith, length-append m.m_tasks (w ∷ [])),
    )
add-IsDone true false alone obeys m v = ((record { idle = refl; joined = refl }, tt), v, refl)
add-IsDone false true alone obeys m v = ((record { idle = refl; joined = refl }, tt), v, refl)
add-IsDone false false alone obeys m v = ((record { idle = refl; joined = refl }, tt), v, refl)

perform-IsDone :
    (op : Op) (m : Manager)
    → Each IsInStep m.m_tasks
    → IsDone (handed_in_by op + length m.m_tasks) (perform op m)
unfolding perform restart_all_threads request_stop
perform-IsDone (add spawns ready alone obeys) m v = add-IsDone spawns ready alone obeys m v
perform-IsDone (restart spawns) m v =
    let (sound, n) = restart_tasks-IsInStep spawns m.unused m.m_tasks v in
    (tt, sound, omega (arith, n))
perform-IsDone stop_all m v =
    subst (λ n. IsDone n (with_no_drop (stop_all_threads m))) (omega arith) (stop_all-IsDone m v).0
perform-IsDone terminate m v =
    subst (λ n. IsDone n (terminate_and_drop m)) (omega arith) (stop_all-IsDone m v).1
perform-IsDone stop_last m v =
    subst (λ n. IsDone n (stop_last_and_drop m)) (omega arith) (stop_last-IsDone m v)
perform-IsDone ask_stop m v = (tt, v, omega arith)
perform-IsDone (thread_ends i) m v =
    let (sound, n) = finish_at-IsInStep m.sources i m.m_tasks v in (tt, sound, omega (arith, n))

-- No thread outlives its task. On a manager whose tasks have `m_running` in step with their
-- threads, whatever calls are made, on tasks whose functions heed a stop request or do not, with
-- threads that end in between: each task that a call lets go is then not running and its thread has
-- been joined; and up to the end, or to a call that never comes back, the tasks that were let go
-- and those that are managed are together as many as those at the start and those handed in.
pub destroyed-HasEnded :
    (ops : List Op) (m : Manager)
    → Each IsInStep m.m_tasks
    → let l = life ops m in
      Each HasEnded l.destroyed
      × (length l.destroyed + length l.left.m_tasks ≡ l.handed_in + length m.m_tasks)
unfolding life
destroyed-HasEnded [] m v = (tt, refl)
destroyed-HasEnded (op ∷ ops) m v =
    by_call (perform op m) (perform-IsDone op m v) (λ m'. destroyed-HasEnded ops m')
  where
    by_call :
        (r : Option (List Worker × Manager))
        → IsDone (handed_in_by op + length m.m_tasks) r
        → ((m' : Manager)
            → Each IsInStep m'.m_tasks
            → Each HasEnded (life ops m').destroyed
              × (length (life ops m').destroyed + length (life ops m').left.m_tasks
                  ≡ (life ops m').handed_in + length m'.m_tasks))
        → let l : Life = elim r [
          | none ↦ record { destroyed = []; handed_in = 0; left = m }
          | some (gone, m') ↦
              let l' = life ops m' in
              record {
                destroyed = gone ++ l'.destroyed;
                handed_in = handed_in_by op + l'.handed_in;
                left = l'.left;
              }
        ] in
          Each HasEnded l.destroyed
          × (length l.destroyed + length l.left.m_tasks ≡ l.handed_in + length m.m_tasks)
    by_call none h later = (tt, refl)
    by_call (some (gone, m')) (ended, sound, n) later =
        let (all_ended, count) = later m' sound in
        (
          Each-append HasEnded gone (life ops m').destroyed ended all_ended,
          omega (arith, length-append gone (life ops m').destroyed, n, count),
        )
