-- ===== src/Program/Leaving.antt =====
-- A `return` from `main` of src/src/main.cpp: the destructor of the thread manager.
use boilerplate_thread_messa.Prelude.{ℕ, ◌≡◌, refl, sym, subst, false, some, []}
use boilerplate_thread_messa.Worker.Lifecycle.{IsSound, stop_and_wait_lem}
use boilerplate_thread_messa.Manager.{Manager, stop_manager, request_stop, terminate_all_threads}
use boilerplate_thread_messa.Manager.Cycle.{IsManaged}
use boilerplate_thread_messa.Manager.Keeps.{request_stop-IsManaged, stop_all-IsManaged}
use boilerplate_thread_messa.Program.{Program, Progress, left_loop, in_loop, hung, shut_down}
use boilerplate_thread_messa.Program.CommandLine.{exit_success}
use boilerplate_thread_messa.Program.Loop.{IsAlive, IsLeft}
use boilerplate_thread_messa.Program.Main.{
  Outcome, ended, still_running, never_ends, destroy_manager, leave, end_of_main,
}

-- The process runs on, or it has ended with no thread left.
abbrev pub IsSettled : Outcome → Type 0
IsSettled (ended code m) = (m.m_tasks ≡ []) × (m.worker.m_running ≡ false)
IsSettled (still_running p) = Unit
IsSettled never_ends = ⊥

-- The process has ended with no thread left.
abbrev pub IsEnded : Outcome → Type 0
IsEnded (ended code m) = (m.m_tasks ≡ []) × (m.worker.m_running ≡ false)
IsEnded _ = ⊥

pub ended-IsSettled : (o : Outcome) → IsEnded o → IsSettled o
ended-IsSettled (ended code m) h = h
ended-IsSettled (still_running p) h = tt
ended-IsSettled never_ends h = h

stop_manager_lem :
    {m : Manager}
    → IsManaged m
    → IsSound m.worker
    → (m' : Manager) × (stop_manager m ≡ some m')
      × IsManaged m'
      × IsSound m'.worker
      × (m'.m_tasks ≡ m.m_tasks)
      × (m'.worker.m_running ≡ false)
unfolding stop_manager
stop_manager_lem {m} v s =
    let (w, e, idle, joined, sound) = stop_and_wait_lem m.sources m.worker s in
    (
      record m { worker = w },
      rw (e, stop_manager) refl,
      record { tasks = v.tasks; created = v.created; untouched = v.untouched },
      sound,
      refl,
      idle,
    )

-- A `return` from `main` with managed threads comes to its end.
leave_lem :
    (code : ℕ) {m : Manager}
    → IsManaged m
    → IsSound m.worker
    → (m' : Manager) × (leave code m ≡ ended code m')
      × (m'.m_tasks ≡ [])
      × (m'.worker.m_running ≡ false)
unfolding leave destroy_manager terminate_all_threads
leave_lem code {m} v s =
    let (m1, e1, v1, stopped, own) = stop_all-IsManaged v in
    let (m2, e2, v2, s2, none_left, idle) =
      stop_manager_lem {m = record m1 { m_tasks = [] }}
        (record { tasks = tt; created = v1.created; untouched = v1.untouched }) (rw own s) in
    (m2, rw (e1, leave) (rw (e2, leave) refl), none_left, idle)

pub leave-IsEnded :
    (code : ℕ) {m : Manager} → IsManaged m → IsSound m.worker → IsEnded (leave code m)
leave-IsEnded code v s =
    let (m, e, none_left, idle) = leave_lem code v s in subst IsEnded (sym e) (none_left, idle)

left_lem :
    (p : Program) (m : Manager)
    → stop_manager (request_stop p.manager) ≡ some m
    → end_of_main (left_loop p) ≡ leave exit_success m
unfolding end_of_main shut_down
left_lem p m e = rw (e, end_of_main) refl

pub left-IsEnded : (r : Progress) → IsLeft r → IsEnded (end_of_main r)
unfolding end_of_main request_stop
left-IsEnded (left_loop p) (idle, c) =
    let (m, e, v, s, same, stopped) =
      stop_manager_lem (request_stop-IsManaged c.managed) c.own_thread in
    subst IsEnded (sym (left_lem p m e)) (leave-IsEnded exit_success v s)
left-IsEnded (in_loop p) h = absurd h
left-IsEnded hung h = h

pub end-IsSettled : (r : Progress) → IsAlive r → IsSettled (end_of_main r)
unfolding end_of_main
end-IsSettled (in_loop p) h = tt
end-IsSettled hung h = h
end-IsSettled (left_loop p) h =
    ended-IsSettled (end_of_main (left_loop p)) (left-IsEnded (left_loop p) h)
