-- ===== src/Manager/Cycle.antt =====
-- Stopping and restarting the threads of src/include/threadManager.hpp.
use boilerplate_thread_messa.Prelude.{
  ℕ, suc, ◌<◌, ◌≤◌, ◌≡◌, ◌≢◌, refl, ap, ◌∙◌, inl, inr, true, false, ◌||◌, some, List, [], ◌∷◌,
  length, arith, Bool-cases,
}
use boilerplate_thread_messa.Worker.{Sources, Worker, start, join, is_running}
use boilerplate_thread_messa.Worker.Lifecycle.{IsSound}
use boilerplate_thread_messa.Manager.{
  Manager, all_spawn, request, request_stop, restart_task, restart_tasks, restart_all_threads,
  join_tasks, stop_all_threads, get_thread_count,
}

abbrev pub Each : (Worker → Type 0) → List Worker → Type 0
Each P [] = Unit
Each P (w ∷ ws) = P w × Each P ws

-- A managed task: if it runs, its token is the one of the source `i`.
pub record IsLinked (i : ℕ) (w : Worker) : Type 0 where
  pub sound : IsSound w
  pub ready : w.is_ready ≡ true
  pub linked : w.m_running ≡ true → w.m_thread.external_token ≡ some i

pub record IsStopped (w : Worker) : Type 0 where
  pub idle : w.m_running ≡ false
  pub joined : w.m_thread.joinable ≡ false
  pub again : w.is_ready ≡ true
  pub heeds : (w.ends_alone || w.obeys) ≡ true

-- A task that runs under the source `i`, and that nobody has asked to stop in person.
pub record IsLive (i : ℕ) (w : Worker) : Type 0 where
  pub runs : w.m_running ≡ true
  pub open_thread : w.m_thread.joinable ≡ true
  pub not_returned : w.m_thread.returned ≡ false
  pub not_asked : w.m_thread.requested ≡ false
  pub token : w.m_thread.external_token ≡ some i

pub record IsManaged (m : Manager) : Type 0 where
  pub tasks : Each (IsLinked m.m_stop_source) m.m_tasks
  pub created : m.m_stop_source < m.unused
  pub untouched : (i : ℕ) → m.unused ≤ i → m.sources i ≡ false

-- What a stop leaves behind.
abbrev pub AllStopped : List Worker → Type 0
AllStopped = Each IsStopped

join_linked :
    (asked : Sources) (i : ℕ) (w : Worker)
    → asked i ≡ true
    → IsLinked i w
    → (w' : Worker) × (join asked w ≡ some w') × IsStopped w'
unfolding join
join_linked asked i w hit v = elim (Bool-cases w.m_thread.joinable) [
  | inl j ↦ (
    record w {
      m_running = false;
      m_thread = record (w.m_thread) { joinable = false; returned = true };
    },
    elim (Bool-cases w.m_running) [
      | inl r ↦ ground (arith, v.linked r, v.sound.heeds, hit)
      | inr r ↦ ground (arith, v.sound.dead r)
    ],
    record { idle = refl; joined = refl; again = v.ready; heeds = v.sound.heeds },
  )
  | inr idle ↦ (
    w,
    ground arith,
    record {
      idle = ground (arith, v.sound.live);
      joined = idle;
      again = v.ready;
      heeds = v.sound.heeds;
    },
  )
]

join_tasks-cons :
    (asked : Sources) (w w' : Worker) (ws ws' : List Worker)
    → join asked w ≡ some w'
    → join_tasks asked ws ≡ some ws'
    → join_tasks asked (w ∷ ws) ≡ some (w' ∷ ws')
unfolding join_tasks
join_tasks-cons asked w w' ws ws' e es = ground arith

pub stop_all_eq :
    (m : Manager) (ws : List Worker)
    → join_tasks (request m.m_stop_source m.sources) m.m_tasks ≡ some ws
    → stop_all_threads m
      ≡ some (record m { sources = request m.m_stop_source m.sources; m_tasks = ws })
unfolding stop_all_threads request_stop
stop_all_eq m ws e = rw (e, stop_all_threads)

pub request_self : (i : ℕ) (asked : Sources) → request i asked i ≡ true
request_self i asked = ground arith

pub join_tasks_linked :
    (asked : Sources) (i : ℕ) (ws : List Worker)
    → asked i ≡ true
    → Each (IsLinked i) ws
    → (ws' : List Worker) × (join_tasks asked ws ≡ some ws')
      × AllStopped ws'
      × (length ws' ≡ length ws)
unfolding join_tasks
join_tasks_linked asked i [] hit v = ([], refl, tt, refl)
join_tasks_linked asked i (w ∷ ws) hit (v, vs) =
    let (w', e, s) = join_linked asked i w hit v in
    let (ws', es, ss, n) = join_tasks_linked asked i ws hit vs in
    (w' ∷ ws', join_tasks-cons asked w w' ws ws' e es, (s, ss), ap suc n)

pub stopped-IsLinked : (i : ℕ) (ws : List Worker) → AllStopped ws → Each (IsLinked i) ws
stopped-IsLinked i [] v = tt
stopped-IsLinked i (w ∷ ws) (v, vs) = (
  record {
    sound = record { live = ground (arith, v.idle); dead = λ e. inl v.joined; heeds = v.heeds };
    ready = v.again;
    linked = ground (arith, v.idle);
  },
  stopped-IsLinked i ws vs,
)

restart_task-IsLive :
    (i : ℕ) (w : Worker)
    → IsStopped w
    → IsLive i (restart_task true i w) × IsLinked i (restart_task true i w)
unfolding restart_task start is_running
restart_task-IsLive i w v = (
  record {
    runs = ground (arith, v.idle, v.again);
    open_thread = ground (arith, v.idle, v.again);
    not_returned = ground (arith, v.idle, v.again);
    not_asked = ground (arith, v.idle, v.again);
    token = ground (arith, v.idle, v.again);
  },
  record {
    sound = record {
      live = ground (arith, v.idle, v.again);
      dead = ground (arith, v.idle, v.again);
      heeds = ground (arith, v.idle, v.again, v.heeds);
    };
    ready = ground (arith, v.idle, v.again);
    linked = ground (arith, v.idle, v.again);
  },
)

restart_tasks-IsLive :
    (i : ℕ) (ws : List Worker)
    → AllStopped ws
    → Each (IsLive i) (restart_tasks all_spawn i ws)
      × Each (IsLinked i) (restart_tasks all_spawn i ws)
      × (length (restart_tasks all_spawn i ws) ≡ length ws)
unfolding restart_tasks
restart_tasks-IsLive i [] v = (tt, tt, refl)
restart_tasks-IsLive i (w ∷ ws) (v, vs) =
    let (l, k) = restart_task-IsLive i w v in
    let (ls, ks, n) = restart_tasks-IsLive i ws vs in ((l, ls), (k, ks), ap suc n)

-- `stopAllThreads` comes back, on a manager whose running tasks hold the current source's token:
-- all tasks have then ended and been joined, and none is lost. `restartAllThreads` then runs all of
-- them again under a source that is another one and has not been asked to stop, and the manager is managed as before.
pub stop_all_then_restart :
    (m : Manager)
    → IsManaged m
    → (m' : Manager) × (stop_all_threads m ≡ some m')
      × AllStopped m'.m_tasks
      × (get_thread_count m' ≡ get_thread_count m)
      × (let m'' = restart_all_threads all_spawn m' in
          Each (IsLive m''.m_stop_source) m''.m_tasks
          × (get_thread_count m'' ≡ get_thread_count m)
          × (m''.sources m''.m_stop_source ≡ false)
          × (m''.m_stop_source ≢ m.m_stop_source)
          × IsManaged m'')
unfolding stop_all_threads restart_all_threads get_thread_count request_stop
stop_all_then_restart m v =
    let asked : Sources = request m.m_stop_source m.sources in
    let (ws, e, stopped, n) =
      join_tasks_linked asked m.m_stop_source m.m_tasks (request_self m.m_stop_source m.sources)
        v.tasks in
    let (live, linked, n') = restart_tasks-IsLive m.unused ws stopped in
    (
      record m { sources = asked; m_tasks = ws },
      stop_all_eq m ws e,
      stopped,
      n,
      (
        live,
        n' ∙ n,
        ground (arith, v.untouched m.unused, v.created),
        λ e. omega (arith, e, v.created),
        record {
          tasks = linked;
          created = omega arith;
          untouched = λ i h. ground (arith, v.untouched i, v.created);
        },
      ),
    )
