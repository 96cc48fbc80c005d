-- ===== src/Manager/Setup.antt =====
-- Adding tasks to the manager of src/include/threadManager.hpp.
use boilerplate_thread_messa.Prelude.{
  ℕ, ◌+◌, ◌≡◌, refl, Bool, true, false, some, List, [], ◌∷◌, ◌++◌, length-append, arith,
  if◌then◌else◌, inl,
}
use boilerplate_thread_messa.Worker.{Worker, start}
use boilerplate_thread_messa.Manager.{
  Manager, Spawns, chain_task, add_task, init_test_chain, get_thread_count,
}
use boilerplate_thread_messa.Manager.Cycle.{Each, IsLinked, IsManaged}

Each-append :
    (P : Worker → Type 0) (ws : List Worker) (w : Worker)
    → Each P ws
    → P w
    → Each P (ws ++ (w ∷ []))
Each-append P [] w h p = (p, tt)
Each-append P (v ∷ ws) w (q, h) p = (q, Each-append P ws w h p)

started-IsLinked : (spawns : Bool) (i n : ℕ) → IsLinked i (start spawns (some i) (chain_task n)).1
unfolding start
started-IsLinked true i n = record {
  sound = record { live = λ e. (refl, refl); dead = λ e. cc; heeds = refl };
  ready = refl;
  linked = λ e. refl;
}
started-IsLinked false i n = record {
  sound = record { live = λ e. cc; dead = λ e. inl refl; heeds = refl };
  ready = refl;
  linked = λ e. cc;
}

add_chain_task :
    (spawns : Bool) (n : ℕ) (m : Manager)
    → IsManaged m
    → IsManaged (add_task spawns (some (chain_task n)) m)
      × (get_thread_count (add_task spawns (some (chain_task n)) m)
          ≡ get_thread_count m + (if spawns then 1 else 0))
unfolding add_task start get_thread_count
add_chain_task true n m v = (
  record {
    tasks =
        Each-append (IsLinked m.m_stop_source) m.m_tasks _ v.tasks
          (started-IsLinked true m.m_stop_source n);
    created = v.created;
    untouched = v.untouched;
  },
  length-append m.m_tasks _,
)
add_chain_task false n m v = (v, omega arith)

-- One, for a thread that can be created.
abbrev pub one_if : Bool → ℕ
one_if b = if b then 1 else 0

-- `initTestChain` on a managed manager adds one task for each of the five threads that can be
-- created; the manager stays managed.
pub init_test_chain_lem :
    (spawns : Spawns) (m : Manager)
    → IsManaged m
    → IsManaged (init_test_chain spawns m)
      × (get_thread_count (init_test_chain spawns m)
          ≡ get_thread_count m
            + one_if (spawns 0)
            + one_if (spawns 1)
            + one_if (spawns 2)
            + one_if (spawns 3)
            + one_if (spawns 4))
unfolding init_test_chain get_thread_count
init_test_chain_lem spawns m v =
    let (v1, n1) =
      add_chain_task (spawns 0) 0 _
        (record { tasks = v.tasks; created = v.created; untouched = v.untouched }) in
    let (v2, n2) = add_chain_task (spawns 1) 1 _ v1 in
    let (v3, n3) = add_chain_task (spawns 2) 2 _ v2 in
    let (v4, n4) = add_chain_task (spawns 3) 3 _ v3 in
    let (v5, n5) = add_chain_task (spawns 4) 4 _ v4 in (v5, omega (arith, n1, n2, n3, n4, n5))
