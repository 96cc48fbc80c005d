-- ===== src/Task/Starting.antt =====
-- Starting a task of src/include/taskBase.hpp, alone and by `addTask` of
-- src/include/threadManager.hpp.
use boilerplate_thread_messa.Prelude.{
  ℕ, suc, ◌≡◌, refl, ap, ◌∙◌, Bool, true, false, ◌&&◌, ◌||◌, ◌⊎◌, inl, inr, Bool-cases,
  if◌then◌else◌, length-append, Option, none, some, List, [], ◌∷◌, ◌++◌, arith,
}
use boilerplate_thread_messa.Worker.{Worker, Sources, new_worker, start, is_running, stop_and_wait}
use boilerplate_thread_messa.Worker.Lifecycle.{
  IsInStep, new-IsInStep, operations-IsInStep, IsSound, new-IsSound, operations-IsSound,
  stop_and_wait_lem, stop_and_wait_hangs,
}
use boilerplate_thread_messa.Manager.{
  Manager, add_task, add_lambda_task, stop_last_thread, stop_last_and_drop, manager_of, unsnoc,
  get_thread_count,
}
use boilerplate_thread_messa.Manager.Hang.{unsnoc-snoc, stop_last_eq, stop_last_hangs}
use boilerplate_thread_messa.Manager.Joined.{HasEnded}
use boilerplate_thread_messa.Task.{
  RunFunction, OnMessageFunction, new_task, is_ready_to_start, start_task,
}

manager_of-if :
    (b : Bool) (gone : List Worker) (m : Manager)
    → manager_of (if b then some (gone, m) else none) ≡ (if b then some m else none)
manager_of-if true gone m = refl
manager_of-if false gone m = refl

-- `stopLastThread` on a last task that runs.
stop_added :
    (m : Manager) (ws : List Worker) (w : Worker)
    → m.m_tasks ≡ ws ++ (w ∷ [])
    → IsInStep w
    → w.m_thread.joinable ≡ true
    → w.m_thread.returned ≡ false
    → (v : Worker) × HasEnded v
      × (stop_last_and_drop m
          ≡ (if w.ends_alone || w.obeys then some (v ∷ [], record m { m_tasks = ws }) else none))
stop_added m ws w e step open_thread running = elim (Bool-cases (w.ends_alone || w.obeys)) [
  | inl h ↦
      let sound : IsSound w = record { live = step.live; dead = step.dead; heeds = h } in
      let (v, stopped, idle, joined, _) = stop_and_wait_lem m.sources w sound in
      (
        v,
        record { idle = idle; joined = joined },
        rw h (stop_last_eq m ws w v (ap unsnoc e ∙ unsnoc-snoc ws w) stopped),
      )
  | inr h ↦ (
    new_worker true true true,
    record { idle = refl; joined = refl },
    rw h (
        stop_last_hangs m ws w (ap unsnoc e ∙ unsnoc-snoc ws w)
          (stop_and_wait_hangs m.sources w open_thread running h)),
  )
]

module _ {ℓ κ} {Token : Type 0} {M : Type ℓ} {S : Type κ} where
  -- A new task starts exactly if it has a function to run and the thread can be created; a second
  -- start is refused then, and changes nothing; and in either case `stopAndWait` comes back with
  -- the task not running, if the function comes back at the latest on a stop request.
  task_life :
      (spawns alone obeys : Bool) (i : ℕ) (f : Option (RunFunction Token M S))
      (g : Option (OnMessageFunction M S)) (external : Option ℕ) (asked : Sources)
      → (alone || obeys) ≡ true
      → let (ok, t) = start_task spawns external (new_task alone obeys i f g) in
        (ok ≡ (is_ready_to_start f && spawns))
        × (is_running t.worker ≡ (is_ready_to_start f && spawns))
        × (start_task spawns external t ≡ (false, t))
        × ((w : Worker) × (stop_and_wait asked t.worker ≡ some w) × (is_running w ≡ false))
  unfolding start_task new_task start is_running is_ready_to_start
  task_life spawns alone obeys i none g external asked h =
      let (w, e, idle, _, _) = stop_and_wait_lem asked _ (new-IsSound false alone obeys h) in
      (refl, refl, refl, (w, e, idle))
  task_life true alone obeys i (some f) g external asked h =
      let (w, e, idle, _, _) =
        stop_and_wait_lem asked _
          (operations-IsSound asked true external _ (new-IsSound true alone obeys h)).0 in
      (refl, refl, refl, (w, e, idle))
  task_life false alone obeys i (some f) g external asked h =
      let (w, e, idle, _, _) =
        stop_and_wait_lem asked _
          (operations-IsSound asked false external _ (new-IsSound true alone obeys h)).0 in
      (refl, refl, refl, (w, e, idle))

  -- `addTask` of a function adds one task exactly if the function is not empty and the thread can
  -- be created, and otherwise changes nothing. Where it does, `stopLastThread` right behind it comes
  -- back exactly if the function ends by itself or heeds a stop request: it then lets go of that
  -- task alone, which is not running any more and has been joined, and restores the manager. If the
  -- function does neither, the call never comes back.
  pub add_then_stop_last :
      (spawns alone obeys : Bool) (f : Option (RunFunction Token M S)) (m : Manager)
      → let m' = add_lambda_task spawns (is_ready_to_start f) alone obeys m in
        ((is_ready_to_start f && spawns ≡ true)
          × (get_thread_count m' ≡ suc (get_thread_count m))
          × (stop_last_thread m' ≡ (if alone || obeys then some m else none))
          × ((w : Worker) × HasEnded w
              × (stop_last_and_drop m' ≡ (if alone || obeys then some (w ∷ [], m) else none))))
        ⊎ ((is_ready_to_start f && spawns ≡ false) × (m' ≡ m))
  unfolding add_lambda_task add_task start get_thread_count is_ready_to_start stop_last_thread
  add_then_stop_last spawns alone obeys none m = inr (refl, refl)
  add_then_stop_last false alone obeys (some f) m = inr (refl, refl)
  add_then_stop_last true alone obeys (some f) m =
      let w = (start true (some m.m_stop_source) (new_worker true alone obeys)).1 in
      let (v, ended, e) =
        stop_added (record m { m_tasks = m.m_tasks ++ (w ∷ []) }) m.m_tasks w refl
          (operations-IsInStep m.sources true (some m.m_stop_source) (new_worker true alone obeys)
            (new-IsInStep true alone obeys)).0
          refl refl in
      inl (
        refl,
        omega (arith, length-append m.m_tasks (w ∷ [])),
        ap manager_of e ∙ manager_of-if (alone || obeys) (v ∷ []) m,
        (v, ended, e),
      )
