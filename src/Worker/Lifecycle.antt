-- ===== src/Worker/Lifecycle.antt =====
-- Starting, stopping and joining one worker of src/include/workerBase.hpp.
use boilerplate_thread_messa.Prelude.{
  ℕ, ◌≡◌, refl, ◌↔◌, ◌⊎◌, ◌||◌, inl, inr, Bool, true, false, Option, none, some, arith, Bool-cases,
  if◌then◌else◌,
}
use boilerplate_thread_messa.Worker.{
  Sources, Worker, new_worker, start, can_return, finish, stop, join, stop_and_wait,
}

-- `m_running` is true exactly while there is a thread that has not returned.
pub record IsInStep (w : Worker) : Type 0 where
  pub live : w.m_running ≡ true → (w.m_thread.joinable ≡ true) × (w.m_thread.returned ≡ false)
  pub dead : w.m_running ≡ false → (w.m_thread.joinable ≡ false) ⊎ (w.m_thread.returned ≡ true)

-- A worker in step with its thread whose `run` comes back at the latest on a stop request.
pub record IsSound (w : Worker) : Type 0 where
  pub live : w.m_running ≡ true → (w.m_thread.joinable ≡ true) × (w.m_thread.returned ≡ false)
  pub dead : w.m_running ≡ false → (w.m_thread.joinable ≡ false) ⊎ (w.m_thread.returned ≡ true)
  pub heeds : (w.ends_alone || w.obeys) ≡ true

pub new-IsInStep : (ready alone obeys : Bool) → IsInStep (new_worker ready alone obeys)
new-IsInStep ready alone obeys = record { live = λ e. cc; dead = λ e. inl refl }

pub new-IsSound :
    (ready alone obeys : Bool) → (alone || obeys) ≡ true → IsSound (new_worker ready alone obeys)
new-IsSound ready alone obeys h = record { live = λ e. cc; dead = λ e. inl refl; heeds = h }

pub operations-IsInStep :
    (asked : Sources) (spawns : Bool) (external : Option ℕ) (w : Worker)
    → IsInStep w
    → IsInStep (start spawns external w).1 × IsInStep (finish asked w) × IsInStep (stop w)
unfolding start finish stop
operations-IsInStep asked spawns external w v = (
  record { live = ground arith; dead = ground arith },
  record { live = ground arith; dead = ground arith },
  record { live = ground arith; dead = ground arith },
)

pub join-IsInStep :
    (asked : Sources) (w w' : Worker) → IsInStep w → join asked w ≡ some w' → IsInStep w'
unfolding join
join-IsInStep asked w w' v e = record { live = ground arith; dead = ground arith }

-- Every operation of a worker, and the end of its thread, keeps `m_running` in step with the
-- thread.
pub operations-IsSound :
    (asked : Sources) (spawns : Bool) (external : Option ℕ) (w : Worker)
    → IsSound w
    → IsSound (start spawns external w).1 × IsSound (finish asked w) × IsSound (stop w)
unfolding start finish stop
operations-IsSound asked spawns external w v = (
  record { live = ground arith; dead = ground arith; heeds = ground (arith, v.heeds) },
  record { live = ground arith; dead = ground arith; heeds = ground (arith, v.heeds) },
  record { live = ground arith; dead = ground arith; heeds = ground (arith, v.heeds) },
)

-- `start` either runs the worker on a fresh thread, with the token that was passed and no stop
-- request, and then it was ready, not running, and the thread could be created; or it returns
-- false, leaves the worker as it was, and one of the three fails.
pub start_lem :
    (spawns : Bool) (external : Option ℕ) (w : Worker)
    → let (ok, w') = start spawns external w in
      ((ok ≡ true)
        × ((w.is_ready ≡ true) × (w.m_running ≡ false) × (spawns ≡ true))
        × (w'.m_running ≡ true)
        × (w'.m_thread.requested ≡ false)
        × (w'.m_thread.external_token ≡ external))
      ⊎ ((ok ≡ false)
          × (w' ≡ w)
          × ((w.is_ready ≡ false) ⊎ ((w.m_running ≡ true) ⊎ (spawns ≡ false))))
unfolding start
start_lem spawns external w = ground arith

-- `stopAndWait` comes back on a sound worker, whatever it was doing and whatever token it got: the
-- thread has then ended and has been joined, and the worker is sound.
pub stop_and_wait_lem :
    (asked : Sources) (w : Worker)
    → IsSound w
    → (w' : Worker) × (stop_and_wait asked w ≡ some w')
      × (w'.m_running ≡ false)
      × (w'.m_thread.joinable ≡ false)
      × IsSound w'
unfolding stop_and_wait stop join
stop_and_wait_lem asked w v = elim (Bool-cases w.m_thread.joinable) [
  | inl j ↦ (
    record w {
      m_running = false;
      m_thread = record (w.m_thread) { joinable = false; requested = true; returned = true };
    },
    ground (arith, v.heeds),
    refl,
    refl,
    record { live = λ e. cc; dead = λ e. inl refl; heeds = v.heeds },
  )
  | inr idle ↦ (w, ground arith, ground (arith, v.live), idle, v)
]

-- `join` comes back exactly when there is nothing to wait for or the thread can end.
pub join_iff :
    (asked : Sources) (w : Worker)
    → ((w' : Worker) × (join asked w ≡ some w')) ↔ (
        (w.m_thread.joinable ≡ false)
        ⊎ ((w.m_thread.returned ≡ true) ⊎ (can_return asked w ≡ true)))
unfolding join
join_iff asked w = (
  λ (w', e). ground arith,
  λ may. (
    if w.m_thread.joinable
        then record w {
          m_running = false;
          m_thread = record (w.m_thread) { joinable = false; returned = true };
        }
        else w,
    ground arith,
  ),
)

-- `stopAndWait` never comes back on a running worker whose `run` neither ends by itself nor heeds a
-- stop request.
pub stop_and_wait_hangs :
    (asked : Sources) (w : Worker)
    → w.m_thread.joinable ≡ true
    → w.m_thread.returned ≡ false
    → (w.ends_alone || w.obeys) ≡ false
    → stop_and_wait asked w ≡ none
unfolding stop_and_wait stop join
stop_and_wait_hangs asked w open_thread running deaf = ground arith
