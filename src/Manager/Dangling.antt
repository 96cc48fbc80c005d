-- ===== src/Manager/Dangling.antt =====
-- Which tasks of the chain are still there. A sender keeps a plain pointer to the queue of another
-- task; in src/include/threadManager.hpp the pointers in `m_tasks` and the handle
-- `m_observerIncoming` keep the tasks alive.
use boilerplate_thread_messa.Prelude.{
  ℕ, zero, suc, Bool, true, false, not, ◌&&◌, ◌||◌, ◌==◌, Option, none, some, List, [], ◌∷◌,
}
use boilerplate_thread_messa.Worker.{Worker, start}
use boilerplate_thread_messa.Manager.{
  Manager, all_spawn, new_manager, chain_task, init_test_chain, stop_last_thread,
}

-- Who holds a sender to whom.
abbrev pub links : List (ℕ × ℕ)
links = (0, 1) ∷ (0, 2) ∷ (1, 2) ∷ (1, 0) ∷ (2, 3) ∷ (3, 4) ∷ []

abbrev pub contains : ℕ → List Worker → Bool
contains i [] = false
contains i (w ∷ ws) = i == w.number || contains i ws

abbrev pub has_handle : Manager → Bool
has_handle m = elim (m.m_observer_incoming) [ none ↦ false | some r ↦ true ]

-- The handle is for the event maker.
abbrev pub is_there : ℕ → Manager → Bool
is_there i m = contains i m.m_tasks || (i == 0 && has_handle m)

-- Every task of the manager has its senders on tasks that are still there.
abbrev pub all_lead : List (ℕ × ℕ) → Manager → Bool
all_lead [] m = true
all_lead ((i, j) ∷ ls) m = (not (contains i m.m_tasks) || is_there j m) && all_lead ls m

-- `stopLastThread`, so many times.
unfoldable pub stop_last_times : ℕ → Manager → Option Manager
unfolding stop_last_thread
stop_last_times zero m = some m
stop_last_times (suc n) m = elim (stop_last_thread m) [
  | none ↦ none
  | some m' ↦ stop_last_times n m'
]

-- The manager with the whole chain running.
abbrev pub chain : Manager
chain = init_test_chain all_spawn new_manager

-- A task of the chain as it runs.
abbrev live_task : ℕ → Worker
live_task i = (start true (some 0) (chain_task i)).1

abbrev left_with : List Worker → Manager
left_with ws = record chain { m_tasks = ws }
