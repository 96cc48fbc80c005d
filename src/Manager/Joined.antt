-- ===== src/Manager/Joined.antt =====
-- The loops over the tasks of src/include/threadManager.hpp, on tasks whose `m_running` is in step
-- with their threads.
use boilerplate_thread_messa.Prelude.{
  ℕ, suc, ◌≡◌, refl, ap, inl, inr, false, Option, none, some, List, [], ◌∷◌, ◌++◌, length, arith,
  Bool-cases,
}
use boilerplate_thread_messa.Worker.{Sources, Worker, is_running, join}
use boilerplate_thread_messa.Worker.Lifecycle.{IsInStep, operations-IsInStep, join-IsInStep}
use boilerplate_thread_messa.Manager.{Spawns, restart_tasks, restart_task, join_tasks, unsnoc}
use boilerplate_thread_messa.Manager.Cycle.{Each}

pub record HasEnded (w : Worker) : Type 0 where
  pub idle : w.m_running ≡ false
  pub joined : w.m_thread.joinable ≡ false

pub Each-append :
    (P : Worker → Type 0) (ws vs : List Worker) → Each P ws → Each P vs → Each P (ws ++ vs)
Each-append P [] vs p q = q
Each-append P (w ∷ ws) vs (p, ps) q = (p, Each-append P ws vs ps q)

pub join-HasEnded :
    (asked : Sources) (w w' : Worker) → IsInStep w → join asked w ≡ some w' → HasEnded w'
unfolding join
join-HasEnded asked w w' v e = record { idle = ground (arith, v.live); joined = ground arith }

-- `n` tasks that have been joined, if the joins come back.
abbrev pub AreJoined : ℕ → Option (List Worker) → Type 0
AreJoined n none = Unit
AreJoined n (some ws) = Each HasEnded ws × Each IsInStep ws × (length ws ≡ n)

pub join_all :
    (asked : Sources) (ws : List Worker)
    → Each IsInStep ws
    → AreJoined (length ws) (join_tasks asked ws)
unfolding join_tasks
join_all asked [] v = (tt, tt, refl)
join_all asked (w ∷ ws) (v, vs) = first (join_all asked ws vs) (join asked w) refl
  where
    rest :
        (w' : Worker) (r : Option (List Worker))
        → HasEnded w' × IsInStep w'
        → AreJoined (length ws) r
        → AreJoined (suc (length ws)) (elim r [ none ↦ none | some ws' ↦ some (w' ∷ ws') ])
    rest w' none h k = tt
    rest w' (some ws') (ended, sound) (all_ended, all_sound, n) =
        ((ended, all_ended), (sound, all_sound), ap suc n)

    first :
        AreJoined (length ws) (join_tasks asked ws)
        → (r : Option Worker) → join asked w ≡ r
        → AreJoined (suc (length ws)) (elim r [
          | none ↦ none
          | some w' ↦ elim (join_tasks asked ws) [ none ↦ none | some ws' ↦ some (w' ∷ ws') ]
        ])
    first others none e = tt
    first others (some w') e =
        rest w' (join_tasks asked ws) (join-HasEnded asked w w' v e, join-IsInStep asked w w' v e)
          others

abbrev pub IsSplit : List Worker → Option (List Worker × Worker) → Type 0
IsSplit ws none = ws ≡ []
IsSplit ws (some (vs, v)) = Each IsInStep vs × IsInStep v × (length ws ≡ suc (length vs))

pub unsnoc-IsSplit : (ws : List Worker) → Each IsInStep ws → IsSplit ws (unsnoc ws)
unfolding unsnoc
unsnoc-IsSplit [] v = refl
unsnoc-IsSplit (w ∷ ws) (v, vs) = by_rest (unsnoc ws) (unsnoc-IsSplit ws vs)
  where
    by_rest :
        (r : Option (List Worker × Worker))
        → IsSplit ws r
        → IsSplit (w ∷ ws) (elim r [ none ↦ some ([], w) | some (us, u) ↦ some (w ∷ us, u) ])
    by_rest none e = (tt, v, ap (λ l. suc (length l)) e)
    by_rest (some (us, u)) (sound, last, n) = ((v, sound), last, ap suc n)

pub restart_tasks-IsInStep :
    (spawns : Spawns) (i : ℕ) (ws : List Worker)
    → Each IsInStep ws
    → Each IsInStep (restart_tasks spawns i ws) × (length (restart_tasks spawns i ws) ≡ length ws)
unfolding restart_tasks restart_task
restart_tasks-IsInStep spawns i [] v = (tt, refl)
restart_tasks-IsInStep spawns i (w ∷ ws) (v, vs) =
    let (sound, n) = restart_tasks-IsInStep (λ j. spawns (suc j)) i ws vs in
    let started = (operations-IsInStep (λ j. false) (spawns 0) (some i) w v).0 in
    ((elim (Bool-cases (is_running w)) [ inl e ↦ rw e v | inr e ↦ rw e started ], sound), ap suc n)
