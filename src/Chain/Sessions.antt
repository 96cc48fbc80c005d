-- ===== src/Chain/Sessions.antt =====
-- The chain of src/include/testThreads.hpp over the restarts of its tasks. The counters of files
-- and of mirror events are locals of `run`; the queues, the links and the modes belong to the
-- tasks.
use boilerplate_thread_messa.Prelude.{
  ℕ, ◌≡◌, sym, ap, ◌∙◌, false, none, List, [], ◌∷◌, ◌++◌, append_assoc, append-nil,
}
use boilerplate_thread_messa.Prelude.Text.{Text}
use boilerplate_thread_messa.Chain.Flow.{Chain, Step, fresh, Reach, here, later}
use boilerplate_thread_messa.Chain.Works.{names_printed}
use boilerplate_thread_messa.Chain.Delivery.{Inv, Step-Inv, fresh-Inv, file_names, under_way}

-- No task is in the middle of a pass.
pub record IsIdle (s : Chain) : Type 0 where
  pub incoming_idle : s.hand_incoming ≡ none
  pub direct_sent : s.direct_due ≡ false
  pub app_idle : s.hand_app ≡ none
  pub processing_idle : s.hand_processing ≡ none
  pub transformation_idle : s.hand_transformation ≡ none
  pub result_idle : s.hand_result ≡ none

-- The tasks have been joined and enter `run` again.
abbrev pub restart : Chain → Chain
restart s = record s {
  incoming = record (s.incoming) { count = 0 };
  app = record (s.app) { mirror_counter = 0 };
}

-- A chain with the number of files of each session that a restart has ended, in their order.
pub data Life : List ℕ → Chain → Type 0 where
  begins : Life [] fresh
  steps : {ns : List ℕ} {s t : Chain} → Life ns s → Step s t → Life ns t
  restarts :
      {ns : List ℕ} {s : Chain}
      → Life ns s
      → IsIdle s
      → Life (ns ++ (s.incoming.count ∷ [])) (restart s)

-- The names of all files of the sessions.
abbrev pub all_names : List ℕ → List Text
all_names [] = []
all_names (n ∷ ns) = file_names n ++ all_names ns

all_names-snoc : (ns : List ℕ) (n : ℕ) → all_names (ns ++ (n ∷ [])) ≡ all_names ns ++ file_names n
all_names-snoc [] n = append-nil (file_names n)
all_names-snoc (m ∷ ns) n =
    ap (λ xs. file_names m ++ xs) (all_names-snoc ns n)
    ∙ sym (append_assoc (file_names m) (all_names ns) (file_names n))

pub Life-Inv : {ns : List ℕ} {s : Chain} → Life ns s → Inv (all_names ns) s
unfolding file_names
Life-Inv begins = fresh-Inv
Life-Inv (steps l st) = Step-Inv (Life-Inv l) st
Life-Inv (restarts {ns} {s} l idle) =
    let inv = Life-Inv l in
    record {
      links = record {
        next_link = inv.links.next_link;
        direct_link = inv.links.direct_link;
        app_link = inv.links.app_link;
        mirror_link = inv.links.mirror_link;
      };
      conserved =
          inv.conserved
          ∙ sym (all_names-snoc ns s.incoming.count)
          ∙ sym (append-nil (all_names (ns ++ (s.incoming.count ∷ []))));
    }

-- A restart loses nothing: in every interleaving of the five tasks, with restarts of the idle tasks
-- in between, the names that the result task has printed, and then those still under way, are those
-- of the files of all sessions in their order, each session's from `file_1.txt` on.
pub sessions_lose_nothing :
    {ns : List ℕ} {s : Chain}
    → Life ns s
    → names_printed s.world ++ under_way s ≡ all_names ns ++ file_names s.incoming.count
sessions_lose_nothing l = (Life-Inv l).conserved

-- When nothing is under way any more, the result task has printed every file that was made.
pub drained_prints_all :
    {ns : List ℕ} {s : Chain}
    → Life ns s
    → under_way s ≡ []
    → names_printed s.world ≡ all_names ns ++ file_names s.incoming.count
drained_prints_all {s = s} l e =
    sym (append-nil (names_printed s.world))
    ∙ ap (λ xs. names_printed s.world ++ xs) (sym e)
    ∙ sessions_lose_nothing l

-- A run with no restart.
pub Reach-Life : {s : Chain} → Reach fresh s → Life [] s
Reach-Life here = begins
Reach-Life (later r st) = steps (Reach-Life r) st
