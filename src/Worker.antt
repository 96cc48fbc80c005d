-- ===== src/Worker.antt =====
-- src/include/workerBase.hpp: one worker and its `std::jthread`. Stop sources that others own are
-- numbers, and `Sources` says which of them have been asked to stop. `notify_all` changes no
-- state: a waiting thread may wake at any time.
pub mod Lifecycle
pub mod Waiting
use boilerplate_thread_messa.Prelude.{
  ℕ, Bool, true, false, not, ◌&&◌, ◌||◌, Option, none, some, List, if◌then◌else◌,
}
use boilerplate_thread_messa.CondVar.{Wake, Waited, wait_for}

abbrev pub Sources : Type 0
Sources = ℕ → Bool

-- `requested` is the thread's own stop source, `external_token` the token that `start` handed on,
-- and `returned` says that the thread has run through `markStopped`.
pub record JThread : Type 0 where
  pub joinable : Bool
  pub requested : Bool
  pub external_token : Option ℕ
  pub returned : Bool

-- `is_ready`, `ends_alone` and `obeys` belong to the derived class: the value of `isReadyToStart`,
-- whether its `run` comes back without having seen a stop request, and whether it comes back once
-- its token tells of one. `number` tells the objects of a program apart.
pub record Worker : Type 0 where
  pub is_ready : Bool
  pub ends_alone : Bool
  pub obeys : Bool
  pub number : ℕ
  pub m_running : Bool
  pub m_thread : JThread

abbrev pub no_thread : JThread
no_thread = record { joinable = false; requested = false; external_token = none; returned = false }

abbrev pub new_worker : Bool → Bool → Bool → Worker
new_worker ready alone obeys = record {
  is_ready = ready;
  ends_alone = alone;
  obeys = obeys;
  number = 0;
  m_running = false;
  m_thread = no_thread;
}

-- `spawns` says whether the thread can be created. The assignment to `m_thread` would stop and
-- join an older thread; that one has returned already, since `m_running` is false.
unfoldable pub start : Bool → Option ℕ → Worker → Bool × Worker
start spawns external w =
    if not w.is_ready
    then (false, w)
    else if w.m_running
    then (false, w)
    else if not spawns
    then (false, record w { m_running = false })
    else (
      true,
      record w {
        m_running = true;
        m_thread = record {
          joinable = true;
          requested = false;
          external_token = external;
          returned = false;
        };
      },
    )

abbrev pub token_requested : Sources → Option ℕ → Bool
token_requested asked none = false
token_requested asked (some i) = asked i

-- What the token that `run` got tells: the thread's own source, or the external one if there is.
abbrev pub sees_stop : Sources → Worker → Bool
sees_stop asked w = w.m_thread.requested || token_requested asked w.m_thread.external_token

-- `run` can come back.
abbrev pub can_return : Sources → Worker → Bool
can_return asked w = w.ends_alone || (w.obeys && sees_stop asked w)

-- The thread's last step: `run` comes back and `markStopped` runs.
unfoldable pub finish : Sources → Worker → Worker
finish asked w =
    if w.m_running && can_return asked w
    then record w { m_running = false; m_thread = record (w.m_thread) { returned = true } }
    else w

unfoldable pub stop : Worker → Worker
stop w =
    if w.m_thread.joinable
    then record w { m_thread = record (w.m_thread) { requested = true } }
    else w

-- `none` is a call that never comes back: the thread has no reason to end, or does not heed it.
unfoldable pub join : Sources → Worker → Option Worker
join asked w =
    if w.m_thread.joinable
    then if w.m_thread.returned || can_return asked w
      then some (record w {
        m_running = false;
        m_thread = record (w.m_thread) { joinable = false; returned = true };
      })
      else none
    else some w

unfoldable pub stop_and_wait : Sources → Worker → Option Worker
unfolding stop join
stop_and_wait asked w = join asked (stop w)

-- The hooks act on the caller's state.
unfoldable pub stop_with_hooks {ℓ} : {X : Type ℓ} → (X → X) → (X → X) → Worker × X → Worker × X
unfolding stop
stop_with_hooks before after (w, x) = (stop w, after (before x))

unfoldable pub is_running : Worker → Bool
is_running w = w.m_running

unfoldable pub is_stop_requested : Worker → Bool
is_stop_requested w = w.m_thread.requested

-- `waitFor`: the stop token and the caller's predicate are read from the shared state.
module _ {ℓ κ} {S : Type ℓ} {Op : Type κ} (act : Op → S → S) (stop_requested pred : S → Bool) where
  abbrev pub stop_or_pred : S → Bool
  stop_or_pred s = stop_requested s || pred s

  unfoldable pub wait_for_pred : List (Wake Op) → S → Waited S
  wait_for_pred ws s = wait_for act stop_or_pred ws s
