-- ===== src/Daemon/Background.antt =====
-- `makeDaemon` and `writePidToFile` of src/src/daemon.cpp. The answers of fork, setsid, chdir,
-- getpid and of opening the file are arguments; what is written to the file is a result.
use Prim.Native.String.{String}
use boilerplate_thread_messa.Prelude.{
  ℕ, ◌≡◌, ◌↔◌, ◌⊎◌, Bool, true, false, not, Option, none, some, arith, if◌then◌else◌,
}
use boilerplate_thread_messa.Daemon.{Daemon}

-- fork's result: negative, positive (the parent, with the child's identifier), or zero.
pub data Forked : Type 0 where
  fork_failed parent child : Forked

pub record System : Type 0 where
  pub forked : Forked
  pub setsid_ok : Bool
  pub chdir_ok : Bool
  pub opens : String → Bool
  pub getpid : ℕ

-- What is written: the file and the identifier.
abbrev pub Written : Type 0
Written = Option (String × ℕ)

abbrev pub is_empty_name : String → Bool
is_empty_name String.[] = true
is_empty_name (String.◌∷◌ c s) = false

pub write_pid_to_file : System → String → Bool × Written
write_pid_to_file sys name =
    if not (is_empty_name name)
    then if not (sys.opens name) then (false, none) else (true, some (name, sys.getpid))
    else (true, none)

-- `exited` is the parent's `_exit(EXIT_SUCCESS)`.
pub data Made (W : Type 0) : Type 0 where
  exited : Made W
  returned : Bool → Daemon W → Written → Made W

module _ {W : Type 0} (sys : System) (name : String) where
  -- The branch of `fork` that goes on, with the daemon marked as initialised.
  pub continue_in : Forked → Daemon W → Made W
  unfolding write_pid_to_file
  continue_in fork_failed d = returned false d none
  continue_in parent d = exited
  continue_in child d =
      if not sys.setsid_ok
      then returned false d none
      else if not sys.chdir_ok
      then returned false d none
      else if not ((write_pid_to_file sys name).0)
      then returned false d (write_pid_to_file sys name).1
      else returned true (record d { pid = some sys.getpid }) (write_pid_to_file sys name).1

  pub make_daemon : Daemon W → Made W
  unfolding continue_in
  make_daemon d =
      if not d.is_initialized
      then continue_in sys.forked (record d { is_initialized = true; pid_file_name = name })
      else returned false d none

-- `makeDaemon` returns true exactly in a child that has a session of its own, has changed its
-- directory and has written its identifier where a file is named; it then knows its identifier.
pub make_daemon_lem :
    {W : Type 0} (sys : System) (name : String) (d d' : Daemon W) (written : Written)
    → (make_daemon sys name d ≡ returned true d' written) ↔ (
        (d.is_initialized ≡ false)
        × (sys.forked ≡ child)
        × (sys.setsid_ok ≡ true)
        × (sys.chdir_ok ≡ true)
        × ((is_empty_name name ≡ true) ⊎ (sys.opens name ≡ true))
        × (written ≡ (if is_empty_name name then none else some (name, sys.getpid)))
        × (d' ≡ record d { is_initialized = true; pid_file_name = name; pid = some sys.getpid }))
unfolding make_daemon
make_daemon_lem sys name d d' written = ground arith

-- `makeDaemon` is tried once. After any return, in success or failure, each further call returns
-- false, writes nothing and leaves the daemon as it is.
make_daemon_once :
    {W : Type 0} (sys sys' : System) (name name' : String) (d d' : Daemon W) (ok : Bool)
    (written : Written)
    → make_daemon sys name d ≡ returned ok d' written
    → make_daemon sys' name' d' ≡ returned false d' none
unfolding make_daemon
make_daemon_once sys sys' name name' d d' ok written e = ground arith
