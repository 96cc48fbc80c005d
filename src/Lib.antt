-- ===== src/Lib.antt =====
-- A model of this repository's thread messaging code, and proofs about it.
--
-- The program is a set of threads that pass messages, under a manager and a daemon. A bounded
-- lock-free ring buffer carries commands to the thread that makes events; every thread owns a
-- queue of shared pointers, and senders that its receiver hands out append to it; workers run
-- their loops on `std::jthread`s until a stop is requested; the manager owns the stop source that
-- its tasks follow; the daemon turns signals into states that the main loop polls.
--
-- Which file models which part:
--   RingBuffer    src/include/threading/spScRingBuffer.hpp. `RingBuffer` has the methods as whole
--                 calls (`init`, `push`, `pop`, `empty`, `full`, `capacity`), with `size_t` indices
--                 modulo 2 ^ 64; `Wait` has `wait_pop_for`, `notifyOne` and `notifyAll`; `Spsc`
--                 takes `push` and `pop` apart into their loads and stores, in any interleaving, and
--                 `Spsc/Weak` lets a load give an old value of the other thread's index,
--                 `Spsc/Linear` reads a run as a run of whole calls; `Abstract` has the buffers
--                 up to what their methods tell.
--   SafeQueue     src/include/threading/threadSafeQueue.hpp; `Wakeups` has its notifications, with
--                 any number of producers and consumers
--   Messaging     src/include/messaging/: `Message` (messageBase.hpp), `Queue` and `Wakeups`
--                 (messageQueue.hpp), `Endpoint` (messageSender.hpp, messageReceiver.hpp)
--   Events        src/include/dataTypes.hpp
--   Worker        src/include/workerBase.hpp
--   Timer         src/include/time/stopTimer.hpp
--   Daemon        src/include/daemon.hpp and src/src/daemon.cpp
--   Manager       src/include/threadManager.hpp; `Dangling` has which tasks are kept, and which
--                 of them send to each other, `Destroyed` the tasks that calls let go
--   Observer      src/include/testThreads.hpp, the class `ObserverIncomingThread`; `Commands`
--                 has the commands that the manager sends to it, `Effects` what they are to do to
--                 its modes, `Stress` its stress mode
--   Task          src/include/taskBase.hpp
--   Chain         src/include/testThreads.hpp: the four other tasks, the links that `initTestChain`
--                 sets; `Loops` has each `run` with its stop test, `Flow` all five tasks at once,
--                 `Sessions` their restarts
--   MemoryUtils   src/include/memoryUtils.hpp: the time stamps and the memory figures
--   Program       src/src/main.cpp: console keys, options, handlers, main loop, and
--                 `main` to its end, with `~ThreadManager`; `Keys` follows the keys that send
--                 commands to the event maker
--   CondVar       `std::condition_variable`, as the queues, the ring buffer and the worker use it
--   Prelude       shared tests, lists, bit operations, machine words, integers and text
--
-- How the code is read. A method that holds one mutex throughout is one step on the state. A
-- thread that waits is given the list of its wakes, each with what other threads have done before
-- it; with an empty list it still waits, and `none` is a call that has not come back. The one
-- recursion on fuel writes a number in decimal: `n` steps are enough for `n`, as each divides by
-- ten. The loops go over the lists of tasks, of signals, of turns of the main loop, of tests of
-- the stop token or of wakes. Signals arrive before a poll and in the gaps between a poll's own
-- accesses to the state, which `Daemon/Interrupts` names. What the operating system answers (each
-- thread can be created or not, fork, setsid, chdir, the opening of a file, the clock) is an
-- argument. A payload type is known by its wrapper and its downcast, `Message.Payload`, whose
-- laws the types of dataTypes.hpp satisfy in `Events/Payloads`. The local time and `sscanf` are
-- arguments too. A run function that the caller hands in may come back by itself, on a stop
-- request, or never.
--
-- Not modelled: the output to the console besides the options', the results' and the memory
-- figures', the destructors besides `~ThreadManager`, and the memory orders of the atomic accesses
-- beyond what RingBuffer/Spsc and RingBuffer/Spsc/Weak say of them. Counters that the code keeps in
-- an `int`, and the times and durations, have no bound.

pub mod Prelude
pub mod CondVar
pub mod RingBuffer
pub mod SafeQueue
pub mod Messaging
pub mod Events
pub mod Worker
pub mod Timer
pub mod Task
pub mod Daemon
pub mod Manager
pub mod Observer
pub mod Chain
pub mod MemoryUtils
pub mod Program
