-- ===== src/Lib.antt =====
-- mini_async_runtime: models of the async runtime, and what is proved of them.
--
-- The program is two runtimes for futures. In the single-threaded one (src/runtime.rs), `block_on` runs
-- rounds of an executor (src/executor.rs) over a queue of task ids, fires timers (src/timer.rs), waits
-- for I/O in an epoll reactor (src/reactor.rs) and reads the result of the root task from a
-- `JoinHandle` (src/join_handle.rs, src/task.rs). In the multi-threaded one (src/multi_thread), workers
-- take task ids off one queue, an atomic state in each task says who may poll it, and one idle worker
-- at a time drives timers and reactor. Sockets (src/net.rs, src/multi_thread/net.rs) register with the
-- reactor, and a channel (src/channel.rs) joins tasks of either runtime. All parts meet in wakers: a
-- call leaves a waker behind and returns pending, and whoever completes the event calls it.
--
-- Files and the code that they model:
--   Base                  shared names: Boolean tests, lists, maps, `Result`, `Poll`, and `Outcome`,
--                         the state, the result and the wakers called of a call
--   Channel               src/channel.rs: unbounded, Sender and Receiver; Channel/History has the calls
--                         over time, the order of messages and the wake-ups
--   ReadyQueue, Executor  src/executor.rs: ReadyQueue, the task wakers, Executor; Executor/Round has one
--                         `tick`, Executor/Cooperative the rounds of futures that wake themselves
--   Waker                 the raw wakers: Waker/Local of src/executor.rs, Waker/Flag of src/runtime.rs and
--                         Waker/Atomic of src/multi_thread/executor.rs; Waker/Client is a program that uses
--                         them
--   Task                  src/task.rs and src/join_handle.rs: TaskState, wrap_future_with_state,
--                         JoinHandle::poll
--   Timer                 src/timer.rs: TimerWheel and Sleep; Timer/History has the calls over time
--   Reactor               src/reactor.rs: Epoll, Reactor; Reactor/Epoll is the kernel as a parameter,
--                         Reactor/Armed what is assumed of it, Reactor/Scripted a kernel of that kind
--   Net                   src/net.rs and src/multi_thread/net.rs: bind, connect, Accept, AsyncRead,
--                         AsyncWrite and the drops, with tcp_listen and tcp_connect of src/runtime.rs;
--                         Net/Descriptors has a program that calls them
--   Runtime               src/runtime.rs: new, spawn, sleep, with next_task_id of src/lib.rs; Runtime/Loop has
--                         block_on and flag_waker, Runtime/Sleeping and Runtime/Pipe programs
--                         of the tests of src/lib.rs
--   MultiThread/ReadyQueue, MultiThread/Schedule
--                         src/multi_thread/executor.rs and src/multi_thread/task.rs: the queue,
--                         wake_by_ref_impl, enqueue_task, poll_task, spawn
--   MultiThread/Idle      src/multi_thread/executor.rs: run_worker and enqueue_task, and shutdown of
--                         src/multi_thread/runtime.rs, with the flag, the driver token, the condition
--                         variable and the eventfd
--   MultiThread/Driver    src/multi_thread/executor.rs and src/multi_thread/runtime.rs: drive_io, the token and
--                         sleep, with the timer wheel; Driver/Turn has drive_io as one function, beside the
--                         loop of the single-threaded runtime
--   MultiThread/TimerWheel
--                         src/multi_thread/timer.rs: TimerWheel with its inbox and its heap
--   MultiThread/Polling   src/reactor.rs: Reactor::poll beside the calls of other threads
--   MultiThread/Join      src/multi_thread/task.rs: wrap_future_with_state and JoinHandle::poll
--   MultiThread/BlockOn   src/multi_thread/runtime.rs: block_on and its condition variable
--   MultiThread/Sleep     src/multi_thread/timer.rs: AtomicWaker, Sleep::poll, and the firing of a timer
--
-- State and operations: a struct is a record and a method is a function from the state to the state, its
-- result and the wakers that it calls, in order. A map is an association list, a `HashSet` the list of its
-- elements, and a binary heap the list of its entries, greatest first, with those that are equal in the
-- order of their arrival; MultiThread/TimerWheel/Heaps has them in any order. Instants and durations are
-- natural numbers of nanoseconds, a `usize` wraps around modulo 2 ^ 64. The futures of the program, the
-- clock, the kernel and the sockets are parameters. What one call of a `RefCell` or a `Mutex` guards is
-- one step; MultiThread/Join has the lock itself. In MultiThread, threads take one access of shared memory at a time in any order
-- (MultiThread/Interleaving), and all accesses are sequentially consistent: the memory orderings of the
-- atomics are not modelled.
--
-- Fuel: `block_on` may run for ever, so Runtime.Loop.loop has a number of iterations and one of rounds in
-- each, and says when they are used up. For futures that wake themselves, the bound on rounds is two more
-- than a bound on the polls that each future takes. For one that sleeps, the bound on iterations is two more
-- than the readings after which the clock is past the deadline, of two rounds each.
-- Runtime.Pipe.receive has one turn more than the queue has messages, and each takes one. Nothing else has
-- fuel.
--
-- Not modelled: panics of `RefCell` and of poisoned locks; a panic in a poll, other than as an end of a task of the multi-threaded runtime; the tests of the
-- program but for two of src/lib.rs, its examples and its benchmarks.
pub mod Base
pub mod Channel
pub mod ReadyQueue
pub mod Waker
pub mod Executor
pub mod Task
pub mod Timer
pub mod Reactor
pub mod Runtime
pub mod Net
pub mod MultiThread
