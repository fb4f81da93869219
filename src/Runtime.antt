-- ===== src/Runtime.antt =====
-- src/runtime.rs: the runtime, which joins executor, timers and reactor.
pub mod Loop
pub mod Root
pub mod Cooperative
pub mod Prompt
pub mod Delivery
pub mod Sleeping
pub mod Pipe
mod Examples
use mini_async_runtime.Base.{
  ℕ, zero, suc, ◌+◌, ◌%◌, ◌==◌, Bool, true, false, not, Option, none, some, List, [], ◌∷◌,
  if◌then◌else◌, HashMap, Poll, ready, pending, usize_mod, Result, ok, err,
}
use mini_async_runtime.ReadyQueue
use mini_async_runtime.ReadyQueue.{ReadyQueue}
use mini_async_runtime.Executor.{Polled, Executor, wake_all, is_idle, tick}
use mini_async_runtime.Executor
use mini_async_runtime.Task.{TaskState, spawned, complete, poll_handle}
use mini_async_runtime.Timer.{TimerWheel, process, has_pending, register}
use mini_async_runtime.Timer
use mini_async_runtime.Reactor.Epoll.{Kernel}
use mini_async_runtime.Reactor.{Reactor}
use mini_async_runtime.Reactor

-- What the program's futures share: the timers and the reactor, whose wakers are ids of tasks, and
-- the rest, `outside`, in which also the clock stands.
pub record World (K : Kernel) (U : Type 0) : Type 0 where
  pub timers : TimerWheel ℕ
  pub reactor : Reactor K ℕ
  pub outside : U

-- `Runtime`, with a task as its future.
pub record Runtime (K : Kernel) (U F : Type 0) : Type 0 where
  pub tasks : HashMap F
  pub ready_queue : ReadyQueue
  pub world : World K U

-- The counter after it, and the id.
unfoldable pub next_task_id : ℕ → ℕ × ℕ
next_task_id counter = ((counter + 1) % usize_mod, counter)

module _ {K : Kernel} {U F : Type 0} where
  -- `Runtime::spawn`; the future is the one of `wrap_future_with_state`.
  unfoldable pub spawn : Runtime K U F → ℕ → F → Runtime K U F × ℕ
  unfolding next_task_id
  spawn rt counter future =
      let (counter', id) = next_task_id counter in
      let ex =
        Executor.spawn (record { tasks = rt.tasks; ready_queue = rt.ready_queue; env = rt.world })
          id future in
      (record { tasks = ex.tasks; ready_queue = ex.ready_queue; world = ex.env }, counter')

module _ (K : Kernel) {U F : Type 0} where
  -- `Runtime::new`, which fails where the reactor does.
  unfoldable pub new : K.State → U → Result (Runtime K U F) (ℕ × K.State)
  new kernel outside = elim (Reactor.new K kernel) [
    | err e ↦ err e
    | ok reactor ↦ ok (record {
      tasks = [];
      ready_queue = ReadyQueue.new;
      world = record { timers = Timer.new; reactor = reactor; outside = outside };
    })
  ]

module _ {K : Kernel} {U F : Type 0} (instant_now : U → U × ℕ) where
  -- The `Sleep` is the reference to its cell.
  unfoldable pub sleep : Runtime K U F → ℕ → Runtime K U F × ℕ
  sleep rt duration =
      let (outside, now) = instant_now rt.world.outside in
      let (timers, r) = Timer.register rt.world.timers (now + duration) in
      (record rt { world = record rt.world { timers = timers; outside = outside } }, r)
