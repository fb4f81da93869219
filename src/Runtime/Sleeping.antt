-- ===== src/Runtime/Sleeping.antt =====
-- src/runtime.rs, `block_on` of a future that sleeps: the states that the loop goes through.
pub mod Clock
pub mod Iteration
pub mod Returning
pub mod Whole
mod Examples
use mini_async_runtime.Base.{
  ℕ, zero, suc, ◌+◌, ◌-◌, ◌≤◌, ◌<◌, ◌≡◌, refl, sym, ap, subst, ◌∙◌, Bool, true, false, not, Option,
  none, some, List, [], ◌∷◌, ◌++◌, to_list, leb, if◌then◌else◌, ◌==◌, ==_iff, arith, Bool-cases,
  inl, inr, ◌⊎◌, Result-cases, lookup, insert, remove, Poll, ready, pending, Outcome,
}
use mini_async_runtime.ReadyQueue.{ReadyQueue, push, push_all, drain}
use mini_async_runtime.ReadyQueue
use mini_async_runtime.Executor.{Polled, Executor, tick, is_idle, wake_all}
use mini_async_runtime.Executor
use mini_async_runtime.Timer.{
  TimerEntry, TimerState, TimerWheel, process, process_heap, fire, register, poll_sleep,
  has_pending, update, heap_push,
}
use mini_async_runtime.Task.{TaskState, spawned, complete, poll_handle}
use mini_async_runtime.Reactor.Epoll.{Kernel, Event}
use mini_async_runtime.Reactor.{Reactor, poll, after_wait, handle_event, handle_events, timeout_ms}
use mini_async_runtime.Reactor
use mini_async_runtime.Runtime.{World, Runtime, spawn, next_task_id}
use mini_async_runtime.Runtime.Loop.{
  Env, Turn, goes_on, breaks, exits, Exit, returned, Ex, poll_task, run_ready, poll_root,
  poll_reactor, process_timers, wait, after_timers, check_tasks, check_root, finish, forget,
  wake_flag, loop, started, block_on, last_attempt,
}

-- The future of `async { sleep(duration).await; v }`: before its first poll, and with the `Sleep`.
pub data Sleeper : Type 0 where
  begins : Sleeper
  sleeps : (r : ℕ) → Sleeper

-- A reactor with no registrations.
abbrev pub quiet : {K : Kernel} → ℕ → K.State → Reactor K ℕ
quiet fd kernel = record { registrations = []; wake_fd = fd; kernel = kernel }

-- A task `root` that sleeps, with the cell `r` of its timer, which is the only one in the wheel.
pub record Nap : Type 0 where
  pub root : ℕ
  pub r : ℕ
  pub fd : ℕ
  pub next : ℕ
  pub deadline : ℕ
  pub cells : ℕ → TimerState ℕ
  pub held : cells r ≡ record { completed = false; waker = some root }

module _ (K : Kernel) (U : Type 0) (T : Type 0) (n : Nap) where
  -- The runtime with one task, `root`, and the handle polled.
  abbrev at : (queue : List ℕ) → TimerWheel ℕ → K.State → U → Ex K U Sleeper T
  at queue timers kernel outside = record {
    tasks = (n.root, sleeps n.r) ∷ [];
    ready_queue = record { queue = queue; set = queue };
    env = record {
      world = record { timers = timers; reactor = quiet n.fd kernel; outside = outside };
      root = record { result = none; waker = some tt };
      handle_woken = false;
    };
  }

  -- It waits for its timer; or that has been fired.
  abbrev pub asleep : K.State → U → Ex K U Sleeper T
  asleep = at [] (record {
    heap = record { deadline = n.deadline; state = n.r } ∷ [];
    cells = n.cells;
    next = n.next;
  })

  abbrev pub awake : K.State → U → Ex K U Sleeper T
  awake = at (n.root ∷ []) (record { heap = []; cells = fire n.cells n.r; next = n.next })

-- A runtime without tasks, timers or registrations.
abbrev pub unused :
    {K : Kernel} {U : Type 0} → ℕ → K.State → (ℕ → TimerState ℕ) → ℕ → U → Runtime K U Sleeper
unused fd kernel cells next outside = record {
  tasks = [];
  ready_queue = ReadyQueue.new;
  world = record {
    timers = record { heap = []; cells = cells; next = next };
    reactor = quiet fd kernel;
    outside = outside;
  };
}

module _ {K : Kernel} {U T : Type 0} (instant_now : U → U × ℕ) (duration : ℕ) (v : T) where
  pub poll_timer : (id r : ℕ) → World K U → Polled Sleeper (World K U) T
  poll_timer id r world =
      let (timers, p) = poll_sleep world.timers r id in
      record {
        result = elim p [ ready _ ↦ ready v | pending ↦ pending ];
        future = sleeps r;
        env = record world { timers = timers };
        woken = [];
      }

  pub sleeper : ℕ → Sleeper → World K U → Polled Sleeper (World K U) T
  unfolding poll_timer
  sleeper id begins world =
      let (outside, now) = instant_now world.outside in
      let (timers, r) = register world.timers (now + duration) in
      poll_timer id r (record world { timers = timers; outside = outside })
  sleeper id (sleeps r) world = poll_timer id r world
