-- ===== src/Runtime/Loop.antt =====
-- src/runtime.rs, `block_on`: its loop, step by step.
use mini_async_runtime.Base.{
  ℕ, zero, suc, ◌==◌, Bool, true, false, not, Option, none, some, List, [], ◌∷◌, if◌then◌else◌,
  Poll, ready, pending,
}
use mini_async_runtime.ReadyQueue
use mini_async_runtime.ReadyQueue.{ReadyQueue}
use mini_async_runtime.Executor.{Polled, Executor, wake_all, is_idle, tick}
use mini_async_runtime.Task.{TaskState, spawned, complete, poll_handle}
use mini_async_runtime.Timer.{process, has_pending}
use mini_async_runtime.Reactor.Epoll.{Kernel}
use mini_async_runtime.Reactor.{Reactor}
use mini_async_runtime.Reactor
use mini_async_runtime.Runtime.{World, Runtime, spawn, next_task_id}

-- The memory while `block_on` runs: the state that the root task shares with its handle, whose
-- waker is always the one of `flag_waker`, and the flag of that waker.
pub record Env (K : Kernel) (U T : Type 0) : Type 0 where
  pub world : World K U
  pub root : TaskState T (Unit {0})
  pub handle_woken : Bool

-- `flag_waker`, called as often as the list is long.
unfoldable pub wake_flag : Bool → List (Unit {0}) → Bool
wake_flag flag [] = flag
wake_flag flag (_ ∷ _) = true

-- How an iteration of the loop in `block_on` ends, and how `block_on` itself does.
pub data Turn (S T : Type 0) : Type 0 where
  goes_on : S → Turn S T
  breaks : S → Turn S T
  exits : S → T → Turn S T

pub data Exit (S T : Type 0) : Type 0 where
  returned : S → T → Exit S T
  panicked : S → Exit S T
  out_of_fuel : Exit S T

unfoldable pub forget : {T : Type 0} → Poll T → Poll (Unit {0})
forget (ready v) = ready tt
forget pending = pending

unfoldable pub unwrap_or : Option ℕ → ℕ → ℕ
unwrap_or none n = n
unwrap_or (some m) n = m

module _ {K : Kernel} {U T : Type 0} where
  -- What `wrap_future_with_state` does of the root after the poll of the program's future. Other
  -- tasks have their states in the memory of `body`.
  unfoldable pub finish : Bool → Poll T → Env K U T → Env K U T
  finish true (ready v) env =
      let o = complete env.root v in
      record env { root = o.state; handle_woken = wake_flag env.handle_woken o.woken }
  finish _ _ env = env

abbrev pub Ex : (K : Kernel) (U F T : Type 0) → Type 0
Ex K U F T = Executor F (Env K U T)

-- Polls of the program's own futures, whose results are of type `T`.
module _ {K : Kernel} {U F T : Type 0} (body : ℕ → F → World K U → Polled F (World K U) T) where
  unfoldable pub poll_task : ℕ → ℕ → F → Env K U T → Polled F (Env K U T) (Unit {0})
  unfolding finish forget
  poll_task root id future env =
      let p = body id future env.world in
      record {
        result = forget p.result;
        future = p.future;
        env = finish (id == root) p.result (record env { world = p.env });
        woken = p.woken;
      }

  -- `while self.executor.tick() {}`
  unfoldable pub run_ready : ℕ → (fuel : ℕ) → Ex K U F T → Option (Ex K U F T)
  unfolding poll_task
  run_ready root zero ex = none
  run_ready root (suc fuel) ex =
      let (next, polled) = tick (poll_task root) ex in
      elim polled [ true ↦ run_ready root fuel next | false ↦ some next ]

module _ {K : Kernel} {U F T : Type 0} where
  unfoldable pub poll_root : Ex K U F T → Ex K U F T × Poll T
  poll_root ex =
      let (root, r) = poll_handle ex.env.root tt in
      (record ex { env = record ex.env { root = root } }, r)

  unfoldable pub poll_reactor : Ex K U F T → ℕ → Ex K U F T
  poll_reactor ex timeout =
      let o = Reactor.poll K ex.env.world.reactor (some timeout) in
      wake_all
        (record ex { env = record ex.env { world = record ex.env.world { reactor = o.state } } })
        o.woken

  -- After the loop.
  unfoldable pub last_attempt : Ex K U F T × Poll T → Exit (Ex K U F T) T
  last_attempt (ex, ready v) = returned ex v
  last_attempt (ex, pending) = panicked ex

  -- The memory when the loop begins: the flag is set, to poll the handle once.
  abbrev pub started : Runtime K U F → Ex K U F T
  started rt = record {
    tasks = rt.tasks;
    ready_queue = rt.ready_queue;
    env = record { world = rt.world; root = spawned; handle_woken = true };
  }

-- `Instant::now`.
module _ {K : Kernel} {U F T : Type 0} (instant_now : U → U × ℕ) where
  unfoldable pub process_timers : Ex K U F T → Ex K U F T × Option ℕ
  process_timers ex =
      let world = ex.env.world in
      let (outside, now) = instant_now world.outside in
      let o = process world.timers now in
      (
        wake_all
            (record ex {
              env = record ex.env { world = record world { timers = o.state; outside = outside } };
            })
            o.woken,
        o.result,
      )

  -- Steps 6 and 7: 1 ms where timers are pending but gave no duration, 5 ms where none are.
  unfoldable pub wait : Ex K U F T → ℕ → Ex K U F T
  unfolding poll_reactor process_timers
  wait ex timeout = (process_timers (poll_reactor ex timeout)).0

  unfoldable pub after_timers : Ex K U F T × Option ℕ → Turn (Ex K U F T) T
  unfolding wait unwrap_or
  after_timers (ex, timer_timeout) =
      if not (ReadyQueue.is_empty ex.ready_queue)
      then goes_on ex
      else if has_pending ex.env.world.timers
      then goes_on (wait ex (unwrap_or timer_timeout 1_000_000))
      else if is_idle ex
      then breaks ex
      else goes_on (wait ex 5_000_000)

  -- Step 3, once the handle has been polled.
  unfoldable pub after_last_poll : Ex K U F T × Poll T → Turn (Ex K U F T) T
  unfolding after_timers process_timers
  after_last_poll (ex, ready v) = exits ex v
  after_last_poll (ex, pending) = after_timers (process_timers ex)

  -- Steps 3 to 7.
  unfoldable pub check_tasks : Ex K U F T → Turn (Ex K U F T) T
  unfolding after_last_poll after_timers process_timers poll_root
  check_tasks ex =
      if is_idle ex then after_last_poll (poll_root ex) else after_timers (process_timers ex)

  unfoldable pub after_woken_poll : Ex K U F T × Poll T → Turn (Ex K U F T) T
  unfolding check_tasks
  after_woken_poll (ex, ready v) = exits ex v
  after_woken_poll (ex, pending) = check_tasks ex

  -- Steps 2 to 7.
  unfoldable pub check_root : Ex K U F T → Turn (Ex K U F T) T
  unfolding after_woken_poll check_tasks poll_root
  check_root ex =
      if ex.env.handle_woken
      then after_woken_poll (poll_root (record ex { env = record ex.env { handle_woken = false } }))
      else check_tasks ex

module _ {K : Kernel} {U F T : Type 0} (body : ℕ → F → World K U → Polled F (World K U) T)
    (instant_now : U → U × ℕ) where
  -- The loop of `block_on`, of at most `turns` iterations, with at most `rounds` rounds of `tick` in
  -- each.
  unfoldable pub loop : (root turns rounds : ℕ) → Ex K U F T → Exit (Ex K U F T) T
  unfolding run_ready check_root last_attempt poll_root
  loop root zero rounds ex = out_of_fuel
  loop root (suc turns) rounds ex = elim (run_ready body root rounds ex) [
    | none ↦ out_of_fuel
    | some idle ↦ elim (check_root instant_now idle) [
      | goes_on next ↦ loop root turns rounds next
      | breaks last ↦ last_attempt (poll_root last)
      | exits last v ↦ returned last v
    ]
  ]

  unfoldable pub block_on :
      Runtime K U F → (counter : ℕ) → F → (turns rounds : ℕ) → Exit (Ex K U F T) T
  unfolding spawn next_task_id loop
  block_on rt counter future turns rounds =
      loop counter turns rounds (started (spawn rt counter future).0)
