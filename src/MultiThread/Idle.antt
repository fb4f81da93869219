-- ===== src/MultiThread/Idle.antt =====
-- src/multi_thread/executor.rs, `run_worker` and `enqueue_task`, and src/multi_thread/runtime.rs,
-- `shutdown`: the driver token, the condition variable, the eventfd and the shutdown flag, between
-- workers that have nothing to do, threads that enqueue, and threads that shut the runtime down. A
-- worker that enqueues while it polls, or while it drives timers and I/O, counts as a thread of its own
-- there. All accesses are sequentially consistent.
pub mod Invariant
pub mod Awake
pub mod Stop
mod Examples
use Prim.Native.Nat.{◌-◌}
use mini_async_runtime.Base.{
  ℕ, suc, ◌+◌, ◌<◌, ◌≡◌, Bool, true, false, Option, none, some, if◌then◌else◌, ltb,
}
use mini_async_runtime.MultiThread.ReadyQueue.{ReadyQueue, new, enqueue, dequeue, is_empty}
use mini_async_runtime.MultiThread.Interleaving.{Threads, Run}

-- The queue, the flag of `shutdown` and the token; whether the counter of the eventfd is not zero; and the threads in the
-- wait of the condition variable, that no call has notified yet, and that one has.
pub record Shared : Type 0 where
  pub ready_queue : ReadyQueue
  pub shutdown : Bool
  pub driver_token : Bool
  pub eventfd : Bool
  pub waiters : ℕ
  pub signals : ℕ

pub data Place : Type 0 where
  -- A thread outside of `enqueue_task`; in it, after the push, before the write of the eventfd, and
  -- before `notify_one`.
  outside pushed kicking notifying : Place
  -- `MultiThreadRuntime::shutdown`: before `notify_all`, before the write of the eventfd, and in the
  -- joins
  stopping stop_kicking joining : Place
  -- `run_worker`: before the load of the flag, before the dequeue, with a task, before the compare-exchange of the token, before the
  -- second look at the queue, in `drive_io` before the wait, in the wait, and after it, before the
  -- release of the token, in step 3 before and after the load of the flag, in the wait of the condition
  -- variable, and after its end
  looping dequeuing polling claiming rechecking driving waiting returning releasing : Place
  idling resting sleeping exited : Place

-- `Condvar::notify_all`
abbrev notify_all : Shared → Shared
notify_all s = record s { waiters = 0; signals = s.signals + s.waiters }

-- `Condvar::notify_one`
abbrev notify_one : Shared → Shared
notify_one s =
    if ltb 0 s.waiters then record s { waiters = s.waiters - 1; signals = s.signals + 1 } else s

pub data Access (s : Shared) : Place → Shared → Place → Type 0 where
  pushes : (id : ℕ) → Access s outside (record s { ready_queue = enqueue s.ready_queue id }) pushed
  sees_driver : s.driver_token ≡ true → Access s pushed s kicking
  sees_none : s.driver_token ≡ false → Access s pushed s notifying
  kicks : Access s kicking (record s { eventfd = true }) notifying
  notifies : Access s notifying (notify_one s) outside
  -- `MultiThreadRuntime::sleep` wakes the reactor too.
  wakes_reactor : Access s outside (record s { eventfd = true }) outside
  stores_shutdown : Access s outside (record s { shutdown = true }) stopping
  notifies_all : Access s stopping (notify_all s) stop_kicking
  wakes_driver : Access s stop_kicking (record s { eventfd = true }) joining
  goes_on : s.shutdown ≡ false → Access s looping s dequeuing
  quits : s.shutdown ≡ true → Access s looping s exited
  dequeues :
      {id : ℕ} {out : ReadyQueue}
      → dequeue s.ready_queue ≡ (out, some id)
      → Access s dequeuing (record s { ready_queue = out }) polling
  finds_none : is_empty s.ready_queue ≡ true → Access s dequeuing s claiming
  polls : Access s polling s looping
  -- A poll that ends its task calls `notify_all`.
  ends_task : Access s polling (notify_all s) looping
  claims : s.driver_token ≡ false → Access s claiming (record s { driver_token = true }) rechecking
  claim_fails : s.driver_token ≡ true → Access s claiming s idling
  still_empty : is_empty s.ready_queue ≡ true → Access s rechecking s driving
  filled : is_empty s.ready_queue ≡ false → Access s rechecking s releasing
  blocks : Access s driving s waiting
  -- The wait ends with any events, or none, at any time.
  returns : Access s waiting s returning
  drains_eventfd : Access s returning (record s { eventfd = false }) releasing
  skips_eventfd : Access s returning s releasing
  releases : Access s releasing (record s { driver_token = false }) looping
  -- Step 3 holds the lock of the queue from its look at the queue up to the wait. The look is taken
  -- after the load of the flag here, together with the wait.
  rests : s.shutdown ≡ false → Access s idling s resting
  quits_idle : is_empty s.ready_queue ≡ true → s.shutdown ≡ true → Access s idling s exited
  finds_task : is_empty s.ready_queue ≡ false → Access s idling s looping
  finds_late : is_empty s.ready_queue ≡ false → Access s resting s looping
  sleeps :
      is_empty s.ready_queue ≡ true
      → Access s resting (record s { waiters = s.waiters + 1 }) sleeping
  is_notified : 0 < s.signals → Access s sleeping (record s { signals = s.signals - 1 }) looping
  -- The timeout of 100 ms, or a wake-up for no reason.
  times_out : 0 < s.waiters → Access s sleeping (record s { waiters = s.waiters - 1 }) looping

-- The first `workers` threads are workers.
abbrev pub started : ℕ → Threads Shared Place
started workers = record {
  memory = record {
    ready_queue = new;
    shutdown = false;
    driver_token = false;
    eventfd = false;
    waiters = 0;
    signals = 0;
  };
  place = λ i. if ltb i workers then looping else outside;
}

-- The states that `n` threads reach, of which `workers` are workers.
abbrev pub Reach : (workers n : ℕ) → Threads Shared Place → Type 0
Reach workers n = Run Access (started workers) n
