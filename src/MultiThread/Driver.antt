-- ===== src/MultiThread/Driver.antt =====
-- src/multi_thread/executor.rs, `drive_io` and the driver token in `run_worker`, and
-- src/multi_thread/runtime.rs, `sleep`: workers that drive the timers and wait in the reactor, and
-- threads that register timers meanwhile. Each call of the timer wheel is one access. All accesses are
-- sequentially consistent.
pub mod Bounded
pub mod Ends
pub mod Punctual
pub mod Turn
mod Examples
use mini_async_runtime.Base.{ℕ, ◌+◌, ◌≡◌, Bool, true, false, Option, none, some, if◌then◌else◌, ltb}
use mini_async_runtime.MultiThread.TimerWheel.{
  TimerWheel, new, register, process, has_pending, poll_sleep,
}
use mini_async_runtime.MultiThread.Interleaving.{Threads, Run}

-- The wheel, whose wakers are ids of tasks, the token, and whether the counter of the eventfd is not
-- zero. `ends` is no part of the program: it is the instant that the last `process` before a wait read,
-- plus the timeout of that wait.
pub record Shared : Type 0 where
  pub wheel : TimerWheel ℕ
  pub driver_token : Bool
  pub eventfd : Bool
  pub ends : ℕ

pub data Place : Type 0 where
  -- A thread outside of `sleep`, and in it, before the write of the eventfd
  outside registered : Place
  -- A worker before the compare-exchange of the token, before the first `process`, before `has_pending`
  -- with the instant that `process` read and what it gave, in the wait, before the drain of the eventfd,
  -- before the second `process`, and before the release of the token
  free claimed : Place
  checking : (now : ℕ) (next_deadline : Option ℕ) → Place
  waiting returned dispatched releasing : Place

-- The timeout of `drive_io`: the time to the next deadline, or else 1 ms where a timer is pending, and
-- 5 ms where none is.
unfoldable pub timeout : Option ℕ → Bool → ℕ
timeout none true = 1_000_000
timeout none false = 5_000_000
timeout (some next_deadline) pending = next_deadline

pub data Access (s : Shared) : Place → Shared → Place → Type 0 where
  registers :
      (deadline : ℕ)
      → Access s outside (record s { wheel = (register s.wheel deadline).0 }) registered
  wakes_driver : Access s registered (record s { eventfd = true }) outside
  -- `enqueue_task` wakes the reactor too.
  kicks : Access s outside (record s { eventfd = true }) outside
  polls_sleep :
      (r waker : ℕ) → Access s outside (record s { wheel = (poll_sleep s.wheel r waker).0 }) outside
  claims : s.driver_token ≡ false → Access s free (record s { driver_token = true }) claimed
  -- The second look at the queue has found a task.
  finds_task : Access s claimed s releasing
  processes :
      (now : ℕ)
      → Access s claimed
          (record s { wheel = (process s.wheel now).state })
          (checking now (process s.wheel now).result)
  waits :
      {now : ℕ} {next_deadline : Option ℕ}
      → Access s
          (checking now next_deadline)
          (record s { ends = now + timeout next_deadline (has_pending s.wheel) })
          waiting
  -- The wait ends with any events, or none, at any time.
  returns : Access s waiting s returned
  drains_eventfd : Access s returned (record s { eventfd = false }) dispatched
  skips_eventfd : Access s returned s dispatched
  processes_again :
      (now : ℕ) → Access s dispatched (record s { wheel = (process s.wheel now).state }) releasing
  releases : Access s releasing (record s { driver_token = false }) free

-- The first `workers` threads are workers.
abbrev pub started : ℕ → Threads Shared Place
started workers = record {
  memory = record { wheel = new; driver_token = false; eventfd = false; ends = 0 };
  place = λ i. if ltb i workers then free else outside;
}

-- The states that `n` threads reach, of which `workers` are workers.
abbrev pub Reach : (workers n : ℕ) → Threads Shared Place → Type 0
Reach workers n = Run Access (started workers) n
