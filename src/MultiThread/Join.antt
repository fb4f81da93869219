-- ===== src/MultiThread/Join.antt =====
-- src/multi_thread/task.rs: `wrap_future_with_state` and `JoinHandle::poll`, which share a state
-- behind a mutex. The owner of the handle and the task run on any two threads.
pub mod Handover
pub mod Outputs
mod Examples
use mini_async_runtime.Base.{
  ℕ, ◌≡◌, Bool, true, false, Option, none, some, List, [], ◌∷◌, if◌then◌else◌, ◌==◌,
}
use mini_async_runtime.MultiThread.Interleaving.{Threads, Run}

-- A waker is the number of the task that it wakes.
pub record TaskState (T : Type 0) : Type 0 where
  pub result : Option T
  pub waker : Option ℕ

-- The state behind its mutex, and the wakers that the task has called, newest first.
pub record Shared (T : Type 0) : Type 0 where
  pub state : TaskState T
  pub locked : Bool
  pub woken : List ℕ

pub data Place (T : Type 0) : Type 0 where
  -- The owner of the handle: before its first poll, in `poll` with the lock, at the end of `poll`
  -- with the lock, and after a poll that was pending or ready.
  holding : Place T
  polling parking : ℕ → Place T
  taking : T → Place T
  waiting : ℕ → Place T
  returned : T → Place T
  -- The task: while its future is pending, before the lock, with the lock, before the call of the
  -- waker, before it lets go of the lock, at its end, and dropped by `poll_task` after a panic.
  running : Place T
  locking storing : T → Place T
  waking : ℕ → Place T
  unlocking finished dropped : Place T

pub data Access {T : Type 0} (s : Shared T) : Place T → Shared T → Place T → Type 0 where
  -- `JoinHandle::poll`, in a context whose waker is `w`. It may be called without a wake-up.
  first_poll :
      {w : ℕ} → s.locked ≡ false → Access s holding (record s { locked = true }) (polling w)
  next_poll :
      {w v : ℕ} → s.locked ≡ false → Access s (waiting v) (record s { locked = true }) (polling w)
  takes :
      {w : ℕ} {v : T}
      → s.state.result ≡ some v
      → Access s (polling w) (record s { state = record s.state { result = none } }) (taking v)
  parks :
      {w : ℕ}
      → s.state.result ≡ none
      → Access s (polling w) (record s { state = record s.state { waker = some w } }) (parking w)
  returns_ready : {v : T} → Access s (taking v) (record s { locked = false }) (returned v)
  returns_pending : {w : ℕ} → Access s (parking w) (record s { locked = false }) (waiting w)
  -- The future of `wrap_future_with_state`.
  polls : Access s running s running
  completes : {v : T} → Access s running s (locking v)
  panics : Access s running s dropped
  locks : {v : T} → s.locked ≡ false → Access s (locking v) (record s { locked = true }) (storing v)
  stores_waker :
      {v : T} {w : ℕ}
      → s.state.waker ≡ some w
      → Access s
          (storing v)
          (record s { state = record { result = some v; waker = none } })
          (waking w)
  stores :
      {v : T}
      → s.state.waker ≡ none
      → Access s (storing v) (record s { state = record s.state { result = some v } }) unlocking
  wakes : {w : ℕ} → Access s (waking w) (record s { woken = w ∷ s.woken }) unlocking
  unlocks : Access s unlocking (record s { locked = false }) finished

-- As `MultiThreadRuntime::spawn` leaves them. Thread 0 owns the handle, and thread 1 is the task.
abbrev pub started : {T : Type 0} → Threads (Shared T) (Place T)
started = record {
  memory = record { state = record { result = none; waker = none }; locked = false; woken = [] };
  place = λ i. if i == 0 then holding else running;
}

abbrev pub Reach : {T : Type 0} → Threads (Shared T) (Place T) → Type 0
Reach = Run Access started 2
