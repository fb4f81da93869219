-- ===== src/MultiThread/BlockOn.antt =====
-- src/multi_thread/runtime.rs, `block_on`: the thread that calls it, and the root task on whichever
-- worker polls it. Both take the mutex around the result for each access.
pub mod Parking
mod Examples
use mini_async_runtime.Base.{
  ℕ, ◌≡◌, Bool, true, false, Option, none, some, is_some, if◌then◌else◌, ◌==◌,
}
use mini_async_runtime.MultiThread.Interleaving.{Threads, Run}

-- The mutex with the result, and whether the caller is in the wait of the condition variable without a
-- notification, or has got one.
pub record Signal (T : Type 0) : Type 0 where
  pub result : Option T
  pub waits : Bool
  pub notified : Bool

pub data Place (T : Type 0) : Type 0 where
  -- The caller: before its look at the result, in the wait, and after `block_on`.
  checking blocked : Place T
  returned : T → Place T
  -- The root task: while its future is pending, before the store of the result, before
  -- `notify_one`, at its end, and dropped by `poll_task` after a panic.
  running : Place T
  storing : T → Place T
  notifying finished dropped : Place T

pub data Access {T : Type 0} (s : Signal T) : Place T → Signal T → Place T → Type 0 where
  takes : {v : T} → s.result ≡ some v → Access s checking (record s { result = none }) (returned v)
  -- `Condvar::wait` lets go of the mutex and waits at once.
  blocks : s.result ≡ none → Access s checking (record s { waits = true }) blocked
  resumes : s.notified ≡ true → Access s blocked (record s { notified = false }) checking
  -- A wake-up for no reason.
  stirs : s.waits ≡ true → Access s blocked (record s { waits = false }) checking
  polls : Access s running s running
  completes : {v : T} → Access s running s (storing v)
  panics : Access s running s dropped
  stores : {v : T} → Access s (storing v) (record s { result = some v }) notifying
  notifies :
      Access s notifying
        (if s.waits then record s { waits = false; notified = true } else s)
        finished

-- Thread 0 is the caller, and thread 1 the root task.
abbrev pub started : {T : Type 0} → Threads (Signal T) (Place T)
started = record {
  memory = record { result = none; waits = false; notified = false };
  place = λ i. if i == 0 then checking else running;
}

abbrev pub Reach : {T : Type 0} → Threads (Signal T) (Place T) → Type 0
Reach = Run Access started 2
