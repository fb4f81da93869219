-- ===== src/Task.antt =====
-- src/task.rs and src/join_handle.rs: the state that a task shares with its `JoinHandle`. The same
-- code stands in src/multi_thread/task.rs, where a `Mutex` makes each of these calls one step.
pub mod Handover
mod Examples
use mini_async_runtime.Base.{Option, none, some, List, [], to_list, Outcome, Poll, ready, pending}

pub record TaskState {ℓ} (T W : Type ℓ) : Type ℓ where
  pub result : Option T
  pub waker : Option W

module _ {ℓ} {T W : Type ℓ} where
  -- As `Runtime::spawn` makes it.
  unfoldable pub spawned : TaskState T W
  spawned = record { result = none; waker = none }

  -- What the future of `wrap_future_with_state` does once `future.await` has a result.
  unfoldable pub complete : TaskState T W → T → Outcome (TaskState T W) (Unit {ℓ}) W
  complete state result = record {
    state = record state { result = some result; waker = none };
    result = tt;
    woken = to_list state.waker;
  }

  -- `JoinHandle::poll`, in a context whose waker is `waker`.
  unfoldable pub poll_handle : TaskState T W → W → TaskState T W × Poll T
  poll_handle state waker = elim state.result [
    | some result ↦ (record state { result = none }, ready result)
    | none ↦ (record state { waker = some waker }, pending)
  ]
