-- ===== src/Executor.antt =====
-- src/executor.rs: the executor of the single-threaded runtime. What the program's futures do is a
-- parameter: a poll may change the memory that they share and call task wakers.
pub mod Round
pub mod Keeps
pub mod Cooperative
mod Examples
use mini_async_runtime.Base.{
  ℕ, Bool, true, false, Option, none, some, List, [], ◌∷◌, is_nil, Poll, ready, pending, HashMap,
  lookup, insert, remove,
}
use mini_async_runtime.ReadyQueue.{ReadyQueue, new, push, drain, push_all}

-- What a poll of a future gives: its result, the future that is left, the memory that it shares with
-- the rest of the program, and the ids of the tasks whose wakers it called, in order.
pub record Polled {ℓ} (F E A : Type ℓ) : Type ℓ where
  pub result : Poll A
  pub future : F
  pub env : E
  pub woken : List ℕ

-- The fields of `Executor`, and the memory that futures share. A task is its future: its id is the
-- key, and its waker is the one that `make_waker` builds for the id.
pub record Executor {ℓ} (F E : Type ℓ) : Type ℓ where
  pub tasks : HashMap F
  pub ready_queue : ReadyQueue
  pub env : E

module _ {ℓ} {F E : Type ℓ} where
  pub new_executor : E → Executor F E
  new_executor env = record { tasks = []; ready_queue = new; env = env }

  unfoldable pub spawn : Executor F E → ℕ → F → Executor F E
  spawn ex id future = record ex {
    tasks = insert id future ex.tasks;
    ready_queue = push ex.ready_queue id;
  }

  -- `waker_wake` and `waker_wake_by_ref`, for each of the ids in turn.
  unfoldable pub wake_all : Executor F E → List ℕ → Executor F E
  wake_all ex ids = record ex { ready_queue = push_all ex.ready_queue ids }

  unfoldable pub is_idle : Executor F E → Bool
  is_idle ex = is_nil ex.tasks

-- `Poll::Ready` removes the task, and `Poll::Pending` keeps it, with its future as polled.
unfoldable pub settle {ℓ} : {F : Type ℓ} → Poll (Unit {ℓ}) → ℕ → F → HashMap F → HashMap F
settle (ready _) id future tasks = remove id tasks
settle pending id future tasks = insert id future tasks

module _ {ℓ} {F E : Type ℓ} (poll : ℕ → F → E → Polled F E (Unit {ℓ})) where
  poll_found : Option F → ℕ → Executor F E → Executor F E
  unfolding settle wake_all
  poll_found none id ex = ex
  poll_found (some future) id ex =
      let p = poll id future ex.env in
      let polled = wake_all (record ex { env = p.env }) p.woken in
      record polled { tasks = settle p.result id p.future polled.tasks }

  -- The body of the loop in `tick`.
  unfoldable pub poll_task : Executor F E → ℕ → Executor F E
  unfolding poll_found
  poll_task ex id = poll_found (lookup id ex.tasks) id ex

  unfoldable pub poll_tasks : Executor F E → List ℕ → Executor F E
  poll_tasks ex [] = ex
  poll_tasks ex (id ∷ ids) = poll_tasks (poll_task ex id) ids

  unfoldable pub tick : Executor F E → Executor F E × Bool
  unfolding poll_tasks
  tick ex =
      let (queue, ids) = drain ex.ready_queue in
      let drained = record ex { ready_queue = queue } in
      elim (is_nil ids) [ true ↦ (drained, false) | false ↦ (poll_tasks drained ids, true) ]
