-- ===== src/Waker/Atomic.antt =====
-- src/multi_thread/executor.rs: `make_waker` and the vtable of the wakers of the multi-threaded
-- runtime, with the memory that they manage: a box for each waker, and the counts of the `Arc`s that
-- are in it. Each call is one step here.
pub mod Owned
pub mod Refines
use mini_async_runtime.Base.{
  ℕ, zero, suc, Option, none, some, ◌>>=◌, HashMap, lookup, insert, remove,
}
use mini_async_runtime.MultiThread.ReadyQueue.{ReadyQueue, enqueue}
use mini_async_runtime.MultiThread.Threads.{update}
use mini_async_runtime.MultiThread.Schedule.{TaskPhase, idle, scheduled, running, notified}
use mini_async_runtime.Waker.{Vtable}

-- `task_state` is always the `Arc` of the task's state, and `shared` the one of the runtime.
pub record WakerData : Type 0 where
  pub task_id : ℕ

-- The boxes by their addresses; the strong count of the `Arc` of each task's state, and of the one
-- `Arc<SharedState>`; and what is in those `Arc`s: the states, and the ready queue.
pub record Memory : Type 0 where
  pub boxes : HashMap WakerData
  pub state_strong : ℕ → ℕ
  pub shared_strong : ℕ
  pub phase : ℕ → TaskPhase
  pub ready_queue : ReadyQueue

-- `Arc::clone` of both, and the drop of both.
pub arcs_clone : Memory → ℕ → Option Memory
arcs_clone m id = elim (m.state_strong id) [
  | zero ↦ none
  | suc n ↦ elim m.shared_strong [
    | zero ↦ none
    | suc k ↦ some (record m {
      state_strong = update m.state_strong id (suc (suc n));
      shared_strong = suc (suc k);
    })
  ]
]

pub arcs_drop : Memory → ℕ → Option Memory
arcs_drop m id = elim (m.state_strong id) [
  | zero ↦ none
  | suc n ↦ elim m.shared_strong [
    | zero ↦ none
    | suc k ↦ some (record m { state_strong = update m.state_strong id n; shared_strong = k })
  ]
]

-- `wake_by_ref_impl`, when no other thread changes the state meanwhile.
pub settle : TaskPhase → (ℕ → TaskPhase) × ReadyQueue → ℕ → (ℕ → TaskPhase) × ReadyQueue
settle idle (phase, q) id = (update phase id scheduled, enqueue q id)
settle running (phase, q) id = (update phase id notified, q)
settle _ (phase, q) id = (phase, q)

unfoldable pub wake_by_ref_impl : (ℕ → TaskPhase) × ReadyQueue → ℕ → (ℕ → TaskPhase) × ReadyQueue
unfolding settle
wake_by_ref_impl (phase, q) id = settle (phase id) (phase, q) id

-- Through the `Arc`s of a box.
pub wake_box : Memory → ℕ → Option Memory
wake_box m id = elim (m.state_strong id) [
  | zero ↦ none
  | suc n ↦ elim m.shared_strong [
    | zero ↦ none
    | suc k ↦
        let (phase, q) = wake_by_ref_impl (m.phase, m.ready_queue) id in
        some (record m { phase = phase; ready_queue = q })
  ]
]

-- `&*(ptr as *const WakerData)`
pub deref : Memory → ℕ → Option WakerData
deref m ptr = lookup ptr m.boxes

-- `Box::from_raw`, and the box freed at the end of the scope, which drops its `Arc`s.
pub free_box : Memory → ℕ → WakerData → Option Memory
unfolding arcs_drop
free_box m ptr box = arcs_drop (record m { boxes = remove ptr m.boxes }) box.task_id

pub waker_wake : Memory → ℕ → Option Memory
unfolding deref wake_box free_box
waker_wake m ptr = do box ← deref m ptr; m' ← wake_box m box.task_id; free_box m' ptr box

pub waker_wake_by_ref : Memory → ℕ → Option Memory
unfolding deref wake_box
waker_wake_by_ref m ptr = do box ← deref m ptr; wake_box m box.task_id

pub waker_drop : Memory → ℕ → Option Memory
unfolding deref free_box
waker_drop m ptr = do box ← deref m ptr; free_box m ptr box

-- The address that the allocator gives for a box, from those in use.
module _ (malloc : HashMap WakerData → ℕ) where
  -- `Box::into_raw(Box::new(data))`
  pub new_box : Memory → WakerData → Memory × ℕ
  new_box m box = let p = malloc m.boxes in (record m { boxes = insert p box m.boxes }, p)

  -- `make_waker(id, task_state.clone(), self.shared.clone())`
  pub make_waker : Memory → ℕ → Option (Memory × ℕ)
  unfolding new_box arcs_clone
  make_waker m id = do m' ← arcs_clone m id; some (new_box m' (record { task_id = id }))

  pub waker_clone : Memory → ℕ → Option (Memory × ℕ)
  unfolding deref arcs_clone new_box
  waker_clone m ptr = do
    box ← deref m ptr
    m' ← arcs_clone m box.task_id
    some (new_box m' (record { task_id = box.task_id }))

  abbrev pub vtable : Vtable Memory
  vtable = record {
    make = make_waker;
    clone = waker_clone;
    wake = waker_wake;
    wake_by_ref = waker_wake_by_ref;
    drop = waker_drop;
  }
