-- ===== src/Waker/Local.antt =====
-- src/executor.rs: `make_waker` and the vtable of task wakers, with the memory that they manage: a
-- box for each waker, and the count of the `Rc` of the ready queue.
pub mod Refines
use mini_async_runtime.Base.{
  Takes, Takes-length, ℕ, zero, suc, ◌+◌, ◌≡◌, refl, sym, Option, none, some, List, [], ◌∷◌, ◌>>=◌,
  HashMap, lookup, insert, remove, length, if◌then◌else◌, ◌==◌, arith,
}
use mini_async_runtime.ReadyQueue.{ReadyQueue, push}
use mini_async_runtime.Waker.{Vtable, Held}
use mini_async_runtime.Waker.Client.{Sound}
use mini_async_runtime.Waker.Boxes.{Boxed, insert-Boxed, remove-Boxed, found-Boxed}

-- `queue` is always the `Rc` of the executor's ready queue.
pub record WakerData : Type 0 where
  pub task_id : ℕ

-- The boxes by their addresses, and the strong count of the `Rc` with the queue in it, which is freed
-- once the count is 0.
pub record Memory : Type 0 where
  pub boxes : HashMap WakerData
  pub strong : ℕ
  pub ready_queue : ReadyQueue

-- `Rc::clone` and the drop of an `Rc`.
pub rc_clone : Memory → Option Memory
rc_clone m = elim m.strong [ zero ↦ none | suc n ↦ some (record m { strong = suc (suc n) }) ]

pub rc_drop : Memory → Option Memory
rc_drop m = elim m.strong [ zero ↦ none | suc n ↦ some (record m { strong = n }) ]

-- `queue.borrow_mut().push(task_id)`
pub push_id : Memory → ℕ → Option Memory
push_id m id = elim m.strong [
  | zero ↦ none
  | suc _ ↦ some (record m { ready_queue = push m.ready_queue id })
]

-- `&*(ptr as *const WakerData)`
pub deref : Memory → ℕ → Option WakerData
deref m ptr = lookup ptr m.boxes

-- `Box::from_raw`, and the box freed at the end of the scope, which drops its `Rc`.
pub free_box : Memory → ℕ → Option Memory
unfolding rc_drop
free_box m ptr = rc_drop (record m { boxes = remove ptr m.boxes })

pub waker_wake_by_ref : Memory → ℕ → Option Memory
unfolding deref push_id
waker_wake_by_ref m ptr = do box ← deref m ptr; push_id m box.task_id

pub waker_wake : Memory → ℕ → Option Memory
unfolding deref push_id free_box
waker_wake m ptr = do box ← deref m ptr; m' ← push_id m box.task_id; free_box m' ptr

pub waker_drop : Memory → ℕ → Option Memory
unfolding deref free_box
waker_drop m ptr = do box ← deref m ptr; free_box m ptr

-- The address that the allocator gives for a box, from those in use.
module _ (malloc : HashMap WakerData → ℕ) where
  -- `Box::into_raw(Box::new(data))`
  pub new_box : Memory → WakerData → Memory × ℕ
  new_box m box = let p = malloc m.boxes in (record m { boxes = insert p box m.boxes }, p)

  -- `make_waker(task_id, Rc::clone(&queue))`
  pub make_waker : Memory → ℕ → Option (Memory × ℕ)
  unfolding new_box rc_clone
  make_waker m id = do m' ← rc_clone m; some (new_box m' (record { task_id = id }))

  pub waker_clone : Memory → ℕ → Option (Memory × ℕ)
  unfolding deref rc_clone new_box
  waker_clone m ptr = do
    box ← deref m ptr
    m' ← rc_clone m
    some (new_box m' (record { task_id = box.task_id }))

  abbrev pub vtable : Vtable Memory
  vtable = record {
    make = make_waker;
    clone = waker_clone;
    wake = waker_wake;
    wake_by_ref = waker_wake_by_ref;
    drop = waker_drop;
  }
