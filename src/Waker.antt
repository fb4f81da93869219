-- ===== src/Waker.antt =====
-- `std::task::RawWakerVTable` and `Waker`, as src/executor.rs, src/multi_thread/executor.rs and
-- src/runtime.rs fill and use them: what the functions of a vtable do to memory, through raw pointers,
-- and what a program does with the wakers that it holds.
pub mod Holding
pub mod Client
pub mod Boxes
pub mod Local
pub mod Flag
pub mod Atomic
mod Examples
use mini_async_runtime.Base.{ℕ, Option, HashMap}

-- Which functions make a waker and are in the vtable, over a memory `M`. A pointer is a number, and
-- none is a use of memory that is not allocated.
pub record Vtable (M : Type 0) : Type 0 where
  pub make : M → ℕ → Option (M × ℕ)
  pub clone : M → ℕ → Option (M × ℕ)
  pub wake : M → ℕ → Option M
  pub wake_by_ref : M → ℕ → Option M
  pub drop : M → ℕ → Option M

-- The wakers that a program holds: the pointer of each, and the task that it was made for. There is an
-- entry for each waker, also where pointers are equal.
abbrev pub Held : Type 0
Held = HashMap ℕ

pub data Use : Type 0 where
  clones wakes wakes_by_ref drops : Use

-- What a program does: it makes a waker for a task, or uses the one at a place among those that it holds.
pub data Call : Type 0 where
  makes : (task_id : ℕ) → Call
  uses : (i : ℕ) → Use → Call
