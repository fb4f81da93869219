-- ===== src/MultiThread/Schedule.antt =====
-- src/multi_thread/executor.rs and task.rs: the atomic state of each task, the wakers and the
-- workers, as threads that take one shared access at a time in any order. A waker that a future
-- calls while it is polled counts as a thread of its own, which allows more orders than the program
-- has. All accesses are sequentially consistent.
pub mod Invariant
pub mod Safety
pub mod Fair
mod Examples
use mini_async_runtime.Base.{
  ℕ, suc, ◌≡◌, ◌≢◌, ◌<◌, Bool, true, false, Option, some, if◌then◌else◌, ◌==◌, usize_mod,
}
use mini_async_runtime.MultiThread.ReadyQueue.{ReadyQueue, new, enqueue, dequeue}
use mini_async_runtime.MultiThread.Threads.{update}
use mini_async_runtime.MultiThread.Interleaving.{Threads, Run}

-- The values of the `AtomicU8`.
pub data TaskPhase : Type 0 where
  idle scheduled running notified : TaskPhase

-- The memory that the threads share: the counter of `next_task_id`, which ids are keys of the task
-- map, the state of each task, and the ready queue. `owed` is no part of the program: a spawn or a
-- wake-up sets it, and the start of a poll clears it. Ids that are not given out have the state
-- `running`, which no access reads. `active_count`, which nothing reads, is left out.
pub record Shared : Type 0 where
  pub next_id : ℕ
  pub live : ℕ → Bool
  pub phase : ℕ → TaskPhase
  pub ready_queue : ReadyQueue
  pub owed : ℕ → Bool

-- Where a thread stands, with the task that it is at.
pub data Pc : Type 0 where
  free : Pc
  -- `wake_by_ref_impl`: at the load, and before either compare-exchange
  waking wake_idle wake_running : (id : ℕ) → Pc
  -- before the enqueuing of `enqueue_task`
  enqueuing : (id : ℕ) → Pc
  -- `run_worker` and `poll_task`: at the look-up, before the compare-exchange, and in the poll
  dequeued found polling : (id : ℕ) → Pc
  -- after the poll: before the compare-exchange to IDLE, before the store, and before the removal
  settling rescheduling removing : (id : ℕ) → Pc

abbrev pub to_phase : Shared → ℕ → TaskPhase → Shared
to_phase s id phase = record s { phase = update s.phase id phase }

abbrev pub owe : Shared → ℕ → Bool → Shared
owe s id b = record s { owed = update s.owed id b }

-- One access of one thread.
pub data Move (s : Shared) : Pc → Shared → Pc → Type 0 where
  -- A waker of a task that has been spawned is called.
  calls : {id : ℕ} → id < s.next_id → Move s free s (waking id)
  loads_idle : {id : ℕ} → s.phase id ≡ idle → Move s (waking id) s (wake_idle id)
  loads_running : {id : ℕ} → s.phase id ≡ running → Move s (waking id) s (wake_running id)
  loads_other :
      {id : ℕ} → s.phase id ≢ idle → s.phase id ≢ running → Move s (waking id) (owe s id true) free
  -- A weak compare-exchange may also fail for no reason.
  idle_wins :
      {id : ℕ}
      → s.phase id ≡ idle
      → Move s (wake_idle id) (owe (to_phase s id scheduled) id true) (enqueuing id)
  idle_fails : {id : ℕ} → Move s (wake_idle id) s (waking id)
  running_wins :
      {id : ℕ}
      → s.phase id ≡ running
      → Move s (wake_running id) (owe (to_phase s id notified) id true) free
  running_fails : {id : ℕ} → Move s (wake_running id) s (waking id)
  enqueues :
      {id : ℕ} → Move s (enqueuing id) (record s { ready_queue = enqueue s.ready_queue id }) free
  dequeues :
      {id : ℕ} {out : ReadyQueue}
      → dequeue s.ready_queue ≡ (out, some id)
      → Move s free (record s { ready_queue = out }) (dequeued id)
  finds : {id : ℕ} → s.live id ≡ true → Move s (dequeued id) s (found id)
  misses : {id : ℕ} → s.live id ≡ false → Move s (dequeued id) s free
  runs :
      {id : ℕ}
      → s.phase id ≡ scheduled
      → Move s (found id) (owe (to_phase s id running) id false) (polling id)
  skips : {id : ℕ} → s.phase id ≢ scheduled → Move s (found id) s free
  pends : {id : ℕ} → Move s (polling id) s (settling id)
  -- The poll is ready, or it panics.
  finishes : {id : ℕ} → Move s (polling id) s (removing id)
  removes : {id : ℕ} → Move s (removing id) (record s { live = update s.live id false }) free
  idles : {id : ℕ} → s.phase id ≡ running → Move s (settling id) (to_phase s id idle) free
  is_notified : {id : ℕ} → s.phase id ≢ running → Move s (settling id) s (rescheduling id)
  reschedules : {id : ℕ} → Move s (rescheduling id) (to_phase s id scheduled) (enqueuing id)
  -- `MultiThreadRuntime::spawn` up to the insertion into the map; the counter does not wrap.
  spawns :
      suc s.next_id < usize_mod
      → Move s free
          (record s {
            next_id = suc s.next_id;
            live = update s.live s.next_id true;
            phase = update s.phase s.next_id scheduled;
            owed = update s.owed s.next_id true;
          })
          (enqueuing s.next_id)

abbrev pub System : Type 0
System = Threads Shared Pc

-- No task has been spawned, and the counter is at its first value.
abbrev pub idle_system : System
idle_system = record {
  memory = record {
    next_id = 1;
    live = λ _. false;
    phase = λ _. running;
    ready_queue = new;
    owed = λ _. false;
  };
  place = λ _. free;
}

-- The states that `n` threads reach.
abbrev pub Reach : ℕ → System → Type 0
Reach = Run Move idle_system
