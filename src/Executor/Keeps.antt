-- ===== src/Executor/Keeps.antt =====
-- src/executor.rs, `Executor::tick`: properties of the tasks and of the shared memory, over one
-- round.
use mini_async_runtime.Base.{
  ℕ, ◌≡◌, some, List, [], ◌∷◌, is_nil, HashMap, lookup, Bool-cases, Option-cases, inl, inr,
}
use mini_async_runtime.ReadyQueue.{drain}
use mini_async_runtime.Executor.{settle, Polled, Executor, poll_task, poll_tasks, tick}

module _ {F E : Type 0} (poll : ℕ → F → E → Polled F E (Unit {0})) (I : HashMap F → E → Type 0)
    (kept : (id : ℕ) (future : F) (tasks : HashMap F) (env : E)
      → lookup id tasks ≡ some future
      → I tasks env
      → let p = poll id future env in I (settle p.result id p.future tasks) p.env) where
  poll_task-keeps :
      (ex : Executor F E) (id : ℕ)
      → I ex.tasks ex.env
      → let out = poll_task poll ex id in I out.tasks out.env
  unfolding poll_task
  poll_task-keeps ex id h = elim (Option-cases (lookup id ex.tasks)) [
    | inl gone ↦ rw (gone, poll_task) h
    | inr (f, found) ↦ rw (found, poll_task) (kept id f ex.tasks ex.env found h)
  ]

  poll_tasks-keeps :
      (ex : Executor F E) (ids : List ℕ)
      → I ex.tasks ex.env
      → let out = poll_tasks poll ex ids in I out.tasks out.env
  unfolding poll_tasks
  poll_tasks-keeps ex [] h = h
  poll_tasks-keeps ex (id ∷ ids) h =
      poll_tasks-keeps (poll_task poll ex id) ids (poll_task-keeps ex id h)

  pub tick-keeps :
      (ex : Executor F E) → I ex.tasks ex.env → let out = (tick poll ex).0 in I out.tasks out.env
  unfolding tick drain
  tick-keeps ex h = elim (Bool-cases (is_nil ex.ready_queue.queue)) [
    | inl none_ready ↦ rw (none_ready, tick) h
    | inr some_ready ↦ rw (some_ready, tick) (poll_tasks-keeps _ ex.ready_queue.queue h)
  ]
