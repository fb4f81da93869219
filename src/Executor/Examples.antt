-- ===== src/Executor/Examples.antt =====
-- Tests of src/executor.rs, and the theorems about it at concrete inputs.
use mini_async_runtime.Base.{
  ℕ, ◌+◌, ◌-◌, ◌≡◌, refl, true, [], ◌∷◌, ready, pending, lookup, insert, arith, none, if◌then◌else◌,
  ◌==◌,
}
use mini_async_runtime.ReadyQueue.{ReadyQueue, new, push, drain, push_all}
use mini_async_runtime.ReadyQueue.Fifo.{Fifo, enqueue_all, push_all-enqueue_all}
use mini_async_runtime.Executor.{Polled, Executor, new_executor, spawn, poll_task, tick}
use mini_async_runtime.Executor.Round.{live_ids, logged, unlogged, tick-polled}

-- A future that yields `future` times, waking itself, and counts the polls.
abbrev yields : ℕ → ℕ → ℕ → Polled ℕ ℕ (Unit {0})
yields id future count = record {
  result = if future == 0 then ready tt else pending;
  future = future - 1;
  env = count + 1;
  woken = if future == 0 then [] else id ∷ [];
}

abbrev two_tasks : Executor ℕ ℕ
two_tasks = spawn (spawn (new_executor 0) 1 2) 2 0

abbrev queue_of_three : ReadyQueue
queue_of_three = record { queue = 2 ∷ 9 ∷ 1 ∷ []; set = 1 ∷ 9 ∷ 2 ∷ [] }

queue_of_three-Fifo : Fifo queue_of_three
queue_of_three-Fifo = record { distinct = refl; indexed = λ id. ground arith }

tick-two_tasks :
    ((tick yields two_tasks).1 ≡ true)
    × ((tick yields two_tasks).0.ready_queue.queue ≡ 1 ∷ [])
    × (lookup 2 (tick yields two_tasks).0.tasks ≡ none)
    × ((tick yields two_tasks).0.env ≡ 2)
unfolding tick drain poll_task push_all new_executor spawn new push lookup insert
tick-two_tasks = (refl, refl, refl, refl)

push_all-enqueue_all_example :
    ((push_all queue_of_three (3 ∷ 9 ∷ 3 ∷ [])).queue
      ≡ enqueue_all queue_of_three.queue (3 ∷ 9 ∷ 3 ∷ []))
    × Fifo (push_all queue_of_three (3 ∷ 9 ∷ 3 ∷ []))
push_all-enqueue_all_example =
    push_all-enqueue_all queue_of_three (3 ∷ 9 ∷ 3 ∷ []) queue_of_three-Fifo

tick-polled_example :
    (tick (logged yields) (unlogged two_tasks.tasks queue_of_three 0)).0.env.polled
    ≡ live_ids two_tasks.tasks queue_of_three.queue
tick-polled_example = tick-polled yields two_tasks.tasks queue_of_three 0 queue_of_three-Fifo
