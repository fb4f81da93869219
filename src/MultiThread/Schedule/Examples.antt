-- ===== src/MultiThread/Schedule/Examples.antt =====
-- Two threads and one task: the first thread spawns and polls it, the second calls its waker during
-- the poll.
use mini_async_runtime.Base.{ℕ, ◌<◌, ◌≡◌, refl, false, arith, some}
use mini_async_runtime.MultiThread.ReadyQueue.{new, enqueue, dequeue}
use mini_async_runtime.MultiThread.Interleaving.{Run, begin, acts}
use mini_async_runtime.MultiThread.Schedule.{Shared, Pc, Move, System, idle_system, Reach}
use mini_async_runtime.MultiThread.Schedule.Invariant.{runs}
use mini_async_runtime.MultiThread.Schedule.Fair.{Passed, dequeued, bounded_bypass}
use mini_async_runtime.MultiThread.Schedule.Safety.{one_runner, Kept, no_lost_task}

abbrev Trace : Type 0
Trace = (s : System) × Reach 2 s

abbrev then_acts :
    (r : Trace) (i : ℕ) {m : Shared} {p : Pc} → i < 2 → Move r.0.memory (r.0.place i) m p → Trace
then_acts r i lt move = (_, acts i r.1 move lt)

abbrev spawned : Trace
spawned = then_acts (idle_system, begin) 0 (omega arith) (Move.spawns (omega arith))

abbrev queued : Trace
queued = then_acts spawned 0 (omega arith) Move.enqueues

dequeue-queued : dequeue queued.0.memory.ready_queue ≡ (new, some 1)
unfolding new enqueue dequeue
dequeue-queued = refl

abbrev taken : Trace
taken = then_acts queued 0 (omega arith) (Move.dequeues dequeue-queued)

abbrev polled : Trace
polled =
    then_acts (then_acts taken 0 (omega arith) (Move.finds refl)) 0 (omega arith) (Move.runs refl)

-- The second thread finds the state RUNNING and makes it NOTIFIED.
abbrev woken : Trace
woken =
    let called = then_acts polled 1 (omega arith) (Move.calls {id = 1} (omega arith)) in
    let loaded = then_acts called 1 (omega arith) (Move.loads_running refl) in
    then_acts loaded 1 (omega arith) (Move.running_wins refl)

abbrev settled : Trace
settled = then_acts woken 0 (omega arith) Move.pends

one_runner_example : runs 1 (woken.0.place 1) ≡ false
one_runner_example =
    one_runner 2 woken.0 1 0 1 woken.1 (omega arith) (omega arith) (omega arith) refl

no_lost_task_example : Kept 2 settled.0 1
no_lost_task_example = no_lost_task 2 settled.0 1 settled.1 refl refl

-- From the state with task 1 queued, the second thread dequeues it.
abbrev later : (t : System) × Run Move queued.0 2 t
later = (_, acts 1 begin (Move.dequeues dequeue-queued) (omega arith))

bounded_bypass_example : Passed 1 queued.0.memory.ready_queue.queue new.queue (dequeued later.1)
unfolding new enqueue
bounded_bypass_example = bounded_bypass 2 1 queued.0 later.0 refl later.1
