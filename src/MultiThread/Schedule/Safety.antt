-- ===== src/MultiThread/Schedule/Safety.antt =====
-- src/multi_thread/executor.rs: what follows for workers and wakers from the counts of threads.
use mini_async_runtime.Base.{
  ℕ, ◌<◌, ◌≡◌, ◌≢◌, ◌⊎◌, inl, inr, true, false, Bool-cases, contains, ==_iff, arith,
}
use mini_async_runtime.MultiThread.Threads.{count-pos, count-two, count-some}
use mini_async_runtime.MultiThread.Schedule.{scheduled, running, notified, Pc, System, Reach}
use mini_async_runtime.MultiThread.Schedule.Invariant.{Reach-Inv, carries, runs, is_scheduled}

-- In every state that any interleaving of spawns, wakers and workers reaches, while one thread is
-- between the start of the poll of a task and the end of its bookkeeping, no other thread is, so no
-- future is polled by two threads at once.
pub one_runner :
    (n : ℕ) (s : System) (q i j : ℕ)
    → Reach n s
    → i < n
    → j < n
    → i ≢ j
    → runs q (s.place i) ≡ true
    → runs q (s.place j) ≡ false
one_runner n s q i j reach lt lt' ne h =
    let tally = (Reach-Inv n s reach).tally q in
    ground (arith, tally.1, ne, count-two (runs q) n s.place i j, count-two (runs q) n s.place j i)

-- In every state that any interleaving reaches, a worker that has taken a task off the ready queue
-- finds it in the task map, and at its compare-exchange the state is SCHEDULED: neither early
-- return of `poll_task` is ever taken.
dequeued_task_runs :
    (n : ℕ) (s : System) (q i : ℕ)
    → Reach n s
    → i < n
    → (s.place i ≡ Pc.dequeued q) ⊎ (s.place i ≡ Pc.found q)
    → (s.memory.live q ≡ true) × (s.memory.phase q ≡ scheduled)
dequeued_task_runs n s q i reach lt at =
    let tally = (Reach-Inv n s reach).tally q in
    let here : carries q (s.place i) ≡ true = elim at [
      | inl e ↦ ground (arith, e, ==_iff q q)
      | inr e ↦ ground (arith, e, ==_iff q q)
    ] in
    ground (arith, tally.0, here, count-pos (carries q) n s.place i lt here)

-- In every state that any interleaving reaches, where a worker stands before the compare-exchange
-- from RUNNING to IDLE after a pending poll, the state is RUNNING or NOTIFIED, so that a failure
-- means that a waker was called during the poll.
settling-phase :
    (n : ℕ) (s : System) (q i : ℕ)
    → Reach n s
    → i < n
    → s.place i ≡ Pc.settling q
    → (s.memory.phase q ≡ running) ⊎ (s.memory.phase q ≡ notified)
settling-phase n s q i reach lt at =
    let tally = (Reach-Inv n s reach).tally q in
    let here : runs q (s.place i) ≡ true = ground (arith, at, ==_iff q q) in
    ground (arith, tally.1, here, count-pos (runs q) n s.place i lt here)

-- Who will poll task `q` again: the ready queue has it or a thread is on its way with it, or the
-- thread that polls it is going to reschedule it.
abbrev pub Kept : ℕ → System → ℕ → Type 0
Kept n s q =
    ((s.memory.phase q ≡ scheduled)
      × ((contains q s.memory.ready_queue.queue ≡ true)
          ⊎ ((i : ℕ) × (i < n) × (carries q (s.place i) ≡ true))))
    ⊎ ((s.memory.phase q ≡ notified) × ((i : ℕ) × (i < n) × (runs q (s.place i) ≡ true)))

-- In every state that any interleaving reaches, a live task that was spawned or woken since its
-- last poll started is not forgotten: its state is SCHEDULED, and it is in the ready queue or a
-- thread holds it on the way into the queue or to its poll; or its state is NOTIFIED, and a thread
-- is still in `poll_task` with it.
pub no_lost_task :
    (n : ℕ) (s : System) (q : ℕ)
    → Reach n s
    → s.memory.live q ≡ true
    → s.memory.owed q ≡ true
    → Kept n s q
no_lost_task n s q reach live owed =
    let tally = (Reach-Inv n s reach).tally q in
    let due = tally.4 owed live in
    elim (Bool-cases (is_scheduled (s.memory.phase q))) [
      | inl e ↦ inl (
        ground (arith, e),
        elim (Bool-cases (contains q s.memory.ready_queue.queue)) [
          | inl queued ↦ inl queued
          | inr not_queued ↦ inr (count-some (carries q) n s.place (ground (arith, tally.0)))
        ],
      )
      | inr e ↦
          inr (
            ground (arith, e, due),
            count-some (runs q) n s.place (ground (arith, tally.1, e, due)),
          )
    ]

-- In every state that any interleaving reaches, the ready queue holds only live tasks whose state is
-- SCHEDULED, and no thread holds a task that is queued.
queued-once :
    (n : ℕ) (s : System) (q i : ℕ)
    → Reach n s
    → i < n
    → contains q s.memory.ready_queue.queue ≡ true
    → (s.memory.live q ≡ true) × (s.memory.phase q ≡ scheduled) × (carries q (s.place i) ≡ false)
queued-once n s q i reach lt queued =
    let tally = (Reach-Inv n s reach).tally q in
    ground (arith, tally.0, count-pos (carries q) n s.place i lt)
