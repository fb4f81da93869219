-- ===== src/MultiThread/Idle/Awake.antt =====
-- src/multi_thread/executor.rs, `run_worker`: who is awake while a task is queued, and who is the
-- driver.
use mini_async_runtime.Base.{
  ℕ, ◌≤◌, ◌<◌, ◌≡◌, ◌≢◌, Bool, true, false, ◌||◌, ltb, arith, Bool-cases, inl, inr,
}
use mini_async_runtime.MultiThread.ReadyQueue.{is_empty}
use mini_async_runtime.MultiThread.Threads.{count-pos, count-some, count-two, count_or, count_mono}
use mini_async_runtime.MultiThread.Interleaving.{Threads}
use mini_async_runtime.MultiThread.Idle.{Shared, Place, Reach}
use mini_async_runtime.MultiThread.Idle.Invariant.{
  Reach-Inv, enqueues, is_sleeping, is_waiting, is_active, holds_token, drives,
}

abbrev pub has_token : Place → Bool
has_token p = holds_token p || drives p

-- The thread can go on by itself, before any timeout.
abbrev pub can_act : Shared → Place → Bool
can_act s Place.outside = false
can_act s Place.joining = false
can_act s Place.exited = false
can_act s Place.sleeping = ltb 0 s.signals
can_act s Place.waiting = s.eventfd
can_act s _ = true

-- With at least one worker, and in every state that any interleaving of the workers and of threads
-- that enqueue tasks reaches: while a task is in the ready queue and `shutdown` has not been called,
-- some thread can go on before any timeout. It is a worker that is awake, a driver in `epoll_wait` whose eventfd has been written, a
-- worker on the condition variable that has been notified, or a thread that is still in
-- `enqueue_task`.
pub queued-awake :
    (workers n : ℕ) (s : Threads Shared Place)
    → 0 < workers
    → workers ≤ n
    → Reach workers n s
    → is_empty s.memory.ready_queue ≡ false
    → s.memory.shutdown ≡ false
    → (i : ℕ) × (i < n) × (can_act s.memory (s.place i) ≡ true)
queued-awake workers n s pos le reach queued runs =
    let inv = Reach-Inv workers n pos le s reach in
    let m = s.memory in
    let acts = can_act m in
    let among = λ (at : Place → Bool) (h : (p : Place) → at p ≡ true → acts p ≡ true).
      count_mono at acts n s.place h in
    count-some acts n s.place (elim (Bool-cases (ltb 0 m.signals)) [
      | inl signalled ↦
          ground
            (arith, inv.tally.1, signalled, among is_sleeping (λ p h. ground (arith, signalled, h)))
      | inr unsignalled ↦ elim (Bool-cases m.eventfd) [
        | inl kicked ↦ ground (
          arith,
          inv.tally.4 queued,
          unsignalled,
          among enqueues (λ p h. ground arith),
          among is_active (λ p h. ground arith),
          among is_waiting (λ p h. ground (arith, kicked, h)),
        )
        | inr unkicked ↦ ground (
          arith,
          inv.tally.4 queued,
          unsignalled,
          unkicked,
          among enqueues (λ p h. ground arith),
          among is_active (λ p h. ground arith),
        )
      ]
    ])

-- In every state that any interleaving reaches, at most one worker has the driver token, and the
-- token is set while one has it.
pub one_driver :
    (workers n : ℕ) (s : Threads Shared Place) (i j : ℕ)
    → 0 < workers
    → workers ≤ n
    → Reach workers n s
    → i < n
    → j < n
    → i ≢ j
    → has_token (s.place i) ≡ true
    → (has_token (s.place j) ≡ false) × (s.memory.driver_token ≡ true)
one_driver workers n s i j pos le reach lt lt' ne h =
    let inv = Reach-Inv workers n pos le s reach in
    ground (
      arith,
      inv.tally.2,
      count_or holds_token drives n s.place,
      count-pos has_token n s.place i lt h,
      count-two has_token n s.place i j,
      count-two has_token n s.place j i,
      ne,
      h,
    )
