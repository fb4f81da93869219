-- ===== src/Runtime/Cooperative.antt =====
-- src/runtime.rs, `block_on`, with futures that make progress at each poll and wake themselves.
use mini_async_runtime.Base.{
  ℕ, zero, suc, ◌+◌, ◌≤◌, ◌<◌, ◌≡◌, ◌∙◌, ap, inl, inr, refl, sym, subst, Bool, true, false, some,
  is_nil, contains, lookup, Poll, ready, pending, Bool-cases, Option-cases, arith, if◌then◌else◌,
  by-true,
}
use mini_async_runtime.Task.{poll_handle}
use mini_async_runtime.Reactor.Epoll.{Kernel}
use mini_async_runtime.Executor.{Polled, Executor, tick}
use mini_async_runtime.Executor
use mini_async_runtime.Executor.Cooperative.{
  Progressing, Dead, Progressing-Dead, spawn-Progressing, tick-Progressing, tick-Dead, tick-empty,
}
use mini_async_runtime.Runtime.Root.{chosen_by, Held, run_ready-Held, started-Held}
use mini_async_runtime.Runtime.{World, Runtime, next_task_id, spawn}
use mini_async_runtime.Runtime.Loop.{
  Env, returned, Turn, exits, Ex, forget, poll_task, run_ready, poll_root, check_root,
  after_woken_poll, loop, started, block_on,
}

abbrev pub executor : {K : Kernel} {U F : Type 0} → Runtime K U F → Executor F (World K U)
executor rt = record { tasks = rt.tasks; ready_queue = rt.ready_queue; env = rt.world }

forget-pending : {T : Type 0} (r : Poll T) → forget r ≡ pending → r ≡ pending
unfolding forget
forget-pending (ready v) e = absurd (ground arith)
forget-pending pending e = refl

module _ {K : Kernel} {U F T : Type 0} (body : ℕ → F → World K U → Polled F (World K U) T)
    (instant_now : U → U × ℕ) (rank : F → ℕ)
    (progress : (id : ℕ) (f : F) (w : World K U)
      → (body id f w).result ≡ pending
      → (contains id (body id f w).woken ≡ true) × (rank (body id f w).future < rank f)) where
  poll_task-progress :
      (root id : ℕ) (f : F) (env : Env K U T)
      → (poll_task body root id f env).result ≡ pending
      → (contains id (poll_task body root id f env).woken ≡ true)
        × (rank (poll_task body root id f env).future < rank f)
  unfolding poll_task
  poll_task-progress root id f env e =
      progress id f env.world (forget-pending (body id f env.world).result e)

  -- The rounds that a queue needs.
  abbrev needs : ℕ → Ex K U F T → ℕ
  needs n ex = if is_nil ex.ready_queue.queue then 1 else n + 2

  next_round : ℕ → Ex K U F T → Ex K U F T × Bool
  next_round root ex = tick (poll_task body root) ex

  advance :
      (root n : ℕ) (ex : Ex K U F T)
      → Progressing rank n ex
      → is_nil ex.ready_queue.queue ≡ false
      → ((next_round root ex).1 ≡ true)
        × ((m : ℕ) × Progressing rank m (next_round root ex).0
            × (needs m (next_round root ex).0 < needs n ex))
  unfolding next_round
  advance root zero ex h busy =
      let d = tick-Dead (poll_task body root) rank (poll_task-progress root) ex h busy in
      (d.0, (0, d.2, ground (arith, d.1, busy)))
  advance root (suc n) ex h busy =
      let d = tick-Progressing (poll_task body root) rank (poll_task-progress root) n ex h busy in
      (d.0, (n, d.1, ground (arith, busy)))

  abbrev Ends : (root rounds : ℕ) → Ex K U F T → Bool → Type 0
  Ends root rounds next polled =
      (out : Ex K U F T) × (chosen_by body root rounds next polled ≡ some out) × Dead rank out

  run_ready-ends :
      (root n rounds : ℕ) (ex : Ex K U F T)
      → Progressing rank n ex
      → needs n ex ≤ rounds
      → (out : Ex K U F T) × (run_ready body root rounds ex ≡ some out) × Dead rank out
  unfolding run_ready next_round
  run_ready-ends root n zero ex h le = absurd (ground arith)
  run_ready-ends root n (suc rounds) ex h le =
      let next = next_round root ex in
      elim (Bool-cases (is_nil ex.ready_queue.queue)) [
        | inl empty ↦
            let t = tick-empty (poll_task body root) rank (poll_task-progress root) ex empty in
            let dead = Progressing-Dead rank n ex h (inr empty) in
            subst (Ends root rounds next.0) (sym t.0)
              (next.0, refl, λ j. ap (lookup j) t.1 ∙ dead j)
        | inr busy ↦
            let (again, (m, h', lt)) = advance root n ex h busy in
            subst (Ends root rounds next.0) (sym again)
              (run_ready-ends root m rounds next.0 h' (omega (arith, lt, le)))
      ]

  abbrev Leaves : Turn (Ex K U F T) T → Type 0
  Leaves turn = (last : Ex K U F T) × (v : T) × (turn ≡ exits last v)

  -- Without live tasks the result of the root is stored, and the handle is polled.
  check_root-Dead :
      (root : ℕ) (out : Ex K U F T)
      → Held body instant_now root (λ _. Unit {0}) (λ f w v e. tt) out.tasks out.env
      → Dead rank out
      → Leaves (check_root instant_now out)
  unfolding check_root poll_root poll_handle after_woken_poll
  check_root-Dead root out held dead = elim (Option-cases out.env.root.result) [
    | inl missing ↦ absurd (ground (arith, missing, held.0, dead root))
    | inr (v, stored) ↦
        let woken : out.env.handle_woken ≡ true = held.1 (rw stored) in
        by-true Leaves _ woken (rw (stored, poll_handle) (_, v, refl))
  ]

-- With futures that at each pending poll call their own task's waker and lower a rank, and with all
-- tasks queued and of ranks below `n`, `block_on` returns a result: in its first iteration, within
-- `n + 2` rounds of `tick`, whatever the clock, the kernel and other wake-ups do.
pub block_on-cooperative :
    {K : Kernel} {U F T : Type 0} (body : ℕ → F → World K U → Polled F (World K U) T)
    (instant_now : U → U × ℕ) (rank : F → ℕ) (rt : Runtime K U F) (counter : ℕ) (future : F)
    (n turns rounds : ℕ)
    → ((id : ℕ) (f : F) (w : World K U)
        → (body id f w).result ≡ pending
        → (contains id (body id f w).woken ≡ true) × (rank (body id f w).future < rank f))
    → Progressing rank n (executor rt)
    → rank future < n
    → n + 2 ≤ rounds
    → (last : Ex K U F T) × (v : T) × (block_on body instant_now rt counter future
          (suc turns)
          rounds
        ≡ returned last v)
unfolding block_on loop spawn next_task_id
block_on-cooperative {K} {U} {F} {T} body instant_now rank rt counter future n turns rounds progress
      h lt le =
    let ex : Ex K U F T = started (spawn rt counter future).0 in
    let spawned_all : Progressing rank n (Executor.spawn (executor rt) counter future) =
      spawn-Progressing rank n (executor rt) counter future h lt in
    let begun : Progressing rank n ex = record { fifo = spawned_all.fifo; due = spawned_all.due } in
    let (out, ran, dead) =
      run_ready-ends body instant_now rank progress counter n rounds ex begun
        (ground (arith, le)) in
    let held =
      run_ready-Held body instant_now counter (λ _. Unit {0}) (λ f w v e. tt) rounds ex out ran
        (started-Held body instant_now counter (λ _. Unit {0}) (λ f w v e. tt) rt future) in
    let (last, v, left) = check_root-Dead body instant_now rank progress counter out held dead in
    (last, v, rw (ran, left, loop))
