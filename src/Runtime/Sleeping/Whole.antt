-- ===== src/Runtime/Sleeping/Whole.antt =====
-- src/runtime.rs, `block_on` of a future that sleeps, from its start.
use mini_async_runtime.Base.{
  ℕ, zero, suc, ◌+◌, ◌≤◌, ◌≡◌, refl, ap, ◌∙◌, true, false, none, some, [], ◌∷◌, arith, insert,
  remove, pending,
}
use mini_async_runtime.ReadyQueue.{ReadyQueue, push, push_all, drain}
use mini_async_runtime.ReadyQueue
use mini_async_runtime.Executor.{Polled, Executor, tick, is_idle, wake_all}
use mini_async_runtime.Executor
use mini_async_runtime.Timer.{TimerState, register, poll_sleep, update, heap_push}
use mini_async_runtime.Task.{spawned, poll_handle}
use mini_async_runtime.Reactor.Epoll.{Kernel}
use mini_async_runtime.Runtime.{spawn, next_task_id}
use mini_async_runtime.Runtime.Loop.{
  returned, Ex, poll_task, run_ready, poll_root, check_root, finish, forget, loop, started,
  block_on,
}
use mini_async_runtime.Runtime.Sleeping.{
  Sleeper, begins, sleeps, poll_timer, sleeper, Nap, asleep, unused,
}
use mini_async_runtime.Runtime.Sleeping.Clock.{after, after_mono}
use mini_async_runtime.Runtime.Sleeping.Returning.{
  same_id, lookup-only, remove-only, asleep-Returns,
}

-- The cells after `register` and a first poll.
abbrev waiting : (root next : ℕ) → (ℕ → TimerState ℕ) → ℕ → TimerState ℕ
waiting root next cells =
    update (update cells next (record { completed = false; waker = none })) next
      (record { completed = false; waker = some root })

waiting-held :
    (root next : ℕ) (cells : ℕ → TimerState ℕ)
    → waiting root next cells next ≡ record { completed = false; waker = some root }
waiting-held root next cells = rw (same_id next)

-- The timer after the first poll.
abbrev nap : (root fd next deadline : ℕ) → (ℕ → TimerState ℕ) → Nap
nap root fd next deadline cells = record {
  root = root;
  r = next;
  fd = fd;
  next = suc next;
  deadline = deadline;
  cells = waiting root next cells;
  held = waiting-held root next cells;
}

module _ {K : Kernel} {U : Type 0} {T : Type 0} (instant_now : U → U × ℕ) (duration : ℕ) (v : T)
    (root fd next : ℕ) (cells : ℕ → TimerState ℕ) (kernel : K.State) (u : U) where
  abbrev sleeping : Ex K U Sleeper T
  sleeping =
      asleep K U T (nap root fd next ((instant_now u).1 + duration) cells) kernel (instant_now u).0

  -- After the first round, before the handle is polled.
  abbrev first : Ex K U Sleeper T
  first = record sleeping { env = record sleeping.env { root = spawned; handle_woken = true } }

  sleeper-begins :
      (sleeper instant_now duration v) root begins (unused fd kernel cells next u).world
      ≡ record { result = pending; future = sleeps next; env = sleeping.env.world; woken = [] }
  unfolding sleeper poll_timer register poll_sleep heap_push
  sleeper-begins = rw (same_id next)

  -- As the loop begins.
  abbrev start : Ex K U Sleeper T
  start = record {
    tasks = (root, begins) ∷ [];
    ready_queue = record { queue = root ∷ []; set = root ∷ [] };
    env = record {
      world = (unused fd kernel cells next u).world;
      root = spawned;
      handle_woken = true;
    };
  }

  spawn-start : started (spawn (unused fd kernel cells next u) root begins).0 ≡ start
  unfolding spawn next_task_id Executor.spawn push insert remove ReadyQueue.new
  spawn-start = refl

  poll_task-begins :
      poll_task (sleeper instant_now duration v) root root begins start.env
      ≡ record { result = pending; future = sleeps next; env = first.env; woken = [] }
  unfolding poll_task finish forget
  poll_task-begins = rw (sleeper-begins, same_id root)

  start-polled :
      Executor.poll_task
        (poll_task (sleeper instant_now duration v) root)
        (record start { ready_queue = ReadyQueue.new })
        root
      ≡ first
  unfolding Executor.poll_task push_all Executor.settle insert ReadyQueue.new
  start-polled = rw (lookup-only root begins, poll_task-begins, remove-only root begins)

  first-polled :
      (rounds : ℕ)
      → run_ready (sleeper instant_now duration v) root (suc (suc rounds)) start ≡ some first
  unfolding run_ready tick drain ReadyQueue.new Executor.poll_tasks
  first-polled rounds =
      ap (run_ready (sleeper instant_now duration v) root (suc rounds)) start-polled

  check_root-first : check_root instant_now first ≡ check_root instant_now sleeping
  unfolding check_root poll_root poll_handle spawned
  check_root-first = refl

  loop-start :
      (turns rounds : ℕ)
      → loop (sleeper instant_now duration v) instant_now root (suc turns) (suc (suc rounds)) start
        ≡ loop
            (sleeper instant_now duration v)
            instant_now
            root
            (suc turns)
            (suc (suc rounds))
            sleeping
  unfolding loop run_ready tick drain
  loop-start turns rounds = rw (loop, first-polled rounds, check_root-first)

  -- A future that sleeps for a duration and then gives `v`, on a runtime without tasks, timers or
  -- registrations, and with a clock that never goes back, but may stand still. If the clock is past the
  -- first reading by the duration after `n` readings, `block_on` returns `v`, whatever the kernel does,
  -- in at most `n + 2` iterations of two rounds each. It does not return early: a reading of the clock
  -- afterwards is past its first by the duration at least.
  pub block_on-sleeper :
      (turns rounds n : ℕ)
      → ((u : U) → (instant_now u).1 ≤ (instant_now (instant_now u).0).1)
      → (instant_now u).1 + duration ≤ (instant_now (after instant_now n u)).1
      → n + 2 ≤ turns
      → 2 ≤ rounds
      → (last : Ex K U Sleeper T) × (block_on
            (sleeper instant_now duration v)
            instant_now
            (unused fd kernel cells next u)
            root
            begins
            turns
            rounds
          ≡ returned last v)
        × ((instant_now u).1 + duration ≤ (instant_now last.env.world.outside).1)
  unfolding block_on next_task_id
  block_on-sleeper zero rounds n advances passes le two = absurd (omega arith)
  block_on-sleeper (suc zero) rounds n advances passes le two = absurd (omega arith)
  block_on-sleeper (suc turns) zero n advances passes le two = absurd (omega arith)
  block_on-sleeper (suc turns) (suc zero) n advances passes le two = absurd (omega arith)
  block_on-sleeper (suc (suc turns)) (suc (suc rounds)) n advances passes le two =
      let (last, ends, late) =
        asleep-Returns instant_now duration v
          (nap root fd next ((instant_now u).1 + duration) cells) advances turns rounds kernel
          (instant_now u).0
          (omega (arith, passes, after_mono instant_now advances n (suc turns) u (omega arith))) in
      (
        last,
        ap
              (loop (sleeper instant_now duration v) instant_now root (suc (suc turns))
                (suc (suc rounds)))
              spawn-start
            ∙ loop-start (suc turns) rounds
            ∙ ends,
        late,
      )
