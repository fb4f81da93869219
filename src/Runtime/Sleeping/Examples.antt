-- ===== src/Runtime/Sleeping/Examples.antt =====
-- src/runtime.rs, `block_on` of a future that sleeps, at a concrete input.
use mini_async_runtime.Base.{
  ℕ, false, [], ◌+◌, ◌/◌, ◌≤◌, ◌≡◌, none, some, if◌then◌else◌, ◌==◌, arith,
}
use mini_async_runtime.Timer.{TimerState}
use mini_async_runtime.Reactor.Scripted.{scripted}
use mini_async_runtime.Runtime.Loop.{Ex, returned, block_on}
use mini_async_runtime.Runtime.Sleeping.{Sleeper, begins, sleeper, unused}
use mini_async_runtime.Runtime.Sleeping.Whole.{block_on-sleeper}

-- The clock counts every second of its readings.
abbrev counts : ℕ → ℕ × ℕ
counts clock = (clock + 1, clock / 2)

abbrev kernel : scripted.State
kernel = record { list = λ q. if 3 == q then some 1 else none; batches = [] }

abbrev cells : ℕ → TimerState ℕ
cells r = record { completed = false; waker = none }

block_on-sleeper_example :
    (last : Ex scripted ℕ Sleeper ℕ) × (block_on
        (sleeper counts 3 8)
        counts
        (unused 9 kernel cells 0 5)
        1
        begins
        8
        2
      ≡ returned last 8)
    × (2 + 3 ≤ (counts last.env.world.outside).1)
block_on-sleeper_example =
    block_on-sleeper counts 3 8 1 9 0 cells kernel 5 8 2 6 (λ u. omega arith) (omega arith)
      (omega arith) (omega arith)
