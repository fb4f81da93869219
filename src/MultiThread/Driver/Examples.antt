-- ===== src/MultiThread/Driver/Examples.antt =====
-- src/multi_thread/executor.rs, `drive_io`, and src/multi_thread/runtime.rs, `sleep`: a worker and a thread that registers a timer: the worker waits without a deadline, and then a timer is
-- registered.
use mini_async_runtime.Base.{
  ℕ, ◌≤◌, ◌<◌, ◌≡◌, ◌⊎◌, inl, refl, true, false, none, some, [], ◌∷◌, ◌+◌, Elem, if◌then◌else◌,
  ◌==◌, arith,
}
use mini_async_runtime.Timer.{TimerEntry}
use mini_async_runtime.MultiThread.Interleaving.{Threads, begin, acts}
use mini_async_runtime.MultiThread.TimerWheel.{
  new, process, has_pending, register, poll_sleep, extend,
}
use mini_async_runtime.Reactor.Scripted.{scripted}
use mini_async_runtime.ReadyQueue
use mini_async_runtime.Timer
use mini_async_runtime.Task.{spawned}
use mini_async_runtime.Executor.{wake_all}
use mini_async_runtime.Runtime.Loop.{Ex, goes_on, after_timers, process_timers}
use mini_async_runtime.MultiThread.Driver.Turn.{Io, drive_io, with_io, after_timers-drive_io}
use mini_async_runtime.MultiThread.Driver.{Shared, Place, Access, started, Reach, timeout}
use mini_async_runtime.MultiThread.Driver.Ends.{is_registered}
use mini_async_runtime.MultiThread.Driver.Punctual.{no_oversleep}

abbrev Trace : Type 0
Trace = (s : Threads Shared Place) × Reach 1 2 s

abbrev after :
    (r : Trace) (i : ℕ) {m : Shared} {p : Place}
    → i < 2
    → Access r.0.memory (r.0.place i) m p
    → Trace
after r i lt access = (_, acts i r.1 access lt)

abbrev waits : Trace
waits =
    let claimed = after (started 1, begin) 0 (omega arith) (Access.claims refl) in
    let checks = after claimed 0 (omega arith) (Access.processes 10) in
    after checks 0 (omega arith) Access.waits

abbrev registers : Trace
registers = after waits 1 (omega arith) (Access.registers 20)

abbrev timer : TimerEntry
timer = record { deadline = 20; state = 0 }

no_oversleep_example :
    (Elem timer registers.0.memory.wheel.heap → registers.0.memory.ends ≤ 20)
    × (Elem timer registers.0.memory.wheel.inbox
        → (registers.0.memory.eventfd ≡ true)
          ⊎ ((j : ℕ) × (j < 2) × (is_registered (registers.0.place j) ≡ true)))
no_oversleep_example =
    no_oversleep 1 2 registers.0 0 timer (omega arith) registers.1 (omega arith) refl

in_inbox : Elem timer registers.0.memory.wheel.inbox
unfolding register process new
in_inbox = inl refl

-- With no timer, the wait is 5 ms.
waits-ends : waits.0.memory.ends ≡ 5_000_010
unfolding timeout has_pending process new mini_async_runtime.Timer.process_heap
waits-ends = refl

-- One timer due at 20 and one at 50, at the readings 30 and 31 of the clock: the first one is fired
-- before the wait.
abbrev io : Io scripted ℕ
io =
    let early = (register new 20).0 in
    let sleeping = (poll_sleep early 0 7).0 in
    record {
      timers = (register sleeping 50).0;
      reactor = record {
        registrations = [];
        wake_fd = 3;
        kernel = record { list = λ q. if 3 == q then some 1 else none; batches = [] };
      };
      outside = 30;
    }

abbrev counts : ℕ → ℕ × ℕ
counts clock = (clock + 1, clock)

drive_io-io :
    ((drive_io counts io).woken ≡ 7 ∷ [])
    × ((drive_io counts io).state.timers.heap ≡ record { deadline = 50; state = 1 } ∷ [])
unfolding drive_io process mini_async_runtime.Timer.process_heap register poll_sleep new
    mini_async_runtime.Timer.heap_push mini_async_runtime.Reactor.poll
    mini_async_runtime.Reactor.Scripted.next_batch
drive_io-io = (refl, refl)

abbrev one_timer : Io scripted ℕ
one_timer = record io { timers = (register new 50).0 }

-- The single-threaded runtime with no task, in `block_on`.
abbrev idle_runtime : Ex scripted ℕ ℕ ℕ
idle_runtime = record {
  tasks = [];
  ready_queue = ReadyQueue.new;
  env = record {
    world = record { timers = Timer.new; reactor = io.reactor; outside = 0 };
    root = spawned;
    handle_woken = false;
  };
}

after_timers-drive_io_example :
    after_timers counts (process_timers counts (with_io counts idle_runtime one_timer))
    ≡ goes_on (
        wake_all
          (with_io counts idle_runtime (drive_io counts one_timer).state)
          (drive_io counts one_timer).woken)
unfolding process_timers ReadyQueue.is_empty wake_all ReadyQueue.push_all Timer.process
    mini_async_runtime.MultiThread.TimerWheel.Refines.flush extend register new Timer.heap_push
    ReadyQueue.new Timer.has_pending
after_timers-drive_io_example = after_timers-drive_io counts idle_runtime one_timer refl refl
