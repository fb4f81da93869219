-- ===== src/Runtime/Examples.antt =====
-- Tests of src/runtime.rs, and the theorems about it at concrete inputs.
use mini_async_runtime.Base.{
  Option, is_some, ℕ, ◌+◌, ◌-◌, ◌*◌, ◌<◌, ◌≡◌, refl, true, false, none, some, [], ◌∷◌, contains,
  lookup, insert, remove, ready, pending, if◌then◌else◌, ◌==◌, arith, ==_iff,
}
use mini_async_runtime.ReadyQueue
use mini_async_runtime.Timer
use mini_async_runtime.Executor
use mini_async_runtime.Reactor
use mini_async_runtime.Reactor.Scripted.{scripted, next_batch}
use mini_async_runtime.Executor.{Polled, tick}
use mini_async_runtime.Task.{poll_handle, spawned, complete}
use mini_async_runtime.Executor.Cooperative.{Progressing, spawn-Progressing}
use mini_async_runtime.Runtime.{World, Runtime, next_task_id, spawn}
use mini_async_runtime.Runtime.Loop.{
  started, run_ready, check_root, Turn, goes_on, breaks, exits, Exit, returned, panicked,
  out_of_fuel, Ex, block_on, loop, wake_flag, poll_task, wait,
}
use mini_async_runtime.Runtime.Root.{Returns, block_on-Returns}
use mini_async_runtime.Executor.Round.{logged, unlogged}
use mini_async_runtime.Timer.History.{Clocked, Reach, start, later, registers, sleeps}
use mini_async_runtime.Runtime.Delivery.{timer, wait-polls}
use mini_async_runtime.Runtime.Prompt.{first, goes_on-live}
use mini_async_runtime.Runtime.Cooperative.{executor, block_on-cooperative}

-- The clock counts its readings, in nanoseconds of a second each.
abbrev ticks : ℕ → ℕ × ℕ
ticks clock = (clock + 1, clock * 1_000_000_000)

abbrev blank : Runtime scripted ℕ ℕ
blank = record {
  tasks = [];
  ready_queue = ReadyQueue.new;
  world = record {
    timers = Timer.new;
    reactor = record {
      registrations = [];
      wake_fd = 3;
      kernel = record { list = λ q. if 3 == q then some 1 else none; batches = [] };
    };
    outside = 0;
  };
}

-- A future that yields `future` times and gives 42.
abbrev yields : ℕ → ℕ → World scripted ℕ → Polled ℕ (World scripted ℕ) ℕ
yields id future world = record {
  result = if future == 0 then ready 42 else pending;
  future = future - 1;
  env = world;
  woken = id ∷ [];
}

abbrev value_of : {S : Type 0} → Exit S ℕ → ℕ
value_of (returned last v) = v
value_of (panicked last) = 1
value_of out_of_fuel = 0

-- A future that sleeps until the instant of three seconds.
abbrev sleeper : ℕ → ℕ → World scripted ℕ → Polled ℕ (World scripted ℕ) ℕ
sleeper id future world =
    let (timers, r) =
      if future == 0 then Timer.register world.timers 3_000_000_000 else (world.timers, 0) in
    let (timers', done) = Timer.poll_sleep timers r id in
    record {
      result = elim done [ ready _ ↦ ready 7 | pending ↦ pending ];
      future = 1;
      env = record world { timers = timers' };
      woken = [];
    }

block_on-three_seconds : value_of (block_on sleeper ticks blank 1 0 4 9) ≡ 7
unfolding block_on loop tick ReadyQueue.drain Executor.poll_task Executor.spawn ReadyQueue.push
    ReadyQueue.new lookup insert remove Timer.new Timer.register Timer.poll_sleep Timer.process
    Reactor.poll ReadyQueue.push_all poll_handle spawned Executor.is_idle ReadyQueue.is_empty
    Timer.heap_push Timer.has_pending next_batch wake_flag complete
block_on-three_seconds = refl

yields-42 : (f : ℕ) (w : World scripted ℕ) (v : ℕ) → (yields 2 f w).result ≡ ready v → v ≡ 42
yields-42 f w v e = ground arith

yields-progress :
    (id f : ℕ) (w : World scripted ℕ)
    → (yields id f w).result ≡ pending
    → (contains id (yields id f w).woken ≡ true) × ((yields id f w).future < f)
yields-progress id f w e = ground (arith, ==_iff id id)

-- Task 1 has been spawned before, and yields three times.
abbrev with_task : Runtime scripted ℕ ℕ
with_task = (spawn blank 1 3).0

blank-Progressing : Progressing (λ f. f) 6 (executor blank)
unfolding ReadyQueue.new lookup
blank-Progressing = record {
  fifo = record { distinct = refl; indexed = λ id. refl };
  due = λ j f live. absurd (ground arith);
}

with_task-Progressing : Progressing (λ f. f) 6 (executor with_task)
unfolding spawn next_task_id
with_task-Progressing =
    let h = spawn-Progressing (λ f. f) 6 (executor blank) 1 3 blank-Progressing (omega arith) in
    record { fifo = h.fifo; due = h.due }

block_on-Returns_example : Returns (λ v. v ≡ 42) (block_on yields ticks with_task 2 5 9 9)
block_on-Returns_example = block_on-Returns yields ticks (λ v. v ≡ 42) with_task 2 5 9 9 yields-42

block_on-cooperative_example :
    (last : Ex scripted ℕ ℕ ℕ) × (v : ℕ) × (block_on yields ticks with_task 2 5 1 8
      ≡ returned last v)
block_on-cooperative_example =
    block_on-cooperative yields ticks (λ f. f) with_task 2 5 6 0 8 yields-progress
      with_task-Progressing (omega arith) (omega arith)

-- The sleeper is pending in the first iteration.
abbrev sleeping : Ex scripted ℕ ℕ ℕ
sleeping = started (spawn blank 1 0).0

abbrev or_sleeping : Option (Ex scripted ℕ ℕ ℕ) → Ex scripted ℕ ℕ ℕ
or_sleeping none = sleeping
or_sleeping (some ex) = ex

abbrev after_turn : Turn (Ex scripted ℕ ℕ ℕ) ℕ → Ex scripted ℕ ℕ ℕ
after_turn (goes_on ex) = ex
after_turn (breaks ex) = ex
after_turn (exits ex v) = ex

abbrev idle_sleeper : Ex scripted ℕ ℕ ℕ
idle_sleeper = or_sleeping (run_ready sleeper 1 9 sleeping)

goes_on-live_example : is_some (lookup 1 (after_turn (check_root ticks idle_sleeper)).tasks) ≡ true
unfolding run_ready check_root spawn tick ReadyQueue.drain Executor.poll_task Executor.spawn
    ReadyQueue.push ReadyQueue.new lookup insert remove Timer.new Timer.register Timer.poll_sleep
    Timer.process Reactor.poll ReadyQueue.push_all poll_handle spawned Executor.is_idle
    ReadyQueue.is_empty Timer.heap_push Timer.has_pending next_batch wake_flag complete
goes_on-live_example =
    goes_on-live sleeper ticks blank 1 0 9 sleeping idle_sleeper
      (after_turn (check_root ticks idle_sleeper)) first refl refl

-- Task 1 waits for timer 0, with a deadline at 3.
abbrev one_timer : Clocked ℕ
one_timer =
    let registered = (Timer.register Timer.new 3).0 in
    record {
      wheel = (Timer.poll_sleep registered 0 1).0;
      clock = 0;
      deadlines = λ r. if 0 == r then 3 else 0;
    }

one_timer-Reach : Reach one_timer
unfolding Timer.register Timer.new
one_timer-Reach = later (later start (registers 3)) (sleeps 0 1 (omega arith))

abbrev waiting : Ex scripted ℕ ℕ ℕ
waiting = record {
  tasks = (1, 5) ∷ [];
  ready_queue = ReadyQueue.new;
  env = record {
    world = record { timers = one_timer.wheel; reactor = blank.world.reactor; outside = 4 };
    root = spawned;
    handle_woken = false;
  };
}

wait-polls_example :
    let after = wait ticks waiting 3 in
    let round =
      tick (logged (poll_task yields 1)) (unlogged after.tasks after.ready_queue after.env) in
    contains 1 round.0.env.polled ≡ true
unfolding lookup Timer.register Timer.new Timer.poll_sleep ReadyQueue.new
wait-polls_example =
    wait-polls ticks yields 1 waiting 3 1 (record { distinct = refl; indexed = λ id. refl }) refl
      (timer one_timer 0 one_timer-Reach refl (omega arith) refl refl (omega arith))
