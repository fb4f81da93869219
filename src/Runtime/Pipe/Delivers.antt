-- ===== src/Runtime/Pipe/Delivers.antt =====
-- src/runtime.rs, src/channel.rs and src/join_handle.rs together: the messages that a task sends reach
-- the root future.
use mini_async_runtime.Base.{
  ℕ, suc, ◌≡◌, refl, sym, ap, ◌∙◌, true, false, none, some, List, [], ◌∷◌, ◌++◌, ready, length,
  append_assoc, append-nil, lookup, insert, remove,
}
use mini_async_runtime.ReadyQueue.{ReadyQueue, push, push_all, drain}
use mini_async_runtime.ReadyQueue
use mini_async_runtime.Executor.{Polled, Executor, tick}
use mini_async_runtime.Executor
use mini_async_runtime.Channel.{
  Inner, unbounded, wake_receiver, send, drop_sender, drop_receiver, poll_recv,
}
use mini_async_runtime.Task.{TaskState, spawned, complete, poll_handle}
use mini_async_runtime.Timer.{TimerWheel}
use mini_async_runtime.Reactor.Epoll.{Kernel}
use mini_async_runtime.Reactor.{Reactor}
use mini_async_runtime.Runtime.{World, spawn, next_task_id}
use mini_async_runtime.Runtime.Loop.{
  Env, returned, Ex, poll_task, run_ready, poll_root, check_root, finish, forget, wake_flag, loop,
  started, block_on,
}
use mini_async_runtime.Runtime.Pipe.{
  Shared, Job, sends, joins, receives, send_all, receive, received, body, with_sender,
}

module _ {A : Type 0} where
  -- The channel while its sender is there, and after that; and without the receiver.
  abbrev open_with : List A → Inner A ℕ
  open_with ms = record { queue = ms; rx_waker = none; sender_count = 1; rx_closed = false }

  abbrev shut_with : List A → Inner A ℕ
  shut_with ms = record { queue = ms; rx_waker = none; sender_count = 0; rx_closed = false }

  abbrev left_behind : Inner A ℕ
  left_behind = record { queue = []; rx_waker = none; sender_count = 0; rx_closed = true }

  send_all-queue : (ms q : List A) → send_all (open_with q) ms ≡ (open_with (q ++ ms), [])
  unfolding send_all send wake_receiver
  send_all-queue [] q = ap (λ l. (open_with l, [])) (sym (append-nil q))
  send_all-queue (m ∷ ms) q = rw (send_all-queue ms (q ++ m ∷ []), append_assoc q (m ∷ []) ms)

  receive-all :
      (ms values : List A) (id : ℕ)
      → receive (suc (length ms)) (shut_with ms) id values
        ≡ (left_behind, values ++ ms, ready (values ++ ms))
  unfolding receive poll_recv drop_receiver
  receive-all [] values id = rw (append-nil values)
  receive-all (m ∷ ms) values id =
      receive-all ms (values ++ m ∷ []) id
      ∙ ap (λ l. (left_behind, l, ready l)) (append_assoc values (m ∷ []) ms)

module _ {A : Type 0} {K : Kernel} (timers : TimerWheel ℕ) (reactor : Reactor K ℕ)
    (ms : List A) where
  abbrev world : Inner A ℕ → TaskState (Unit {0}) ℕ → World K (Shared A)
  world channel handle = record {
    timers = timers;
    reactor = reactor;
    outside = record { channel = channel; handle = handle };
  }

  -- The memory as the loop begins, after the poll of the sender, and after that of the root.
  abbrev env : World K (Shared A) → Env K (Shared A) (List A)
  env w = record { world = w; root = spawned; handle_woken = true }

  abbrev sent : Env K (Shared A) (List A)
  sent = env (world (shut_with ms) (record { result = some tt; waker = none }))

  abbrev ended : Env K (Shared A) (List A)
  ended = record {
    world = world left_behind (record { result = none; waker = none });
    root = record { result = some ms; waker = none };
    handle_woken = true;
  }

  sender-ends :
      poll_task body 2 1 (sends ms) (env (world unbounded spawned))
      ≡ record { result = ready tt; future = sends []; env = sent; woken = [] }
  unfolding poll_task body finish forget unbounded drop_sender wake_receiver complete spawned
  sender-ends = rw (send_all-queue ms [])

  receiver-ends :
      poll_task body 2 2 joins sent
      ≡ record { result = ready tt; future = receives ms; env = ended; woken = [] }
  unfolding poll_task body received finish forget complete wake_flag poll_handle spawned
  receiver-ends = rw (receive-all ms [] 2)

  abbrev ex :
      List (ℕ × Job A) → List ℕ → Env K (Shared A) (List A) → Ex K (Shared A) (Job A) (List A)
  ex tasks queue e = record {
    tasks = tasks;
    ready_queue = record { queue = queue; set = queue };
    env = e;
  }

  sender-polled :
      Executor.poll_task
        (poll_task body 2)
        (ex ((2, joins) ∷ (1, sends ms) ∷ []) [] (env (world unbounded spawned)))
        1
      ≡ ex ((2, joins) ∷ []) [] sent
  unfolding Executor.poll_task lookup remove Executor.settle push_all
  sender-polled = rw sender-ends

  receiver-polled :
      Executor.poll_task (poll_task body 2) (ex ((2, joins) ∷ []) [] sent) 2 ≡ ex [] [] ended
  unfolding Executor.poll_task lookup remove Executor.settle push_all
  receiver-polled = rw receiver-ends

  start : started (spawn (with_sender timers reactor ms) 2 joins).0 ≡ record {
    tasks = (2, joins) ∷ (1, sends ms) ∷ [];
    ready_queue = record { queue = 1 ∷ 2 ∷ []; set = 2 ∷ 1 ∷ [] };
    env = env (world unbounded spawned);
  }
  unfolding with_sender spawn next_task_id Executor.spawn push insert remove ReadyQueue.new
  start = refl

  -- One round polls both, and the next finds no task.
  all-polled :
      (rounds : ℕ)
      → run_ready body 2
          (suc (suc rounds))
          (started (spawn (with_sender timers reactor ms) 2 joins).0)
        ≡ some (ex [] [] ended)
  unfolding run_ready tick drain Executor.poll_tasks ReadyQueue.new
  all-polled rounds =
      ap (run_ready body 2 (suc (suc rounds))) start
      ∙ ap (λ e. run_ready body 2 (suc rounds) (Executor.poll_task (poll_task body 2) e 2))
          sender-polled
      ∙ ap (run_ready body 2 (suc rounds)) receiver-polled

  -- For every list of messages: a task that sends them and drops the sender, spawned on a runtime
  -- without other tasks as the first of the process, and a root future that joins it and then receives
  -- until the channel is closed. In the first iteration of `block_on`, in two rounds, the root has
  -- received just those messages, in order, and `block_on` returns them. No task is left.
  pub block_on-messages :
      (instant_now : Shared A → Shared A × ℕ) (turns rounds : ℕ)
      → (last : Ex K (Shared A) (Job A) (List A)) × (block_on body instant_now
            (with_sender timers reactor ms)
            2
            joins
            (suc turns)
            (suc (suc rounds))
          ≡ returned last ms)
        × (last.tasks ≡ [])
  unfolding block_on loop check_root poll_root poll_handle next_task_id
  block_on-messages instant_now turns rounds = (
    ex [] [] (record ended { root = record { result = none; waker = none }; handle_woken = false }),
    rw (loop, all-polled rounds),
    refl,
  )
