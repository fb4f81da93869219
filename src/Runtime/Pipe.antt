-- ===== src/Runtime/Pipe.antt =====
-- The program of `test_channel_sender_drop_closes` in src/lib.rs: a task that sends messages, and a
-- root future that joins it and receives until the channel is closed. Here the messages are any list.
pub mod Delivers
mod Examples
use mini_async_runtime.Base.{
  ℕ, zero, suc, ◌+◌, Option, none, some, List, [], ◌∷◌, ◌++◌, Poll, ready, pending, length,
}
use mini_async_runtime.Executor.{Polled}
use mini_async_runtime.Channel.{Inner, unbounded, send, drop_sender, drop_receiver, poll_recv}
use mini_async_runtime.Task.{TaskState, spawned, complete, poll_handle}
use mini_async_runtime.Timer.{TimerWheel}
use mini_async_runtime.Reactor.Epoll.{Kernel}
use mini_async_runtime.Reactor.{Reactor}
use mini_async_runtime.ReadyQueue
use mini_async_runtime.Runtime.{World, Runtime, spawn}

-- The channel, and what the sending task shares with its handle.
pub record Shared (A : Type 0) : Type 0 where
  pub channel : Inner A ℕ
  pub handle : TaskState (Unit {0}) ℕ

pub data Job (A : Type 0) : Type 0 where
  sends : List A → Job A
  joins : Job A
  receives : List A → Job A

module _ {A : Type 0} where
  -- `tx.send(m).unwrap()` for each message; the state and the wakers called.
  unfoldable pub send_all : Inner A ℕ → List A → Inner A ℕ × List ℕ
  send_all inner [] = (inner, [])
  send_all inner (m ∷ ms) =
      let o = send inner m in let (last, woken) = send_all o.state ms in (last, o.woken ++ woken)

  -- `while let Some(v) = rx.recv().await { values.push(v); }` in one poll, of which each turn takes a
  -- message off the queue.
  unfoldable pub receive : ℕ → Inner A ℕ → (id : ℕ) → List A → Inner A ℕ × List A × Poll (List A)
  receive zero inner id values = (inner, values, pending)
  receive (suc turns) inner id values =
      let (next, p) = poll_recv inner id in
      elim p [
        | pending ↦ (next, values, pending)
        | ready none ↦ (drop_receiver next, values, ready values)
        | ready (some v) ↦ receive turns next id (values ++ v ∷ [])
      ]

module _ {A : Type 0} {K : Kernel} where
  unfoldable pub received :
      (id : ℕ) → List A → World K (Shared A) → Polled (Job A) (World K (Shared A)) (List A)
  unfolding receive
  received id values world =
      let shared = world.outside in
      let (channel, got, p) =
        receive (suc (length shared.channel.queue)) shared.channel id values in
      record {
        result = p;
        future = receives got;
        env = record world { outside = record shared { channel = channel } };
        woken = [];
      }

  -- The result of the sender is in `handle`; what it gives to the executor is not looked at.
  unfoldable pub body :
      ℕ → Job A → World K (Shared A) → Polled (Job A) (World K (Shared A)) (List A)
  unfolding received send_all
  body id (sends ms) world =
      let (sent, woken) = send_all world.outside.channel ms in
      let closed = drop_sender sent in
      let done = complete world.outside.handle tt in
      record {
        result = ready [];
        future = sends [];
        env = record world { outside = record { channel = closed.state; handle = done.state } };
        woken = woken ++ closed.woken ++ done.woken;
      }
  body id joins world =
      let (handle, p) = poll_handle world.outside.handle id in
      let next = record world { outside = record world.outside { handle = handle } } in
      elim p [
        | pending ↦ record { result = pending; future = joins; env = next; woken = [] }
        | ready _ ↦ received id [] next
      ]
  body id (receives values) world = received id values world

  -- A runtime after `unbounded` and the `spawn` of the sender, the first of the process.
  unfoldable pub with_sender : TimerWheel ℕ → Reactor K ℕ → List A → Runtime K (Shared A) (Job A)
  unfolding spawn
  with_sender timers reactor ms =
      (spawn
        (record {
          tasks = [];
          ready_queue = ReadyQueue.new;
          world = record {
            timers = timers;
            reactor = reactor;
            outside = record { channel = unbounded; handle = spawned };
          };
        })
        1 (sends ms)).0
