-- ===== src/Runtime/Delivery.antt =====
-- src/runtime.rs, `block_on`: the way of an event or of an expired timer to the poll of the task that
-- waits for it.
use mini_async_runtime.Base.{
  ℕ, ◌≤◌, ◌<◌, ◌≡◌, ◌≢◌, refl, sym, subst, Bool, true, false, some, List, [], ◌∷◌, ◌++◌,
  Elem-append_left, Elem-append_right, HashMap, lookup, is_some, contains, Elem, if◌then◌else◌,
  ==_iff, arith, inl, inr, ok,
}
use mini_async_runtime.ReadyQueue.{push_all}
use mini_async_runtime.ReadyQueue.Fifo.{
  Fifo, contains-push_all, push_all-enqueue_all, push_all-append,
}
use mini_async_runtime.Executor.{Polled, wake_all, tick}
use mini_async_runtime.Executor.Round.{live_ids, logged, unlogged, tick-polled}
use mini_async_runtime.Timer.{process}
use mini_async_runtime.Timer.History.{Clocked, Reach}
use mini_async_runtime.Timer.History.Deadlines.{process-wakes}
use mini_async_runtime.Reactor.Epoll.{Kernel, Event}
use mini_async_runtime.Reactor.{timeout_ms, poll}
use mini_async_runtime.Reactor
use mini_async_runtime.Reactor.Wakes.{hits, waker_at, poll-wakes}
use mini_async_runtime.Runtime.{World}
use mini_async_runtime.Runtime.Loop.{Ex, poll_task, poll_reactor, process_timers, wait}

contains-live_ids :
    {V : Type 0} (m : HashMap V) (ids : List ℕ) (id : ℕ)
    → is_some (lookup id m) ≡ true
    → contains id ids ≡ true
    → contains id (live_ids m ids) ≡ true
unfolding live_ids
contains-live_ids m [] id live h = absurd (ground arith)
contains-live_ids m (x ∷ ids) id live h =
    ground (arith, contains-live_ids m ids id live, ==_iff id x)

Elem-contains : (id : ℕ) (ids : List ℕ) → Elem id ids → contains id ids ≡ true
Elem-contains id [] m = absurd m
Elem-contains id (x ∷ ids) (inl e) = ground (arith, ==_iff id x)
Elem-contains id (x ∷ ids) (inr m) = ground (arith, Elem-contains id ids m)

-- What task `id` waits for comes in the wait of an iteration with timeout `t`: an event of a
-- descriptor that it has registered with the reactor, or the deadline of a timer that holds its waker,
-- at the reading of the clock after the wait.
pub data Due {K : Kernel} {U F T : Type 0} (instant_now : U → U × ℕ) (ex : Ex K U F T) (t id : ℕ)
    : Type 0 where
  event :
      (es : List Event) (fd : ℕ) (side : Bool)
      → (Reactor.wait K ex.env.world.reactor.kernel (timeout_ms (some t))).1 ≡ ok es
      → fd ≢ ex.env.world.reactor.wake_fd
      → waker_at ex.env.world.reactor fd side ≡ some id
      → hits fd side es ≡ true
      → Due instant_now ex t id
  timer :
      (c : Clocked ℕ) (r : ℕ)
      → Reach c
      → c.wheel ≡ ex.env.world.timers
      → r < c.wheel.next
      → (c.wheel.cells r).completed ≡ false
      → (c.wheel.cells r).waker ≡ some id
      → c.deadlines r ≤ (instant_now ex.env.world.outside).1
      → Due instant_now ex t id

module _ {K : Kernel} {U F T : Type 0} (instant_now : U → U × ℕ) where
  -- The wakers that the wait calls, those of the reactor first.
  wakes : Ex K U F T → (t : ℕ) → List ℕ
  wakes ex t =
      (poll K ex.env.world.reactor (some t)).woken
      ++ (process ex.env.world.timers (instant_now ex.env.world.outside).1).woken

  Due-wakes : (ex : Ex K U F T) (t id : ℕ) → Due instant_now ex t id → Elem id (wakes ex t)
  unfolding wakes
  Due-wakes ex t id (event es fd side waited other at hit) =
      let polled = poll-wakes ex.env.world.reactor (some t) es fd side id waited other at in
      Elem-append_left id _ _ (
        subst
          (λ b.
            if b
            then Elem id (poll K ex.env.world.reactor (some t)).woken
            else (waker_at (poll K ex.env.world.reactor (some t)).state fd side ≡ some id))
          hit polled)
  Due-wakes ex t id (timer c r reach same lt waiting held le) =
      let now = (instant_now ex.env.world.outside).1 in
      Elem-append_right id (poll K ex.env.world.reactor (some t)).woken _ (
        subst (λ w. Elem id (process w now).woken) same
          (process-wakes now r id reach lt waiting held le))

  wait-queue :
      (ex : Ex K U F T) (t : ℕ)
      → ((wait instant_now ex t).ready_queue ≡ push_all ex.ready_queue (wakes ex t))
        × ((wait instant_now ex t).tasks ≡ ex.tasks)
  unfolding wait poll_reactor process_timers wake_all wakes
  wait-queue ex t = (sym (push_all-append ex.ready_queue _ _), refl)

  module _ (body : ℕ → F → World K U → Polled F (World K U) T) (root : ℕ) where
    -- While `block_on` waits in an iteration: when an event comes for which a live task waits at the
    -- reactor, or the deadline of a timer has passed that holds the task's waker, then the first round of
    -- the next iteration polls that task.
    pub wait-polls :
        (ex : Ex K U F T) (t id : ℕ)
        → Fifo ex.ready_queue
        → is_some (lookup id ex.tasks) ≡ true
        → Due instant_now ex t id
        → let after = wait instant_now ex t in
          let round =
            tick
              (logged (poll_task body root))
              (unlogged after.tasks after.ready_queue after.env) in
          contains id round.0.env.polled ≡ true
    wait-polls ex t id v live due =
        let after = wait instant_now ex t in
        let (queue, tasks) = wait-queue ex t in
        let v' : Fifo after.ready_queue =
          subst Fifo (sym queue) (push_all-enqueue_all ex.ready_queue (wakes ex t) v).1 in
        rw (tick-polled (poll_task body root) after.tasks after.ready_queue after.env v') (
          contains-live_ids after.tasks after.ready_queue.queue id (rw tasks live) (
            rw (queue, contains-push_all ex.ready_queue (wakes ex t) id v)
              (ground (arith, Elem-contains id (wakes ex t) (Due-wakes ex t id due)))))
