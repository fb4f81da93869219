-- ===== src/MultiThread/Driver/Turn.antt =====
-- src/multi_thread/executor.rs, `drive_io` as one step, beside the steps of `block_on` in
-- src/runtime.rs that do the same work for the single-threaded runtime.
use mini_async_runtime.Base.{
  ℕ, ◌≡◌, refl, sym, ap, subst, ◌∙◌, Bool, true, false, not, ◌||◌, Option, none, some, List, [],
  ◌∷◌, ◌++◌, Outcome, Bool-cases, inl, inr, leb, to_list, is_nil, is_some, arith,
}
use mini_async_runtime.ReadyQueue
use mini_async_runtime.ReadyQueue.{push_all}
use mini_async_runtime.ReadyQueue.Fifo.{push_all-append}
use mini_async_runtime.Timer
use mini_async_runtime.Timer.{TimerEntry, TimerState, process_heap, fire}
use mini_async_runtime.Executor.{wake_all, is_idle}
use mini_async_runtime.Reactor.Epoll.{Kernel}
use mini_async_runtime.Reactor.{Reactor, poll}
use mini_async_runtime.Runtime.Loop.{
  Ex, goes_on, process_timers, poll_reactor, wait, after_timers, unwrap_or,
}
use mini_async_runtime.MultiThread.TimerWheel.{TimerWheel, extend, process, has_pending}
use mini_async_runtime.MultiThread.TimerWheel.Refines.{flush, extend-filled}
use mini_async_runtime.MultiThread.Driver.{timeout}

has_pending-flush : (wheel : TimerWheel ℕ) → Timer.has_pending (flush wheel) ≡ has_pending wheel
unfolding flush has_pending Timer.has_pending
has_pending-flush wheel = extend-filled wheel.heap wheel.inbox

process_heap-filled :
    {W : Type 0} (now : ℕ) (h : List TimerEntry) (cells : ℕ → TimerState W) (woken : List W)
    → let o = process_heap now h cells woken in not (is_nil o.state.0) ≡ is_some o.result
unfolding process_heap
process_heap-filled now [] cells woken = refl
process_heap-filled now (x ∷ h) cells woken = elim (Bool-cases (leb x.deadline now)) [
  | inl due ↦
      rw due
        (process_heap-filled now h (fire cells x.state) (woken ++ to_list (cells x.state).waker))
  | inr early ↦ rw early
]

process-has_pending :
    (wheel : TimerWheel ℕ) (now d : ℕ)
    → (process wheel now).result ≡ some d
    → has_pending (process wheel now).state ≡ true
unfolding process has_pending
process-has_pending wheel now d e =
    ground (arith, process_heap-filled now (extend wheel.heap wheel.inbox) wheel.cells [], e)

-- What `drive_io` works on: the wheel, the reactor, and the rest of the program with its clock.
pub record Io (K : Kernel) (U : Type 0) : Type 0 where
  pub timers : TimerWheel ℕ
  pub reactor : Reactor K ℕ
  pub outside : U

module _ {K : Kernel} {U : Type 0} (instant_now : U → U × ℕ) where
  unfoldable pub drive_io : Io K U → Outcome (Io K U) (Unit {0}) ℕ
  drive_io io =
      let (outside, now) = instant_now io.outside in
      let first = process io.timers now in
      let polled = poll K io.reactor (some (timeout first.result (has_pending first.state))) in
      let (outside', now') = instant_now outside in
      let second = process first.state now' in
      record {
        state = record { timers = second.state; reactor = polled.state; outside = outside' };
        result = tt;
        woken = first.woken ++ (polled.woken ++ second.woken);
      }

  module _ {F T : Type 0} where
    -- The single-threaded runtime with the same timers, reactor and clock.
    abbrev pub with_io : Ex K U F T → Io K U → Ex K U F T
    with_io ex io = record ex {
      env = record ex.env {
        world = record { timers = flush io.timers; reactor = io.reactor; outside = io.outside };
      };
    }

    abbrev after_process : Ex K U F T → Io K U → Ex K U F T
    after_process ex io =
        let (outside, now) = instant_now io.outside in
        let first = process io.timers now in
        wake_all (with_io ex (record io { timers = first.state; outside = outside })) first.woken

    process_timers-with_io :
        (ex : Ex K U F T) (io : Io K U)
        → process_timers instant_now (with_io ex io)
          ≡ (after_process ex io, (process io.timers (instant_now io.outside).1).result)
    unfolding process_timers flush process Timer.process
    process_timers-with_io ex io = refl

    wait-timeout :
        (ex : Ex K U F T) (next : Option ℕ) (pending : Bool)
        → ReadyQueue.is_empty ex.ready_queue ≡ true
        → Timer.has_pending ex.env.world.timers ≡ pending
        → (pending || not (is_idle ex)) ≡ true
        → ((d : ℕ) → next ≡ some d → pending ≡ true)
        → after_timers instant_now (ex, next) ≡ goes_on (wait instant_now ex (timeout next pending))
    unfolding after_timers timeout unwrap_or
    wait-timeout ex none true e p h f = rw (e, p)
    wait-timeout ex none false e p h f =
        let busy : is_idle ex ≡ false = ground (arith, h) in rw (e, p, busy)
    wait-timeout ex (some d) pending e p h f = rw (e, p, f d refl)

    wait-with_io :
        (ex : Ex K U F T) (io : Io K U) (t : ℕ)
        → let polled = poll K io.reactor (some t) in
          let (outside, now) = instant_now io.outside in
          let second = process io.timers now in
          wait instant_now (with_io ex io) t
          ≡ wake_all
              (with_io ex
                (record { timers = second.state; reactor = polled.state; outside = outside }))
              (polled.woken ++ second.woken)
    unfolding wait poll_reactor process_timers flush process Timer.process wake_all
    wait-with_io ex io t = rw (push_all-append) refl

    -- A turn of the driver does what the loop of `block_on` does in the same place: where the first
    -- `process` leaves the ready queue empty, and a timer or a task is there, the rest of the iteration
    -- leaves the same timers, reactor and clock as `drive_io`, and the tasks that the latter wakes are
    -- in the queue. The timeouts agree: the time to the next deadline, 1 ms, or 5 ms.
    pub after_timers-drive_io :
        (ex : Ex K U F T) (io : Io K U)
        → let first = process_timers instant_now (with_io ex io) in
          ReadyQueue.is_empty first.0.ready_queue ≡ true
          → (Timer.has_pending first.0.env.world.timers || not (is_idle ex)) ≡ true
          → after_timers instant_now (process_timers instant_now (with_io ex io))
            ≡ goes_on (wake_all (with_io ex (drive_io io).state) (drive_io io).woken)
    unfolding drive_io wake_all is_idle
    after_timers-drive_io ex io empty busy =
        let (outside, now) = instant_now io.outside in
        let first = process io.timers now in
        let t = timeout first.result (has_pending first.state) in
        let woken = wake_all ex first.woken in
        let io' : Io K U = record {
          timers = first.state;
          reactor = io.reactor;
          outside = outside;
        } in
        let e = process_timers-with_io ex io in
        let pending = has_pending-flush first.state in
        ap (after_timers instant_now) e
        ∙ wait-timeout (with_io woken io') first.result (has_pending first.state)
            (subst (λ p. ReadyQueue.is_empty p.0.ready_queue ≡ true) e empty) pending
            (subst (λ b. (b || not (is_idle ex)) ≡ true) pending
              (subst (λ p. (Timer.has_pending p.0.env.world.timers || not (is_idle ex)) ≡ true) e
                busy))
            (process-has_pending io.timers now)
        ∙ ap goes_on (
            wait-with_io woken io' t
            ∙ ap (λ q. record (with_io ex (drive_io io).state) { ready_queue = q })
                (sym (push_all-append ex.ready_queue first.woken _)))
