-- ===== src/MultiThread/Polling.antt =====
-- src/reactor.rs with the threads of src/multi_thread: the driver waits for events without the lock of
-- the registrations and handles them under it, and other threads call the reactor in between.
pub mod Absent
pub mod Armed
pub mod Kept
mod Examples
use mini_async_runtime.Base.{
  ℕ, ◌≡◌, ◌≢◌, Bool, true, false, Option, List, [], ◌∷◌, Result, ok, err, lookup, remove, is_some,
  if◌then◌else◌, ◌==◌,
}
use mini_async_runtime.Reactor.Epoll.{Kernel, Event, delete}
use mini_async_runtime.Reactor.{Reactor, new, register, wake, wait, handle_events, timeout_ms}

-- The driver: outside `poll`, with the events of `Epoll::wait` and before the lock, and after it,
-- with the wakers to call.
pub data Place (W : Type 0) : Type 0 where
  outside : Place W
  waited : List Event → Place W
  waking : List W → Place W

-- The wakers called are newest first. A descriptor is `leaving` while a `deregister` has removed its
-- entry, let go of the lock, and has yet to call `epoll_ctl`: the drop of a socket, which it does for
-- its own descriptor before it closes it.
pub record Polling (K : Kernel) (W : Type 0) : Type 0 where
  pub reactor : Reactor K W
  pub driver : Place W
  pub woken : List W
  pub leaving : ℕ → Bool

module _ (K : Kernel) {W : Type 0} where
  pub data Step (s : Polling K W) : Polling K W → Type 0 where
    -- `register` of any thread, with the lock from the map to `epoll_ctl`. A socket that is being
    -- dropped is not used.
    registers :
        (fd : ℕ) (waker : W) (is_read : Bool)
        → fd ≢ s.reactor.wake_fd
        → s.leaving fd ≡ false
        → Step s (record s { reactor = (register K s.reactor fd waker is_read).0 })
    -- `deregister` in its two accesses. Without an entry it does nothing.
    removes :
        (fd : ℕ)
        → is_some (lookup fd s.reactor.registrations) ≡ true
        → Step s (record s {
          reactor = record s.reactor { registrations = remove fd s.reactor.registrations };
          leaving = λ q. if fd == q then true else s.leaving q;
        })
    deletes :
        (fd : ℕ)
        → s.leaving fd ≡ true
        → Step s (record s {
          reactor = record s.reactor { kernel = (K.epoll_ctl s.reactor.kernel delete fd 0).0 };
          leaving = λ q. if fd == q then false else s.leaving q;
        })
    wakes : Step s (record s { reactor = wake K s.reactor })
    -- `Reactor::poll` of the driver. The wait is the step at which it returns.
    waits :
        (timeout : Option ℕ) {kernel : K.State} {events : List Event}
        → s.driver ≡ outside
        → wait K s.reactor.kernel (timeout_ms timeout) ≡ (kernel, ok events)
        → Step s
            (record s { reactor = record s.reactor { kernel = kernel }; driver = waited events })
    wait_fails :
        (timeout : Option ℕ) {kernel : K.State} {e : ℕ}
        → s.driver ≡ outside
        → wait K s.reactor.kernel (timeout_ms timeout) ≡ (kernel, err e)
        → Step s (record s { reactor = record s.reactor { kernel = kernel } })
    handles :
        (events : List Event)
        → s.driver ≡ waited events
        → Step s (record s {
          reactor = (handle_events K s.reactor events).0;
          driver = waking (handle_events K s.reactor events).1;
        })
    calls :
        {waker : W} {wakers : List W}
        → s.driver ≡ waking (waker ∷ wakers)
        → Step s (record s { driver = waking wakers; woken = waker ∷ s.woken })
    returns : s.driver ≡ waking [] → Step s (record s { driver = outside })

  -- Any sequence of steps from a state.
  pub data Run (first : Polling K W) : Polling K W → Type 0 where
    begin : Run first first
    later : {s t : Polling K W} → Run first s → Step s t → Run first t

  abbrev pub started : Reactor K W → Polling K W
  started r = record { reactor = r; driver = outside; woken = []; leaving = λ _. false }
