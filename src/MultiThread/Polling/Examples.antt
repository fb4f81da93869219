-- ===== src/MultiThread/Polling/Examples.antt =====
-- A registration while the driver is between its wait and the lock.
use mini_async_runtime.Base.{
  ℕ, ◌≡◌, refl, true, false, none, some, List, [], ◌∷◌, lookup, contains, insert, Elem, arith, ◌⊎◌,
  if◌then◌else◌, ◌==◌,
}
use mini_async_runtime.Reactor.Epoll.{Event}
use mini_async_runtime.Reactor.Interest.{Registration, interest, oneshot, fires}
use mini_async_runtime.Reactor.{Reactor, new, register, wait, handle_event, handle_events}
use mini_async_runtime.Reactor.Wakes.{waker_at}
use mini_async_runtime.Reactor.Armed.{fds}
use mini_async_runtime.Reactor.Scripted.{Script, scripted, scripted_laws, ctl, next_batch}
use mini_async_runtime.MultiThread.Polling.{Polling, Step, Run, started, begin, later}
use mini_async_runtime.MultiThread.Polling.Armed.{in_hand, disarmed, no_stranded_waker}
use mini_async_runtime.MultiThread.Polling.Kept.{registered-kept}

-- Descriptor 7 becomes writable at the first wait.
abbrev writable_7 : List Event
writable_7 = record { fd = 7; events = 0x4 } ∷ []

abbrev booted : Script
booted = record { list = λ _. none; batches = writable_7 ∷ [] }

abbrev reactor : Reactor scripted ℕ
reactor = record {
  registrations = [];
  wake_fd = 3;
  kernel = record { list = λ q. if 3 == q then some 1 else none; batches = writable_7 ∷ [] };
}

-- Waker 21 waits until descriptor 7 is writable.
abbrev writing : Polling scripted ℕ
writing = record (started scripted reactor) { reactor = (register scripted reactor 7 21 false).0 }

-- The driver has the event, and waker 22 comes to wait until the descriptor is readable.
between : (s : Polling scripted ℕ) × Run scripted writing s
unfolding register wait ctl next_batch lookup insert
between =
    let waits = later begin (Step.waits none refl refl) in
    (_, later waits (Step.registers 7 22 true (omega arith) refl))

after : (s : Polling scripted ℕ) × Run scripted writing s
unfolding between register wait ctl next_batch lookup insert fires handle_events handle_event
after =
    let handled = later between.1 (Step.handles writable_7 refl) in
    (_, later (later handled (Step.calls {waker = 21} {wakers = []} refl)) (Step.returns refl))

reached : (s : Polling scripted ℕ) × Run scripted (started scripted reactor) s
unfolding register wait ctl next_batch lookup insert
reached =
    let writes = later begin (Step.registers 7 21 false (omega arith) refl) in
    let waits = later writes (Step.waits none refl refl) in
    (_, later waits (Step.registers 7 22 true (omega arith) refl))

-- Both wait at descriptor 7.
abbrev both : Registration ℕ
both = record { read_waker = some 22; write_waker = some 21 }

no_stranded_waker_example :
    (scripted_laws.armed reached.0.reactor.kernel 7 ≡ some (oneshot (interest both)))
    ⊎ (contains 7 (fds (in_hand reached.0.driver)) ≡ true)
    ⊎ (disarmed reached.1 7 ≡ true)
unfolding new ctl reached register lookup insert interest
no_stranded_waker_example =
    no_stranded_waker scripted_laws booted reactor reached.0 refl reached.1 7 both refl
      (ground arith)

registered-kept_example : (waker_at after.0.reactor 7 false ≡ some 21) ⊎ Elem 21 after.0.woken
unfolding after between register ctl lookup insert
registered-kept_example =
    registered-kept 7 false 21 writing after.0 after.1 (omega arith) refl refl refl
