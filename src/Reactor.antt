-- ===== src/Reactor.antt =====
-- src/reactor.rs: the epoll reactor. The kernel is a parameter; `W` stands for `std::task::Waker`,
-- and a lock of the `Mutex` makes each call below one step, but for `poll` and `deregister`:
-- MultiThread/Polling has those in steps.
pub mod Epoll
pub mod Interest
pub mod Timeout
pub mod Armed
pub mod Wakes
pub mod History
pub mod Scripted
mod Examples
use Prim.Native.Nat.{bit_and, bit_or, min, ◌+◌, ◌/◌}
use mini_async_runtime.Base.{
  ℕ, ◌^◌, Bool, true, false, not, ◌||◌, Option, none, some, List, [], ◌∷◌, ◌++◌, to_list, is_some,
  ◌==◌, if◌then◌else◌, HashMap, lookup, insert, remove, Outcome, Result, ok, err,
}
use mini_async_runtime.Reactor.Interest.{
  readable, writable, Registration, interest, oneshot, fires, or_insert, set_waker, get_waker,
  taken, left,
}
use mini_async_runtime.Reactor.Epoll.{
  Kernel, epollin, CtlOp, add, modify, delete, Event, epollin, epollout, epollerr, epollhup,
  epollet, epolloneshot, eintr,
}

abbrev pub i32_max : ℕ
i32_max = 0x7fff_ffff

-- The fields of `Reactor`, and the state of the kernel.
pub record Reactor (K : Kernel) (W : Type 0) : Type 0 where
  pub registrations : HashMap (Registration W)
  pub wake_fd : ℕ
  pub kernel : K.State

-- `Duration` to the milliseconds of `epoll_wait`; a duration is a number of nanoseconds.
unfoldable pub timeout_ms : Option ℕ → Option ℕ
timeout_ms none = none
timeout_ms (some ns) = if ns == 0 then some 0 else some (min ((ns + 999_999) / 1_000_000) i32_max)

module _ {W : Type 0} where
  -- The map after a call of `epoll_ctl` that failed: the old waker goes back, and an entry that was
  -- new goes.
  unfoldable pub rollback :
      HashMap (Registration W)
      → ℕ
      → Registration W
      → Bool
      → Option W
      → Bool
      → HashMap (Registration W)
  unfolding set_waker
  rollback regs fd reg is_read old is_new =
      let restored = insert fd (set_waker reg is_read old) regs in
      if is_new then remove fd restored else restored

module _ (K : Kernel) where
  open K use {State, epoll_wait}

  -- `Epoll::wait`: an interrupted wait has no events. The buffer takes 64.
  unfoldable pub wait : State → Option ℕ → State × Result (List Event) ℕ
  wait k timeout =
      let (kernel, result) = epoll_wait k 64 timeout in
      elim result [
        | ok events ↦ (kernel, ok events)
        | err e ↦ if e == eintr then (kernel, ok []) else (kernel, err e)
      ]

module _ (K : Kernel) {W : Type 0} where
  open K use {
    State, epoll_create, eventfd, epoll_ctl, close_epoll, close, eventfd_write, eventfd_read,
  }

  -- `Reactor::new`: the reactor, or an error and the kernel. An early return drops the `Epoll`.
  unfoldable pub new_registered : State → ℕ → Result (Reactor K W) (ℕ × State)
  new_registered k fd =
      let (kernel, result) = epoll_ctl k add fd epollin in
      elim result [
        | err e ↦ err (e, close_epoll kernel)
        | ok _ ↦ ok (record { registrations = []; wake_fd = fd; kernel = kernel })
      ]

  unfoldable pub new_eventfd : State → Result (Reactor K W) (ℕ × State)
  unfolding new_registered
  new_eventfd k =
      let (kernel, result) = eventfd k in
      elim result [ err e ↦ err (e, close_epoll kernel) | ok fd ↦ new_registered kernel fd ]

  unfoldable pub new : State → Result (Reactor K W) (ℕ × State)
  unfolding new_eventfd
  new k =
      let (kernel, result) = epoll_create k in
      elim result [ err e ↦ err (e, kernel) | ok _ ↦ new_eventfd kernel ]

  -- The drop of a `Reactor`, and then of its `Epoll`.
  unfoldable pub drop : Reactor K W → State
  drop r = close_epoll (close r.kernel r.wake_fd)

  unfoldable pub wake : Reactor K W → Reactor K W
  wake r = record r { kernel = eventfd_write r.kernel }

  unfoldable pub register : Reactor K W → ℕ → W → Bool → Reactor K W × Result (Unit {0}) ℕ
  unfolding or_insert set_waker get_waker rollback interest
  register r fd waker is_read =
      let found = lookup fd r.registrations in
      let is_new = not (is_some found) in
      let reg = set_waker (or_insert found) is_read (some waker) in
      let regs = insert fd reg r.registrations in
      let op = if is_new then add else modify in
      let (kernel, result) = epoll_ctl r.kernel op fd (oneshot (interest reg)) in
      elim result [
        | ok _ ↦ (record r { registrations = regs; kernel = kernel }, ok tt)
        | err e ↦ (
          record r {
            registrations =
                rollback regs fd reg is_read (get_waker (or_insert found) is_read) is_new;
            kernel = kernel;
          },
          err e,
        )
      ]

  unfoldable pub register_readable : Reactor K W → ℕ → W → Reactor K W × Result (Unit {0}) ℕ
  unfolding register
  register_readable r fd waker = register r fd waker true

  unfoldable pub register_writable : Reactor K W → ℕ → W → Reactor K W × Result (Unit {0}) ℕ
  unfolding register
  register_writable r fd waker = register r fd waker false

  -- The result is `Ok(())` whatever the kernel says.
  unfoldable pub deregister : Reactor K W → ℕ → Reactor K W
  deregister r fd =
      if is_some (lookup fd r.registrations)
      then record r {
        registrations = remove fd r.registrations;
        kernel = (epoll_ctl r.kernel delete fd 0).0;
      }
      else r

  -- The rest of the loop's body once the registration of the event's descriptor is found.
  unfoldable pub dispatch : Reactor K W → Event → Registration W → Reactor K W × List W
  unfolding fires interest
  dispatch r event reg =
      let reads = fires event.events readable in
      let writes = fires event.events writable in
      let reg' : Registration W = record {
        read_waker = left reads reg.read_waker;
        write_waker = left writes reg.write_waker;
      } in
      let regs = insert event.fd reg' r.registrations in
      let kernel =
        if interest reg' == 0
        then r.kernel
        else (epoll_ctl r.kernel modify event.fd (oneshot (interest reg'))).0 in
      (
        record r { registrations = regs; kernel = kernel },
        taken reads reg.read_waker ++ taken writes reg.write_waker,
      )

  -- The body of the loop over the events, and the wakers that it collects.
  unfoldable pub handle_event : Reactor K W → Event → Reactor K W × List W
  unfolding dispatch
  handle_event r event =
      if event.fd == r.wake_fd
      then (record r { kernel = eventfd_read r.kernel }, [])
      else elim (lookup event.fd r.registrations) [
        | none ↦ (r, [])
        | some reg ↦ dispatch r event reg
      ]

  unfoldable pub handle_events : Reactor K W → List Event → Reactor K W × List W
  handle_events r [] = (r, [])
  handle_events r (event ∷ events) =
      let (next, first) = handle_event r event in
      let (last, others) = handle_events next events in (last, first ++ others)

  -- What `poll` does once the wait is over.
  unfoldable pub after_wait :
      Reactor K W → State × Result (List Event) ℕ → Outcome (Reactor K W) (Result (Unit {0}) ℕ) W
  unfolding handle_events
  after_wait r (kernel, err e) = record {
    state = record r { kernel = kernel };
    result = err e;
    woken = [];
  }
  after_wait r (kernel, ok events) =
      let (last, wakers) = handle_events (record r { kernel = kernel }) events in
      record { state = last; result = ok tt; woken = wakers }

  unfoldable pub poll : Reactor K W → Option ℕ → Outcome (Reactor K W) (Result (Unit {0}) ℕ) W
  unfolding after_wait wait timeout_ms
  poll r timeout = after_wait r (wait K r.kernel (timeout_ms timeout))
