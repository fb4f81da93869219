-- ===== src/Reactor/Armed.antt =====
-- src/reactor.rs: the masks in the kernel, against the registrations.
pub mod Register
pub mod Rearm
use mini_async_runtime.Base.{
  ℕ, ◌≡◌, ◌≢◌, Bool, true, false, Option, none, some, List, [], ◌∷◌, is_some, contains, Result, ok,
  err, HashMap, lookup, insert, lookup-insert, subst, arith, ◌==◌, ==_iff, Bool-cases, inl, inr,
}
use mini_async_runtime.Reactor.Epoll.{Kernel, CtlOp, add, modify, delete, Event}
use mini_async_runtime.Reactor.Interest.{Registration, interest, oneshot}
use mini_async_runtime.Reactor.{Reactor}

abbrev pub fds : List Event → List ℕ
fds [] = []
fds (event ∷ events) = event.fd ∷ fds events

-- What epoll_ctl(2), epoll_wait(2) and eventfd(2) say of the interest list. `armed k fd` is `none` if
-- `fd` is not in the list, and otherwise the mask that is in force, 0 once EPOLLONESHOT has disabled
-- it. Any call may fail, also for want of memory.
pub record Lawful (K : Kernel) : Type 0 where
  pub armed : K.State → ℕ → Option ℕ
  pub ctl_sets :
      (k : K.State) (op : CtlOp) (fd mask : ℕ)
      → op ≢ delete
      → (K.epoll_ctl k op fd mask).1 ≡ ok tt
      → armed (K.epoll_ctl k op fd mask).0 fd ≡ some mask
  pub ctl_fails :
      (k : K.State) (op : CtlOp) (fd mask e q : ℕ)
      → (K.epoll_ctl k op fd mask).1 ≡ err e
      → armed (K.epoll_ctl k op fd mask).0 q ≡ armed k q
  pub ctl_others :
      (k : K.State) (op : CtlOp) (fd mask q : ℕ)
      → q ≢ fd
      → armed (K.epoll_ctl k op fd mask).0 q ≡ armed k q
  pub wait_keeps :
      (k : K.State) (size : ℕ) (timeout : Option ℕ) (events : List Event) (q : ℕ)
      → (K.epoll_wait k size timeout).1 ≡ ok events
      → contains q (fds events) ≡ false
      → armed (K.epoll_wait k size timeout).0 q ≡ armed k q
  pub wait_lists :
      (k : K.State) (size : ℕ) (timeout : Option ℕ) (q : ℕ)
      → is_some (armed (K.epoll_wait k size timeout).0 q) ≡ is_some (armed k q)
  pub wait_fails :
      (k : K.State) (size : ℕ) (timeout : Option ℕ) (e q : ℕ)
      → (K.epoll_wait k size timeout).1 ≡ err e
      → armed (K.epoll_wait k size timeout).0 q ≡ armed k q
  pub read_keeps : (k : K.State) (q : ℕ) → armed (K.eventfd_read k) q ≡ armed k q
  pub write_keeps : (k : K.State) (q : ℕ) → armed (K.eventfd_write k) q ≡ armed k q

-- A registered descriptor is in the interest list, and if a task waits for it, its mask is the
-- registration's.
abbrev pub Covered : {W : Type 0} → Option ℕ → Option (Registration W) → Type 0
Covered mask none = Unit
Covered mask (some reg) =
    (is_some mask ≡ true) × (interest reg ≢ 0 → mask ≡ some (oneshot (interest reg)))

-- To prove something of each descriptor's mask and registration after an insertion.
pub lookup-insert_cases :
    {W : Type 0} (P : Option ℕ → Option (Registration W) → Type 0) (before after : ℕ → Option ℕ)
    (regs : HashMap (Registration W)) (fd q : ℕ) (reg : Registration W)
    → P (after fd) (some reg)
    → (q ≢ fd → (after q ≡ before q) × P (before q) (lookup q regs))
    → P (after q) (lookup q (insert fd reg regs))
lookup-insert_cases P before after regs fd q reg here others = elim (Bool-cases (fd == q)) [
  | inl same ↦
      let e : fd ≡ q = (==_iff fd q).0 same in
      rw (lookup-insert fd q reg regs, same) (subst (λ p. P (after p) (some reg)) e here)
  | inr different ↦
      let ne : q ≢ fd = ground arith in
      rw (lookup-insert fd q reg regs, different, (others ne).0) (others ne).1
]
