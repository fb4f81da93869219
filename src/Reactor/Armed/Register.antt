-- ===== src/Reactor/Armed/Register.antt =====
-- src/reactor.rs: `register`, on success and on failure.
use mini_async_runtime.Base.{
  Result-cases, ℕ, ◌≡◌, ◌≢◌, refl, Bool, true, false, not, Option, none, some, List, is_some, err,
  lookup, insert, lookup-insert, lookup-remove, arith, ◌==◌, if◌then◌else◌, inl, inr, Option-cases,
}
use mini_async_runtime.Reactor.Epoll.{Kernel, add, modify, delete}
use mini_async_runtime.Reactor.Interest.{
  Registration, interest, oneshot, or_insert, set_waker, get_waker,
}
use mini_async_runtime.Reactor.{Reactor, register, rollback}
use mini_async_runtime.Reactor.Armed.Rearm.{Listed, IsRearming, is_err, update}
use mini_async_runtime.Reactor.Armed.{Lawful, Covered, lookup-insert_cases}

module _ {W : Type 0} where
  set_waker-get_waker :
      (reg : Registration W) (is_read : Bool) (w : Option W)
      → set_waker (set_waker reg is_read w) is_read (get_waker reg is_read) ≡ reg
  unfolding set_waker get_waker
  set_waker-get_waker reg true w = refl
  set_waker-get_waker reg false w = refl

  -- The rollback undoes the insertion.
  rollback-lookup :
      (regs : List (ℕ × Registration W)) (fd q : ℕ) (is_read : Bool) (w : Option W)
      → let found = lookup fd regs in
        let reg = set_waker (or_insert found) is_read w in
        lookup q (
          rollback
            (insert fd reg regs)
            fd
            reg
            is_read
            (get_waker (or_insert found) is_read)
            (not (is_some found)))
        ≡ lookup q regs
  unfolding rollback or_insert
  rollback-lookup regs fd q is_read w = elim (Option-cases (lookup fd regs)) [
    | inl missing ↦ rw missing (
        let reg = set_waker (or_insert none) is_read w in
        let old = set_waker reg is_read (get_waker (or_insert none) is_read) in
        ground (
          arith,
          lookup-remove fd q (insert fd old (insert fd reg regs)),
          lookup-insert fd q old (insert fd reg regs),
          lookup-insert fd q reg regs,
        ))
    | inr (before, found) ↦ rw found (
        let reg = set_waker before is_read w in
        ground (
          arith,
          set_waker-get_waker before is_read w,
          lookup-insert fd q (set_waker reg is_read (get_waker before is_read))
              (insert fd reg regs),
          lookup-insert fd q reg regs,
        ))
  ]

pub op_ne_delete : (b : Bool) → (if b then add else modify) ≢ delete
op_ne_delete true = λ e. cc
op_ne_delete false = λ e. cc

module _ (K : Kernel) {W : Type 0} where
  -- A registration that the kernel refuses, on whichever branch, leaves every entry of the map as it was.
  pub register-err :
      (r : Reactor K W) (fd : ℕ) (waker : W) (is_read : Bool) (e : ℕ)
      → (register K r fd waker is_read).1 ≡ err e
      → (q : ℕ)
      → lookup q (register K r fd waker is_read).0.registrations ≡ lookup q r.registrations
  unfolding register
  register-err r fd waker is_read e refused q =
      let found = lookup fd r.registrations in
      let reg = set_waker (or_insert found) is_read (some waker) in
      let op = if not (is_some found) then add else modify in
      elim (Result-cases (K.epoll_ctl r.kernel op fd (oneshot (interest reg))).1) [
        | inl (_, accepted) ↦ absurd (ground arith)
        | inr (f, failed) ↦
            rw (failed, register) (rollback-lookup r.registrations fd q is_read (some waker))
      ]

  -- It concerns no other entry.
  pub register-elsewhere :
      (r : Reactor K W) (fd : ℕ) (waker : W) (is_read : Bool) (q : ℕ)
      → (fd == q) ≡ false
      → lookup q (register K r fd waker is_read).0.registrations ≡ lookup q r.registrations
  unfolding register
  register-elsewhere r fd waker is_read q ne =
      let found = lookup fd r.registrations in
      let reg = set_waker (or_insert found) is_read (some waker) in
      let op = if not (is_some found) then add else modify in
      elim (Result-cases (K.epoll_ctl r.kernel op fd (oneshot (interest reg))).1) [
        | inl (_, accepted) ↦
            rw (accepted, register) (rw (lookup-insert fd q reg r.registrations, ne))
        | inr (e, failed) ↦ register-err r fd waker is_read e (rw (failed, register)) q
      ]

  module _ (laws : Lawful K) (r : Reactor K W) (fd : ℕ) (waker : W) (is_read : Bool) where
    -- Agreement but for the descriptors in `todo`. One that is registered with success is armed.
    pub register-IsRearming :
        (todo : ℕ → Bool)
        → fd ≢ r.wake_fd
        → IsRearming laws todo r
        → let o = register K r fd waker is_read in
          IsRearming laws (if is_err o.1 then todo else update todo fd false) o.0
    unfolding register
    register-IsRearming todo other v =
        let found = lookup fd r.registrations in
        let reg = set_waker (or_insert found) is_read (some waker) in
        let op = if not (is_some found) then add else modify in
        let mask = oneshot (interest reg) in
        let k = (K.epoll_ctl r.kernel op fd mask).0 in
        elim (Result-cases (K.epoll_ctl r.kernel op fd mask).1) [
          | inl (_, accepted) ↦
              let set =
                laws.ctl_sets r.kernel op fd mask (op_ne_delete (not (is_some found))) accepted in
              let others = laws.ctl_others r.kernel op fd mask in
              rw (accepted, register)
                (record {
                  covered = λ q free.
                      lookup-insert_cases Covered (laws.armed r.kernel) (laws.armed k)
                        r.registrations fd q reg (rw set refl, λ _. set)
                        (λ ne. (others q ne, v.covered q (ground arith)));
                  listed = λ q.
                      lookup-insert_cases Listed (laws.armed r.kernel) (laws.armed k)
                        r.registrations fd q reg (rw set refl) (λ ne. (others q ne, v.listed q));
                  unwatched =
                      rw (lookup-insert fd r.wake_fd reg r.registrations)
                        (ground (arith, v.unwatched));
                })
          | inr (e, failed) ↦
              let back = λ (q : ℕ). rollback-lookup r.registrations fd q is_read (some waker) in
              let same = λ (q : ℕ). laws.ctl_fails r.kernel op fd mask e q failed in
              rw (failed, register)
                (record {
                  covered = λ q free. rw (back q, same q) (v.covered q free);
                  listed = λ q. rw (back q, same q) (v.listed q);
                  unwatched = rw (back r.wake_fd) v.unwatched;
                })
        ]
