-- ===== src/Net/Descriptors/Registered.antt =====
-- src/net.rs and src/reactor.rs: which descriptors stay registered with the reactor over the calls that
-- change its map.
use mini_async_runtime.Base.{
  ℕ, ◌≡◌, refl, ap, ◌∙◌, Bool, true, false, not, ◌==◌, ==_iff, arith, Option, some, List, [], ◌∷◌,
  is_some, HashMap, lookup, insert, lookup-insert, lookup-remove, Result, ok, err, Result-cases,
  inl, inr, Poll, Bool-cases, by-true, by-false, if◌then◌else◌, Option-cases,
}
use mini_async_runtime.Reactor.Epoll.{Kernel, Event, add, modify}
use mini_async_runtime.Reactor.Interest.{
  Registration, interest, oneshot, or_insert, set_waker, get_waker,
}
use mini_async_runtime.Reactor.{
  Reactor, register, rollback, deregister, dispatch, handle_event, handle_events, after_wait, poll,
  wait, timeout_ms,
}
use mini_async_runtime.Net.{Sockets, eagain, waits, on_error, after_io, after_accept, nonblocking}
use mini_async_runtime.Net.Descriptors.{accepted}

abbrev pub is_registered : {K : Kernel} {W : Type 0} → Reactor K W → ℕ → Bool
is_registered r fd = is_some (lookup fd r.registrations)

insert-found :
    {V : Type 0} (k j : ℕ) (v : V) (m : HashMap V)
    → is_some (lookup k m) ≡ true
    → is_some (lookup j (insert k v m)) ≡ is_some (lookup j m)
insert-found k j v m found = ground (arith, lookup-insert k j v m, ==_iff k j)

module _ (K : Kernel) {W : Type 0} where
  -- A registration leaves those of other descriptors.
  register-lookup :
      (r : Reactor K W) (fd : ℕ) (w : W) (side : Bool) (j : ℕ)
      → (j == fd) ≡ false
      → lookup j (register K r fd w side).0.registrations ≡ lookup j r.registrations
  unfolding register rollback
  register-lookup r fd w side j other =
      let regs = r.registrations in
      let found = lookup fd regs in
      let reg = set_waker (or_insert found) side (some w) in
      let old = set_waker reg side (get_waker (or_insert found) side) in
      let inserted = insert fd reg regs in
      let op = if not (is_some found) then add else modify in
      elim (Result-cases (K.epoll_ctl r.kernel op fd (oneshot (interest reg))).1) [
        | inl (_, accepted) ↦ rw (accepted, register) (ground (arith, lookup-insert fd j reg regs))
        | inr (f, failed) ↦
            rw (failed, register, rollback)
              (ground (
                arith,
                lookup-insert fd j reg regs,
                lookup-insert fd j old inserted,
                lookup-remove fd j (insert fd old inserted),
              ))
      ]

  pub deregister-is_registered :
      (r : Reactor K W) (fd j : ℕ)
      → is_registered (deregister K r fd) j ≡ true
      → (is_registered r j ≡ true) × ((j == fd) ≡ false)
  unfolding deregister
  deregister-is_registered r fd j h = elim (Bool-cases (is_registered r fd)) [
    | inl there ↦ ground (arith, there, h, lookup-remove fd j r.registrations)
    | inr missing ↦ ground (arith, missing, h, ==_iff j fd)
  ]

  dispatch-is_registered :
      (r : Reactor K W) (e : Event) (reg : Registration W) (j : ℕ)
      → lookup e.fd r.registrations ≡ some reg
      → is_registered (dispatch K r e reg).0 j ≡ is_registered r j
  unfolding dispatch
  dispatch-is_registered r e reg j found =
      insert-found e.fd j _ r.registrations (ground (arith, found))

  handle_event-is_registered :
      (r : Reactor K W) (e : Event) (j : ℕ)
      → is_registered (handle_event K r e).0 j ≡ is_registered r j
  unfolding handle_event dispatch
  handle_event-is_registered r e j = elim (Option-cases (lookup e.fd r.registrations)) [
    | inl missing ↦ ground (arith, missing)
    | inr (reg, found) ↦
        rw (found, handle_event) (ground (arith, found, dispatch-is_registered r e reg j))
  ]

  handle_events-is_registered :
      (r : Reactor K W) (es : List Event) (j : ℕ)
      → is_registered (handle_events K r es).0 j ≡ is_registered r j
  unfolding handle_events
  handle_events-is_registered r [] j = refl
  handle_events-is_registered r (e ∷ es) j =
      handle_events-is_registered (handle_event K r e).0 es j ∙ handle_event-is_registered r e j

  pub poll-is_registered :
      (r : Reactor K W) (t : Option ℕ) (j : ℕ)
      → is_registered (poll K r t).state j ≡ is_registered r j
  unfolding poll after_wait
  poll-is_registered r t j = elim (Result-cases (wait K r.kernel (timeout_ms t)).1) [
    | inl (es, waited) ↦
        let k = (wait K r.kernel (timeout_ms t)).0 in
        rw (waited, after_wait) (handle_events-is_registered (record r { kernel = k }) es j)
    | inr (e, failed) ↦ rw (failed, after_wait)
  ]

module _ (S : Sockets) (K : Kernel) {W : Type 0} where
  waits-reactor :
      (A : Type 0) (o : Reactor K W × Result (Unit {0}) ℕ) → (waits S K {A = A} o).0 ≡ o.0
  unfolding waits
  waits-reactor A (r, ok _) = refl
  waits-reactor A (r, err e) = refl

  -- A poll leaves the registrations of other descriptors.
  on_error-lookup :
      (A : Type 0) (r : Reactor K W) (fd : ℕ) (w : W) (side : Bool) (e j : ℕ)
      → (j == fd) ≡ false
      → lookup j (on_error S K {A = A} r fd w side e).0.registrations ≡ lookup j r.registrations
  unfolding on_error
  on_error-lookup A r fd w side e j other =
      let P : Reactor K W × Poll (Result A ℕ) → Type 0 =
        λ o. lookup j o.0.registrations ≡ lookup j r.registrations in
      elim (Bool-cases (e == eagain)) [
        | inl blocked ↦ by-true P _ blocked (
            ap (λ q. lookup j q.registrations) (waits-reactor A (register K r fd w side))
            ∙ register-lookup K r fd w side j other)
        | inr failed ↦ by-false P _ failed refl
      ]

  pub after_io-lookup :
      {A : Type 0} (r : Reactor K W) (fd : ℕ) (w : W) (side : Bool) (o : S.State × Result A ℕ)
      (j : ℕ)
      → (j == fd) ≡ false
      → lookup j (after_io S K r fd w side o).0.reactor.registrations ≡ lookup j r.registrations
  unfolding after_io
  after_io-lookup r fd w side (s, ok a) j other = refl
  after_io-lookup {A} r fd w side (s, err e) j other = on_error-lookup A r fd w side e j other

  pub after_accept-lookup :
      (r : Reactor K W) (fd : ℕ) (w : W) (o : S.State × Result (ℕ × ℕ) ℕ) (j : ℕ)
      → (j == fd) ≡ false
      → lookup j (after_accept S K r fd w o).0.reactor.registrations ≡ lookup j r.registrations
  unfolding after_accept
  after_accept-lookup r fd w (s, err e) j other = after_io-lookup r fd w true (s, err e) j other
  after_accept-lookup r fd w (s, ok (stream, addr)) j other =
      elim (Result-cases (nonblocking S s stream).1) [
        | inl (_, done) ↦ rw (done, after_accept)
        | inr (e, failed) ↦ rw (failed, after_accept)
      ]
