-- ===== src/Net/Pending.antt =====
-- src/net.rs: what a poll that is pending has arranged for.
use mini_async_runtime.Base.{
  ℕ, ◌≡◌, ◌≢◌, refl, subst, ap, ◌∙◌, Bool, true, false, not, Option, some, List, is_some, Poll,
  ready, pending, Result, ok, err, Result-cases, lookup, Elem, if◌then◌else◌, ◌==◌, arith,
  Bool-cases, inl, inr, by-true, by-false,
}
use mini_async_runtime.Reactor.Epoll.{Kernel, Event, add, modify}
use mini_async_runtime.Reactor.Interest.{
  Registration, interest, oneshot, set_waker, get_waker, or_insert,
}
use mini_async_runtime.Reactor.{Reactor, register, poll, wait, timeout_ms}
use mini_async_runtime.Reactor.Armed.{Lawful}
use mini_async_runtime.Reactor.Armed.Register.{op_ne_delete, register-err}
use mini_async_runtime.Reactor.Wakes.{hits, waker_at, waker_of, lookup-insert_self, poll-wakes}
use mini_async_runtime.Net.{
  Sockets, Net, eagain, waits, on_error, after_io, poll_read, poll_write, after_accept, poll_accept,
  nonblocking,
}

get_waker-set_waker :
    {W : Type 0} (reg : Registration W) (side : Bool) (waker : W)
    → get_waker (set_waker reg side (some waker)) side ≡ some waker
unfolding get_waker set_waker
get_waker-set_waker reg true waker = refl
get_waker-set_waker reg false waker = refl

module _ (K : Kernel) (laws : Lawful K) {W : Type 0} where
  -- The waker stands in the registration of the descriptor, and the kernel has been asked for all
  -- that the registration waits for.
  abbrev pub Waiting : Reactor K W → ℕ → Bool → W → Type 0
  Waiting r fd side waker =
      (waker_at r fd side ≡ some waker)
      × ((reg : Registration W) × (lookup fd r.registrations ≡ some reg)
          × (laws.armed r.kernel fd ≡ some (oneshot (interest reg))))

  register-Waiting :
      (r : Reactor K W) (fd : ℕ) (waker : W) (side : Bool)
      → (register K r fd waker side).1 ≡ ok tt
      → Waiting (register K r fd waker side).0 fd side waker
  unfolding register
  register-Waiting r fd waker side done =
      let found = lookup fd r.registrations in
      let reg = set_waker (or_insert found) side (some waker) in
      let op = if not (is_some found) then add else modify in
      let mask = oneshot (interest reg) in
      elim (Result-cases (K.epoll_ctl r.kernel op fd mask).1) [
        | inr (e, failed) ↦ absurd (ground arith)
        | inl (_, accepted) ↦
            let set =
              laws.ctl_sets r.kernel op fd mask (op_ne_delete (not (is_some found))) accepted in
            let here = lookup-insert_self fd reg r.registrations in
            rw (accepted, register)
              (
                ap (λ o. waker_of o side) here ∙ get_waker-set_waker (or_insert found) side waker,
                (reg, here, set),
              )
      ]

-- A future of this file, as it is polled.
pub data Call : Type 0 where
  reads : (size : ℕ) → Call
  writes : (buf : List ℕ) → Call
  accepts : Call

abbrev pub is_reading : Call → Bool
is_reading (writes buf) = false
is_reading _ = true

abbrev is_pending : {A : Type 0} → Poll A → Bool
is_pending pending = true
is_pending (ready a) = false

module _ (S : Sockets) (K : Kernel) {W : Type 0} where
  -- The state that the poll leaves, and whether it is pending.
  unfoldable pub poll_call : Call → Net S K W → ℕ → W → Net S K W × Bool
  poll_call (reads size) net fd waker =
      let (out, p) = poll_read S K net fd size waker in (out, is_pending p)
  poll_call (writes buf) net fd waker =
      let (out, p) = poll_write S K net fd buf waker in (out, is_pending p)
  poll_call accepts net fd waker =
      let (out, p) = poll_accept S K net fd waker in (out, is_pending p)

  -- What a poll that started with the reactor `r` does to it.
  abbrev Arranged : (laws : Lawful K) → Reactor K W → ℕ → Bool → W → Reactor K W → Bool → Type 0
  Arranged laws r fd side waker out true = Waiting K laws out fd side waker
  Arranged laws r fd side waker out false =
      (q : ℕ) → lookup q out.registrations ≡ lookup q r.registrations

  abbrev Arranges :
      {A : Type 0} → Lawful K → Reactor K W → ℕ → Bool → W → Reactor K W × Poll A → Type 0
  Arranges laws r fd side waker o = Arranged laws r fd side waker o.0 (is_pending o.1)

  on_error-Arranges :
      (laws : Lawful K) (A : Type 0) (r : Reactor K W) (fd : ℕ) (waker : W) (side : Bool) (e : ℕ)
      → Arranges laws r fd side waker (on_error S K {A = A} r fd waker side e)
  unfolding on_error waits
  on_error-Arranges laws A r fd waker side e =
      let P : Reactor K W × Poll (Result A ℕ) → Type 0 = Arranges laws r fd side waker in
      elim (Bool-cases (e == eagain)) [
        | inr other ↦ by-false P _ other (λ q. refl)
        | inl blocked ↦ by-true P _ blocked (elim (Result-cases (register K r fd waker side).1) [
          | inl (_, done) ↦ rw (done, waits) (register-Waiting K laws r fd waker side done)
          | inr (f, refused) ↦ rw (refused, waits) (register-err K r fd waker side f refused)
        ])
      ]

  after_io-Arranges :
      (laws : Lawful K) {A : Type 0} (r : Reactor K W) (fd : ℕ) (waker : W) (side : Bool)
      (o : S.State × Result A ℕ)
      → let p = after_io S K r fd waker side o in
        Arranged laws r fd side waker p.0.reactor (is_pending p.1)
  unfolding after_io
  after_io-Arranges laws {A} r fd waker side (s, ok a) = λ q. refl
  after_io-Arranges laws {A} r fd waker side (s, err e) = on_error-Arranges laws A r fd waker side e

  after_accept-Arranges :
      (laws : Lawful K) (r : Reactor K W) (fd : ℕ) (waker : W) (o : S.State × Result (ℕ × ℕ) ℕ)
      → let p = after_accept S K r fd waker o in
        Arranged laws r fd true waker p.0.reactor (is_pending p.1)
  unfolding after_accept nonblocking
  after_accept-Arranges laws r fd waker (s, err e) =
      after_io-Arranges laws r fd waker true (s, err e)
  after_accept-Arranges laws r fd waker (s, ok (stream, addr)) =
      elim (Result-cases (nonblocking S s stream).1) [
        | inl (_, done) ↦ rw (done, after_accept) (λ q. refl)
        | inr (e, failed) ↦ rw (failed, after_accept) (λ q. refl)
      ]

  poll_call-Arranged :
      (laws : Lawful K) (c : Call) (net : Net S K W) (fd : ℕ) (waker : W)
      → let p = poll_call c net fd waker in
        Arranged laws net.reactor fd (is_reading c) waker p.0.reactor p.1
  unfolding poll_call poll_read poll_write poll_accept
  poll_call-Arranged laws (reads size) net fd waker =
      after_io-Arranges laws net.reactor fd waker true (S.read net.sockets fd size)
  poll_call-Arranged laws (writes buf) net fd waker =
      after_io-Arranges laws net.reactor fd waker false (S.write net.sockets fd buf)
  poll_call-Arranged laws accepts net fd waker =
      after_accept-Arranges laws net.reactor fd waker (S.accept net.sockets fd)

  -- A read, write or accept that is pending has its waker in the registration of its descriptor, for
  -- its direction, and the mask that the kernel has armed there is the one of all that the
  -- registration waits for.
  pending-Waiting :
      (laws : Lawful K) (c : Call) (net : Net S K W) (fd : ℕ) (waker : W)
      → (poll_call c net fd waker).1 ≡ true
      → Waiting K laws (poll_call c net fd waker).0.reactor fd (is_reading c) waker
  pending-Waiting laws c net fd waker e =
      subst (Arranged laws net.reactor fd (is_reading c) waker (poll_call c net fd waker).0.reactor)
        e (poll_call-Arranged laws c net fd waker)

  -- A read, write or accept that is ready, with a value or with an error of the system call or of the
  -- registration, leaves all registrations of the reactor as they were.
  ready-registrations :
      (laws : Lawful K) (c : Call) (net : Net S K W) (fd : ℕ) (waker : W) (q : ℕ)
      → (poll_call c net fd waker).1 ≡ false
      → lookup q (poll_call c net fd waker).0.reactor.registrations
        ≡ lookup q net.reactor.registrations
  ready-registrations laws c net fd waker q e =
      subst (Arranged laws net.reactor fd (is_reading c) waker (poll_call c net fd waker).0.reactor)
        e (poll_call-Arranged laws c net fd waker) q

  -- When a read, write or accept is pending, and the next wait of the reactor gives an event of its
  -- descriptor, not the reactor's own, with the bit of its direction, an error or a hang-up, then its
  -- waker is called.
  pub pending-woken :
      (laws : Lawful K) (c : Call) (net : Net S K W) (fd : ℕ) (waker : W) (timeout : Option ℕ)
      (es : List Event)
      → (poll_call c net fd waker).1 ≡ true
      → let r = (poll_call c net fd waker).0.reactor in
        fd ≢ r.wake_fd
        → (wait K r.kernel (timeout_ms timeout)).1 ≡ ok es
        → hits fd (is_reading c) es ≡ true
        → Elem waker (poll K r timeout).woken
  pending-woken laws c net fd waker timeout es e other waited hit =
      let r = (poll_call c net fd waker).0.reactor in
      let h = (pending-Waiting laws c net fd waker e).0 in
      rw hit at (poll-wakes r timeout es fd (is_reading c) waker waited other h)
