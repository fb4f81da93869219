-- ===== src/Reactor/Wakes.antt =====
-- src/reactor.rs: which wakers `poll` calls.
use mini_async_runtime.Base.{
  ℕ, ◌≡◌, ◌≢◌, refl, sym, subst, ◌∙◌, Bool, true, false, ◌||◌, ◌&&◌, Option, none, some, List, [],
  ◌∷◌, Elem, Elem-append_left, Elem-append_right, ok, HashMap, lookup, insert, lookup-insert, arith,
  ◌==◌, ==_iff, if◌then◌else◌, inl, inr, Bool-cases, Option-cases,
}
use mini_async_runtime.Reactor.Epoll.{Kernel, Event}
use mini_async_runtime.Reactor.Interest.{Registration, readable, writable, fires, taken, get_waker}
use mini_async_runtime.Reactor.{
  Reactor, dispatch, handle_event, handle_events, after_wait, wait, timeout_ms, poll,
}

-- The bit of a direction: reading is `true`.
abbrev pub bit : Bool → ℕ
bit true = readable
bit false = writable

-- An event that concerns a direction of a descriptor.
abbrev pub hits : ℕ → Bool → List Event → Bool
hits fd side [] = false
hits fd side (e ∷ es) = ((e.fd == fd) && fires e.events (bit side)) || hits fd side es

abbrev pub waker_of : {W : Type 0} → Option (Registration W) → Bool → Option W
waker_of none side = none
waker_of (some reg) side = get_waker reg side

pub lookup-insert_self :
    {W : Type 0} (fd : ℕ) (reg : Registration W) (regs : HashMap (Registration W))
    → lookup fd (insert fd reg regs) ≡ some reg
lookup-insert_self fd reg regs = rw (lookup-insert fd fd reg regs, (==_iff fd fd).1 refl) refl

module _ {K : Kernel} {W : Type 0} where
  -- The waker that waits for a direction of a descriptor.
  abbrev pub waker_at : Reactor K W → ℕ → Bool → Option W
  waker_at r fd side = waker_of (lookup fd r.registrations) side

  handle_event-wake_fd : (r : Reactor K W) (e : Event) → (handle_event K r e).0.wake_fd ≡ r.wake_fd
  unfolding handle_event dispatch
  handle_event-wake_fd r e = ground arith

  dispatch-wakes :
      (r : Reactor K W) (e : Event) (reg : Registration W) (side : Bool) (w : W)
      → get_waker reg side ≡ some w
      → (if fires e.events (bit side)
          then Elem w (dispatch K r e reg).1
          else (waker_at (dispatch K r e reg).0 e.fd side ≡ some w))
  unfolding dispatch get_waker
  dispatch-wakes r e reg true w h = elim (Bool-cases (fires e.events readable)) [
    | inl fired ↦ rw (fired, h) (inl refl)
    | inr quiet ↦ rw (quiet, lookup-insert_self) h
  ]
  dispatch-wakes r e reg false w h = elim (Bool-cases (fires e.events writable)) [
    | inl fired ↦
        rw (fired, h)
          (Elem-append_right w (taken (fires e.events readable) reg.read_waker) (w ∷ []) (inl refl))
    | inr quiet ↦ rw (quiet, lookup-insert_self) h
  ]

  dispatch-others :
      (r : Reactor K W) (e : Event) (reg : Registration W) (fd : ℕ) (side : Bool)
      → (e.fd == fd) ≡ false
      → waker_at (dispatch K r e reg).0 fd side ≡ waker_at r fd side
  unfolding dispatch
  dispatch-others r e reg fd side ne = rw (lookup-insert e.fd fd _ r.registrations, ne) refl

  handle_event-here :
      (r : Reactor K W) (e : Event) (side : Bool) (w : W)
      → (e.fd == r.wake_fd) ≡ false
      → waker_at r e.fd side ≡ some w
      → (if fires e.events (bit side)
          then Elem w (handle_event K r e).1
          else (waker_at (handle_event K r e).0 e.fd side ≡ some w))
  unfolding handle_event
  handle_event-here r e side w other h = elim (Option-cases (lookup e.fd r.registrations)) [
    | inl missing ↦ let no_waker = rw missing at h in cc
    | inr (reg, found) ↦
        rw (other, found, handle_event) (dispatch-wakes r e reg side w (rw found at h))
  ]

  handle_event-elsewhere :
      (r : Reactor K W) (e : Event) (fd : ℕ) (side : Bool)
      → (e.fd == fd) ≡ false
      → waker_at (handle_event K r e).0 fd side ≡ waker_at r fd side
  unfolding handle_event
  handle_event-elsewhere r e fd side ne = elim (Bool-cases (e.fd == r.wake_fd)) [
    | inl own ↦ rw own
    | inr other ↦ elim (Option-cases (lookup e.fd r.registrations)) [
      | inl missing ↦ rw (other, missing, handle_event)
      | inr (reg, found) ↦ rw (other, found, handle_event) (dispatch-others r e reg fd side ne)
    ]
  ]

  handle_event-wakes :
      (r : Reactor K W) (e : Event) (fd : ℕ) (side : Bool) (w : W)
      → fd ≢ r.wake_fd
      → waker_at r fd side ≡ some w
      → (if (e.fd == fd) && fires e.events (bit side)
          then Elem w (handle_event K r e).1
          else (waker_at (handle_event K r e).0 fd side ≡ some w))
  handle_event-wakes r e fd side w other h = elim (Bool-cases (e.fd == fd)) [
    | inl here ↦
        let same = (==_iff e.fd fd).0 here in
        rw here (
          subst
            (λ p.
              if fires e.events (bit side)
              then Elem w (handle_event K r e).1
              else (waker_at (handle_event K r e).0 p side ≡ some w))
            same
            (handle_event-here r e side w (ground arith)
              (subst (λ p. waker_at r p side ≡ some w) (sym same) h)))
    | inr elsewhere ↦ rw elsewhere (handle_event-elsewhere r e fd side elsewhere ∙ h)
  ]

  pub handle_events-wakes :
      (r : Reactor K W) (es : List Event) (fd : ℕ) (side : Bool) (w : W)
      → fd ≢ r.wake_fd
      → waker_at r fd side ≡ some w
      → (if hits fd side es
          then Elem w (handle_events K r es).1
          else (waker_at (handle_events K r es).0 fd side ≡ some w))
  unfolding handle_events
  handle_events-wakes r [] fd side w other h = h
  handle_events-wakes r (e ∷ es) fd side w other h =
      let first = handle_event-wakes r e fd side w other h in
      let next = (handle_event K r e).0 in
      elim (Bool-cases ((e.fd == fd) && fires e.events (bit side))) [
        | inl hit ↦ rw hit (
            Elem-append_left w (handle_event K r e).1 (handle_events K next es).1 (rw hit at first))
        | inr miss ↦
            let later =
              handle_events-wakes next es fd side w (rw (handle_event-wake_fd r e) other)
                (rw miss at first) in
            rw miss (elim (Bool-cases (hits fd side es)) [
              | inl hit ↦ rw hit (
                  Elem-append_right w (handle_event K r e).1 (handle_events K next es).1
                    (rw hit at later))
              | inr none_hit ↦ rw none_hit (rw none_hit at later)
            ])
      ]

  -- When the wait of a poll gives events, a waker that waits for a direction of a descriptor, not
  -- the reactor's own, is called if some event of that descriptor has the direction's bit, an error or
  -- a hang-up. If none has, the waker still waits there afterwards.
  pub poll-wakes :
      (r : Reactor K W) (timeout : Option ℕ) (es : List Event) (fd : ℕ) (side : Bool) (w : W)
      → (wait K r.kernel (timeout_ms timeout)).1 ≡ ok es
      → fd ≢ r.wake_fd
      → waker_at r fd side ≡ some w
      → (if hits fd side es
          then Elem w (poll K r timeout).woken
          else (waker_at (poll K r timeout).state fd side ≡ some w))
  unfolding poll after_wait
  poll-wakes r timeout es fd side w waited other h =
      rw (waited, after_wait)
        (handle_events-wakes (record r { kernel = (wait K r.kernel (timeout_ms timeout)).0 }) es fd
          side w other h)
