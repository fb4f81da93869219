-- ===== src/MultiThread/Polling/Kept.antt =====
-- src/reactor.rs with the threads of src/multi_thread: what becomes of a waker that has been registered.
use mini_async_runtime.Base.{
  ℕ, ◌≡◌, ◌≢◌, refl, sym, subst, ◌∙◌, Bool, true, false, not, ◌&&◌, Option, none, some, List, [],
  ◌∷◌, ◌++◌, lookup, is_some, lookup-insert, lookup-remove, remove, Elem, Elem-append_left,
  Elem-append_right, arith, ◌⊎◌, inl, inr, Bool-cases, Result-cases, ◌==◌, ==_iff, if◌then◌else◌,
}
use mini_async_runtime.Reactor.Epoll.{Kernel, Event, add, modify}
use mini_async_runtime.Reactor.Interest.{
  Registration, or_insert, set_waker, get_waker, interest, oneshot,
}
use mini_async_runtime.Reactor.{Reactor, register, wake, handle_events}
use mini_async_runtime.Reactor.Wakes.{hits, waker_of, waker_at, handle_events-wakes}
use mini_async_runtime.Reactor.Armed.Register.{register-err}
use mini_async_runtime.Reactor.History.{handle_events-wake_fd, register-wake_fd}
use mini_async_runtime.MultiThread.Polling.{
  Place, outside, waking, Polling, Step, Run, begin, later,
}

-- The wakers that the driver has taken and has yet to call.
abbrev pub owed : {W : Type 0} → Place W → List W
owed (waking wakers) = wakers
owed _ = []

abbrev same_side : Bool → Bool → Bool
same_side true side = side
same_side false side = not side

module _ {W : Type 0} where
  Elem-insert : (w x : W) (xs ys : List W) → Elem w (xs ++ ys) → Elem w (xs ++ x ∷ ys)
  Elem-insert w x [] ys m = inr m
  Elem-insert w x (y ∷ xs) ys (inl e) = inl e
  Elem-insert w x (y ∷ xs) ys (inr m) = inr (Elem-insert w x xs ys m)

  Elem-move : (w x : W) (xs ys : List W) → Elem w ((x ∷ xs) ++ ys) → Elem w (xs ++ x ∷ ys)
  Elem-move w x xs ys (inl e) = Elem-append_right w xs (x ∷ ys) (inl e)
  Elem-move w x xs ys (inr m) = Elem-insert w x xs ys m

  set_waker-others :
      (reg : Registration W) (is_read side : Bool) (w : Option W)
      → same_side is_read side ≡ false
      → get_waker (set_waker reg is_read w) side ≡ get_waker reg side
  unfolding set_waker get_waker
  set_waker-others reg is_read side w h = ground arith

  or_insert-waker :
      (found : Option (Registration W)) (side : Bool) (w : W)
      → waker_of found side ≡ some w
      → get_waker (or_insert found) side ≡ some w
  unfolding or_insert
  or_insert-waker none side w h = absurd (ground arith)
  or_insert-waker (some reg) side w h = h

module _ {K : Kernel} {W : Type 0} where
  -- A step that registers another waker in the same place, or gives up the descriptor.
  abbrev touches : (fd : ℕ) (side : Bool) {s t : Polling K W} → Step K s t → Bool
  touches fd side (Step.registers q waker is_read other free) = (q == fd) && same_side is_read side
  touches fd side (Step.removes q found) = q == fd
  touches fd side _ = false

  abbrev pub untouched : (fd : ℕ) (side : Bool) {s t : Polling K W} → Run K s t → Bool
  untouched fd side begin = true
  untouched fd side (later run step) = untouched fd side run && not (touches fd side step)

  step-wake_fd : (s t : Polling K W) → Step K s t → t.reactor.wake_fd ≡ s.reactor.wake_fd
  unfolding wake
  step-wake_fd s t (Step.registers fd waker is_read other free) =
      register-wake_fd K s.reactor fd waker is_read
  step-wake_fd s t (Step.removes fd found) = refl
  step-wake_fd s t (Step.deletes fd at) = refl
  step-wake_fd s t Step.wakes = refl
  step-wake_fd s t (Step.waits timeout at e) = refl
  step-wake_fd s t (Step.wait_fails timeout at e) = refl
  step-wake_fd s t (Step.handles events at) = handle_events-wake_fd K s.reactor events
  step-wake_fd s t (Step.calls at) = refl
  step-wake_fd s t (Step.returns at) = refl

  run-wake_fd : (s t : Polling K W) → Run K s t → t.reactor.wake_fd ≡ s.reactor.wake_fd
  run-wake_fd s t begin = refl
  run-wake_fd s t (later {s = m} run step) = step-wake_fd m t step ∙ run-wake_fd s m run

  register-waker_at :
      (r : Reactor K W) (q : ℕ) (waker : W) (is_read : Bool) (fd : ℕ) (side : Bool) (w : W)
      → ((q == fd) && same_side is_read side) ≡ false
      → waker_at r fd side ≡ some w
      → waker_at (register K r q waker is_read).0 fd side ≡ some w
  unfolding register
  register-waker_at r q waker is_read fd side w other h =
      let found = lookup q r.registrations in
      let reg = set_waker (or_insert found) is_read (some waker) in
      let op = if not (is_some found) then add else modify in
      elim (Result-cases (K.epoll_ctl r.kernel op q (oneshot (interest reg))).1) [
        | inl (_, accepted) ↦
            rw (accepted, register)
              (elim (Bool-cases (q == fd)) [
                | inl here ↦
                    let here_too =
                      subst (λ p. waker_at r p side ≡ some w) (sym ((==_iff q fd).0 here)) h in
                    rw (lookup-insert q fd reg r.registrations, here)
                      (set_waker-others (or_insert found) is_read side (some waker) (ground arith)
                        ∙ or_insert-waker found side w here_too)
                | inr elsewhere ↦ rw (lookup-insert q fd reg r.registrations, elsewhere) h
              ])
        | inr (e, failed) ↦ rw (register-err K r q waker is_read e (rw (failed, register)) fd) h
      ]

  remove-waker_at :
      (r : Reactor K W) (q fd : ℕ) (side : Bool)
      → (q == fd) ≡ false
      → waker_at (record r { registrations = remove q r.registrations }) fd side
        ≡ waker_at r fd side
  remove-waker_at r q fd side other = rw (lookup-remove q fd r.registrations, other)

  -- It is still registered, or the driver has taken it to call it, or has called it.
  abbrev Known : ℕ → Bool → W → Polling K W → Type 0
  Known fd side w s = (waker_at s.reactor fd side ≡ some w) ⊎ Elem w (owed s.driver ++ s.woken)

  handles-Known :
      (fd : ℕ) (side : Bool) (w : W) (r : Reactor K W) (events : List Event) (woken : List W)
      → fd ≢ r.wake_fd
      → waker_at r fd side ≡ some w
      → (waker_at (handle_events K r events).0 fd side ≡ some w)
        ⊎ Elem w ((handle_events K r events).1 ++ woken)
  handles-Known fd side w r events woken other h =
      let woken_by = handle_events-wakes r events fd side w other h in
      elim (Bool-cases (hits fd side events)) [
        | inl hit ↦ inr (Elem-append_left w (handle_events K r events).1 woken (rw hit at woken_by))
        | inr miss ↦ inl (rw miss at woken_by)
      ]

  step-Known :
      (fd : ℕ) (side : Bool) (w : W) (s t : Polling K W) (step : Step K s t)
      → fd ≢ s.reactor.wake_fd
      → touches fd side step ≡ false
      → Known fd side w s
      → Known fd side w t
  unfolding wake
  step-Known fd side w s t (Step.registers q waker is_read o l) other free (inl h) =
      inl (register-waker_at s.reactor q waker is_read fd side w free h)
  step-Known fd side w s t (Step.registers q waker is_read o l) other free (inr m) = inr m
  step-Known fd side w s t (Step.removes q found) other free (inl h) =
      inl (remove-waker_at s.reactor q fd side free ∙ h)
  step-Known fd side w s t (Step.removes q found) other free (inr m) = inr m
  step-Known fd side w s t (Step.deletes q at) other free known = known
  step-Known fd side w s t Step.wakes other free known = known
  step-Known fd side w s t (Step.waits timeout at e) other free (inl h) = inl h
  step-Known fd side w s t (Step.waits timeout at e) other free (inr m) =
      inr (subst (λ p. Elem w (owed p ++ s.woken)) at m)
  step-Known fd side w s t (Step.wait_fails timeout at e) other free (inl h) = inl h
  step-Known fd side w s t (Step.wait_fails timeout at e) other free (inr m) = inr m
  step-Known fd side w s t (Step.handles events at) other free (inl h) =
      handles-Known fd side w s.reactor events s.woken other h
  step-Known fd side w s t (Step.handles events at) other free (inr m) = inr (
      Elem-append_right w (handle_events K s.reactor events).1 s.woken
        (subst (λ p. Elem w (owed p ++ s.woken)) at m))
  step-Known fd side w s t (Step.calls at) other free (inl h) = inl h
  step-Known fd side w s t (Step.calls {waker} {wakers} at) other free (inr m) =
      inr (Elem-move w waker wakers s.woken (subst (λ p. Elem w (owed p ++ s.woken)) at m))
  step-Known fd side w s t (Step.returns at) other free (inl h) = inl h
  step-Known fd side w s t (Step.returns at) other free (inr m) =
      inr (subst (λ p. Elem w (owed p ++ s.woken)) at m)

  run-Known :
      (fd : ℕ) (side : Bool) (w : W) (s t : Polling K W) (run : Run K s t)
      → fd ≢ s.reactor.wake_fd
      → untouched fd side run ≡ true
      → Known fd side w s
      → Known fd side w t
  run-Known fd side w s t begin other free known = known
  run-Known fd side w s t (later {s = m} run step) other free known =
      step-Known fd side w m t step (rw (run-wake_fd s m run) other) (ground arith)
        (run-Known fd side w s m run other (ground arith) known)

  -- A waker waits for a direction of a descriptor other than the reactor's own. In every order of the
  -- calls of other threads and of the driver's wait, handling and calling, as long as nothing registers
  -- another waker for that direction or gives up the descriptor: when the driver is outside `poll`, the
  -- waker still waits there or it has been called. None is dropped in the window in which the driver
  -- waits without the lock.
  pub registered-kept :
      (fd : ℕ) (side : Bool) (w : W) (s t : Polling K W) (run : Run K s t)
      → fd ≢ s.reactor.wake_fd
      → waker_at s.reactor fd side ≡ some w
      → untouched fd side run ≡ true
      → t.driver ≡ outside
      → (waker_at t.reactor fd side ≡ some w) ⊎ Elem w t.woken
  registered-kept fd side w s t run other h free out =
      elim (run-Known fd side w s t run other free (inl h)) [
        | inl kept ↦ inl kept
        | inr m ↦ inr (subst (λ p. Elem w (owed p ++ t.woken)) out m)
      ]
