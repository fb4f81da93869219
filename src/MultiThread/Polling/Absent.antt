-- ===== src/MultiThread/Polling/Absent.antt =====
-- src/reactor.rs with the threads of src/multi_thread: a descriptor that is being dropped has no entry.
use mini_async_runtime.Base.{
  ℕ, ◌≡◌, ap, ◌∙◌, Bool, true, false, is_some, none, List, [], ◌∷◌, lookup, lookup-remove,
  lookup-insert, arith, inl, inr, Bool-cases, Option-cases, ◌==◌, ==_iff,
}
use mini_async_runtime.Reactor.Epoll.{Kernel, Event}
use mini_async_runtime.Reactor.Interest.{Registration}
use mini_async_runtime.Reactor.{Reactor, wake, dispatch, handle_event, handle_events}
use mini_async_runtime.Reactor.Armed.Register.{register-elsewhere}
use mini_async_runtime.MultiThread.Polling.{Polling, Step}

differ : (f : ℕ → Bool) (p q : ℕ) → f p ≡ true → f q ≡ false → (p == q) ≡ false
differ f p q e h = elim (Bool-cases (p == q)) [
  | inl same ↦ let e' = ap f ((==_iff p q).0 same) in absurd cc
  | inr different ↦ different
]

module _ {K : Kernel} {W : Type 0} where
  -- A descriptor has no entry while it is leaving.
  abbrev pub Absent : Polling K W → Type 0
  Absent s = (q : ℕ) → s.leaving q ≡ true → lookup q s.reactor.registrations ≡ none

  dispatch-none :
      (r : Reactor K W) (e : Event) (reg : Registration W) (q : ℕ)
      → (e.fd == q) ≡ false
      → lookup q r.registrations ≡ none
      → lookup q (dispatch K r e reg).0.registrations ≡ none
  unfolding dispatch
  dispatch-none r e reg q ne h = rw (lookup-insert e.fd q _ r.registrations, ne) h

  handle_event-none :
      (r : Reactor K W) (e : Event) (q : ℕ)
      → lookup q r.registrations ≡ none
      → lookup q (handle_event K r e).0.registrations ≡ none
  unfolding handle_event
  handle_event-none r e q h = elim (Bool-cases (e.fd == r.wake_fd)) [
    | inl own ↦ rw own h
    | inr other ↦ elim (Option-cases (lookup e.fd r.registrations)) [
      | inl missing ↦ rw (other, missing, handle_event) h
      | inr (reg, found) ↦
          let ne : (e.fd == q) ≡ false =
            differ (λ p. is_some (lookup p r.registrations)) e.fd q (rw found) (rw h) in
          rw (other, found, handle_event) (dispatch-none r e reg q ne h)
    ]
  ]

  handle_events-none :
      (r : Reactor K W) (es : List Event) (q : ℕ)
      → lookup q r.registrations ≡ none
      → lookup q (handle_events K r es).0.registrations ≡ none
  unfolding handle_events
  handle_events-none r [] q h = h
  handle_events-none r (e ∷ es) q h =
      handle_events-none (handle_event K r e).0 es q (handle_event-none r e q h)

  pub step-Absent : (s t : Polling K W) → Absent s → Step K s t → Absent t
  unfolding wake
  step-Absent s t h (Step.registers fd waker is_read other free) = λ q at.
      let ne : (q == fd) ≡ false = differ s.leaving q fd at free in
      register-elsewhere K s.reactor fd waker is_read q (ground arith) ∙ h q at
  step-Absent s t h (Step.removes fd found) =
      λ q at. ground (arith, lookup-remove fd q s.reactor.registrations, h q)
  step-Absent s t h (Step.deletes fd at) = λ q at'. h q (ground arith)
  step-Absent s t h Step.wakes = h
  step-Absent s t h (Step.waits timeout at e) = h
  step-Absent s t h (Step.wait_fails timeout at e) = h
  step-Absent s t h (Step.handles events at) =
      λ q at'. handle_events-none s.reactor events q (h q at')
  step-Absent s t h (Step.calls at) = h
  step-Absent s t h (Step.returns at) = h
