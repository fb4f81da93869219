-- ===== src/Runtime/Sleeping/Iteration.antt =====
-- src/runtime.rs, `block_on` of a future that sleeps: one iteration while it sleeps.
use mini_async_runtime.Base.{
  ℕ, suc, ◌-◌, ◌≤◌, ◌<◌, ◌≡◌, refl, sym, ap, subst, true, false, Option, none, some, List, [], ◌∷◌,
  leb, ◌==◌, arith, Bool-cases, inl, inr, ◌⊎◌, Result-cases, lookup,
}
use mini_async_runtime.ReadyQueue.{ReadyQueue, push, push_all, drain}
use mini_async_runtime.ReadyQueue
use mini_async_runtime.Executor.{is_idle, wake_all}
use mini_async_runtime.Timer.{process, process_heap, has_pending}
use mini_async_runtime.Reactor.Epoll.{Kernel, Event}
use mini_async_runtime.Reactor.{Reactor, poll, after_wait, handle_event, handle_events, timeout_ms}
use mini_async_runtime.Reactor
use mini_async_runtime.Runtime.Loop.{
  goes_on, Ex, poll_reactor, process_timers, wait, after_timers, check_tasks, check_root,
}
use mini_async_runtime.Runtime.Sleeping.Clock.{Later, after-advances}
use mini_async_runtime.Runtime.Sleeping.{Sleeper, quiet, Nap, asleep, awake}

-- A poll of a reactor without registrations wakes nobody.
module _ {K : Kernel} where
  handle_events-quiet :
      (fd : ℕ) (kernel : K.State) (es : List Event)
      → (k : K.State) × (handle_events K (quiet fd kernel) es ≡ (quiet fd k, []))
  unfolding handle_events handle_event lookup
  handle_events-quiet fd kernel [] = (kernel, refl)
  handle_events-quiet fd kernel (e ∷ es) = elim (Bool-cases (e.fd == fd)) [
    | inl own ↦ let (k, h) = handle_events-quiet fd (K.eventfd_read kernel) es in (k, rw (own, h))
    | inr other ↦ let (k, h) = handle_events-quiet fd kernel es in (k, rw (other, h))
  ]

  poll-quiet :
      (fd : ℕ) (kernel : K.State) (t : Option ℕ)
      → (k : K.State) × ((poll K (quiet fd kernel) t).state ≡ quiet fd k)
        × ((poll K (quiet fd kernel) t).woken ≡ [])
  unfolding poll after_wait
  poll-quiet fd kernel t = elim (Result-cases (Reactor.wait K kernel (timeout_ms t)).1) [
    | inl (es, waited) ↦
        let (k, h) = handle_events-quiet fd (Reactor.wait K kernel (timeout_ms t)).0 es in
        (k, rw (waited, after_wait, h), rw (waited, after_wait, h))
    | inr (e, failed) ↦
        ((Reactor.wait K kernel (timeout_ms t)).0, rw (failed, after_wait), rw (failed, after_wait))
  ]

module _ {K : Kernel} {U : Type 0} (T : Type 0) (instant_now : U → U × ℕ) (n : Nap) where
  process-late :
      (kernel : K.State) (u : U)
      → n.deadline ≤ (instant_now u).1
      → process_timers instant_now (asleep K U T n kernel u)
        ≡ (awake K U T n kernel (instant_now u).0, none)
  unfolding process_timers process process_heap push_all push wake_all
  process-late kernel u le =
      let due : leb n.deadline (instant_now u).1 ≡ true = ground arith in rw (due, n.held)

  process-early :
      (kernel : K.State) (u : U)
      → (instant_now u).1 < n.deadline
      → process_timers instant_now (asleep K U T n kernel u)
        ≡ (asleep K U T n kernel (instant_now u).0, some (n.deadline - (instant_now u).1))
  unfolding process_timers process process_heap push_all push wake_all
  process-early kernel u lt =
      let early : leb n.deadline (instant_now u).1 ≡ false = ground arith in rw early

  module _ (advances : (u : U) → (instant_now u).1 ≤ (instant_now (instant_now u).0).1) where
    -- Awake, after the deadline.
    abbrev pub Awoken : Ex K U Sleeper T → Type 0
    Awoken ex =
        (k : K.State) × (u' : U) × (ex ≡ awake K U T n k u') × (n.deadline ≤ (instant_now u').1)

    -- Awake, or asleep after a reading of the clock.
    abbrev pub Slept : U → Ex K U Sleeper T → Type 0
    Slept u ex =
        ((k : K.State) × (u' : U) × (ex ≡ asleep K U T n k u') × Later instant_now u u') ⊎ Awoken ex

    process-Slept :
        (kernel : K.State) (u : U)
        → Slept u (process_timers instant_now (asleep K U T n kernel u)).0
    process-Slept kernel u = elim (Bool-cases (leb n.deadline (instant_now u).1)) [
      | inl due ↦ inr (
        kernel,
        (instant_now u).0,
        ap (λ p. p.0) (process-late kernel u (ground arith)),
        ground (arith, advances u),
      )
      | inr early ↦ inl (
        kernel,
        (instant_now u).0,
        ap (λ p. p.0) (process-early kernel u (ground arith)),
        λ m. omega arith,
      )
    ]

    Slept-later : (u : U) (ex : Ex K U Sleeper T) → Slept (instant_now u).0 ex → Slept u ex
    Slept-later u ex (inl (k, u', same, lt)) =
        inl (k, u', same, λ m. omega (arith, lt m, after-advances instant_now advances (suc m) u))
    Slept-later u ex (inr awoken) = inr awoken

    wait-asleep :
        (kernel : K.State) (u : U) (t : ℕ)
        → (k : K.State) × (wait instant_now (asleep K U T n kernel u) t
            ≡ (process_timers instant_now (asleep K U T n k u)).0)
    unfolding wait poll_reactor wake_all push_all
    wait-asleep kernel u t =
        let (k, state, woken) = poll-quiet {K = K} n.fd kernel (some t) in (k, rw (state, woken))

    -- An iteration of the loop goes on, and where the deadline has passed the task is awake.
    pub check_root-Slept :
        (kernel : K.State) (u : U)
        → (ex : Ex K U Sleeper T) × (check_root instant_now (asleep K U T n kernel u) ≡ goes_on ex)
          × (((instant_now u).1 < n.deadline) × Slept u ex ⊎ Awoken ex)
    unfolding check_root check_tasks after_timers is_idle ReadyQueue.is_empty has_pending
    check_root-Slept kernel u = elim (Bool-cases (leb n.deadline (instant_now u).1)) [
      | inl due ↦ (
        awake K U T n kernel (instant_now u).0,
        ap (after_timers instant_now) (process-late kernel u (ground arith)),
        inr (kernel, (instant_now u).0, refl, ground (arith, advances u)),
      )
      | inr early ↦
          let u' = (instant_now u).0 in
          let t = n.deadline - (instant_now u).1 in
          let (k, waited) = wait-asleep kernel u' t in
          (
            wait instant_now (asleep K U T n kernel u') t,
            ap (after_timers instant_now) (process-early kernel u (ground arith)),
            inl (
              ground arith,
              subst (Slept u) (sym waited) (
                  Slept-later u (process_timers instant_now (asleep K U T n k u')).0
                    (process-Slept k u')),
            ),
          )
    ]
