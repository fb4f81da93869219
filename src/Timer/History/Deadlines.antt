-- ===== src/Timer/History/Deadlines.antt =====
-- src/timer.rs: deadlines against the completion of timers, the wakers called, and the time until
-- the next deadline.
use mini_async_runtime.Base.{
  ℕ, ◌+◌, ◌≤◌, ◌<◌, ◌≡◌, ◌↔◌, refl, subst, true, false, not, Option, none, some, List, [], ◌∷◌,
  to_list, ◌==◌, arith, contains, is_nil, false≢true, Bool-cases, ==_iff, inl, inr, ready, Elem,
  Elem-append_right,
}
use mini_async_runtime.Timer.{TimerEntry, TimerState, process, poll_sleep, has_pending}
use mini_async_runtime.Timer.Sorted.{Above, refs}
use mini_async_runtime.Timer.Process.{expired, remaining, until_next, stored}
use mini_async_runtime.Timer.Refs.{
  Accurate, contains-expired, contains-remaining, remaining-Above, remaining-Accurate,
}
use mini_async_runtime.Timer.History.{Clocked, Reach, processes}
use mini_async_runtime.Timer.History.Consistent.{
  IsConsistent, Step-IsConsistent, Reach-IsConsistent, processed,
}

module _ {W : Type 0} where
  Elem-stored :
      (cells : ℕ → TimerState W) (r : ℕ) (w : W) (h : List TimerEntry)
      → contains r (refs h) ≡ true
      → (cells r).waker ≡ some w
      → Elem w (stored cells h)
  unfolding stored
  Elem-stored cells r w [] c q = absurd (cc)
  Elem-stored cells r w (e ∷ h) c q = elim (Bool-cases (r == e.state)) [
    | inl here ↦
        let held : (cells e.state).waker ≡ some w = ground (arith, ==_iff r e.state) in
        rw held (inl refl)
    | inr there ↦
        Elem-append_right w (to_list (cells e.state).waker) (stored cells h)
          (Elem-stored cells r w h (ground arith) q)
  ]

  -- In every reachable state a poll of a registered timer is ready only if the deadline has passed
  -- at the last call of `process`.
  poll_sleep-not_early :
      {c : Clocked W} (r : ℕ) (w : W)
      → Reach c
      → r < c.wheel.next
      → (poll_sleep c.wheel r w).1 ≡ ready tt
      → c.deadlines r ≤ c.clock
  unfolding poll_sleep
  poll_sleep-not_early r w reach lt h =
      let v = Reach-IsConsistent reach in ground (arith, v.due r lt)

  -- After `process` at an instant that is not before the last one, a poll of a registered timer is
  -- ready exactly when its deadline is at most that instant.
  pub process-on_time :
      {c : Clocked W} (now r : ℕ) (w : W)
      → Reach c
      → c.clock ≤ now
      → r < c.wheel.next
      → ((poll_sleep (process c.wheel now).state r w).1 ≡ ready tt) ↔ (c.deadlines r ≤ now)
  unfolding poll_sleep process
  process-on_time {c} now r w reach le lt =
      let v = Reach-IsConsistent reach in
      let p = processed c now v in
      ground (
        arith,
        p.fired r,
        contains-expired c.deadlines now r c.wheel.heap v.accurate,
        v.waits r lt,
        v.due r lt,
      )

  -- `process` at or after the deadline of a timer that has not completed calls the waker that the
  -- timer holds.
  pub process-wakes :
      {c : Clocked W} (now r : ℕ) (w : W)
      → Reach c
      → r < c.wheel.next
      → (c.wheel.cells r).completed ≡ false
      → (c.wheel.cells r).waker ≡ some w
      → c.deadlines r ≤ now
      → Elem w (process c.wheel now).woken
  unfolding process
  process-wakes {c} now r w reach lt waiting held le =
      let v = Reach-IsConsistent reach in
      let p = processed c now v in
      rw p.wakes (
        Elem-stored c.wheel.cells r w (expired now c.wheel.heap)
          (ground (arith, contains-expired c.deadlines now r c.wheel.heap v.accurate, v.waits r lt))
          held)

Above-le :
    (dl : ℕ → ℕ) (d r : ℕ) (h : List TimerEntry)
    → Above d h
    → Accurate dl h
    → contains r (refs h) ≡ true
    → d ≤ dl r
Above-le dl d r [] a q c = cc
Above-le dl d r (e ∷ h) a q c = ground (arith, Above-le dl e.deadline r h a.1 q.1)

remaining_later :
    (dl : ℕ → ℕ) (now r : ℕ) (h : List TimerEntry)
    → Accurate dl h
    → contains r (refs (remaining now h)) ≡ true
    → now < dl r
remaining_later dl now r h a c = ground (arith, contains-remaining dl now r h a)

-- `d` is the time from `now` to the earliest deadline of a heap.
abbrev Sleeps : (ℕ → ℕ) → ℕ → List TimerEntry → Option ℕ → Type 0
Sleeps dl now h none = h ≡ []
Sleeps dl now h (some d) =
    (0 < d)
    × ((r : ℕ) → contains r (refs h) ≡ true → now + d ≤ dl r)
    × ((r : ℕ) × (contains r (refs h) ≡ true) × (dl r ≡ now + d))

until_next-Sleeps :
    (dl : ℕ → ℕ) (now : ℕ) (h : List TimerEntry)
    → Above 0 h
    → Accurate dl h
    → ((r : ℕ) → contains r (refs h) ≡ true → now < dl r)
    → Sleeps dl now h (until_next now h)
until_next-Sleeps dl now [] a q later = refl
until_next-Sleeps dl now (e ∷ h) a q later = (
  ground (arith, later e.state),
  λ r c. ground (arith, later e.state, Above-le dl e.deadline r h a.1 q.1),
  (e.state, ground arith, ground (arith, later e.state)),
)

Sleeps-none :
    (dl : ℕ → ℕ) (now : ℕ) (h : List TimerEntry) (o : Option ℕ)
    → Sleeps dl now h o
    → (o ≡ none) ↔ (not (is_nil h) ≡ false)
Sleeps-none dl now h none s = ground arith
Sleeps-none dl now [] (some d) s = absurd (false≢true s.2.1)
Sleeps-none dl now (e ∷ h) (some d) s = ground arith

module _ {W : Type 0} where
  process-Sleeps :
      {c : Clocked W} (now : ℕ)
      → IsConsistent c
      → Sleeps c.deadlines now (process c.wheel now).state.heap (process c.wheel now).result
  unfolding process
  process-Sleeps {c} now v =
      let p = processed c now v in
      rw (p.kept, p.next)
        (until_next-Sleeps c.deadlines now (remaining now c.wheel.heap)
          (remaining-Above now 0 c.wheel.heap v.sorted)
          (remaining-Accurate c.deadlines now c.wheel.heap v.accurate)
          (λ r h. remaining_later c.deadlines now r c.wheel.heap v.accurate h))

  -- `process` at an instant that is not before the last one gives no duration exactly when no
  -- timer is pending afterwards. A duration `d` that it gives is positive, no timer that is still
  -- waiting has a deadline before `now + d`, and one has just that deadline.
  pub process-next_deadline :
      {c : Clocked W} (now : ℕ)
      → Reach c
      → c.clock ≤ now
      → let o = process c.wheel now in
        ((o.result ≡ none) ↔ (has_pending o.state ≡ false))
        × ((d : ℕ)
            → o.result ≡ some d
            → (0 < d)
              × ((r : ℕ)
                  → r < c.wheel.next
                  → (o.state.cells r).completed ≡ false
                  → now + d ≤ c.deadlines r)
              × ((r : ℕ) × (r < c.wheel.next)
                  × ((o.state.cells r).completed ≡ false)
                  × (c.deadlines r ≡ now + d)))
  unfolding process has_pending
  process-next_deadline {c} now reach le =
      let v = Reach-IsConsistent reach in
      let w = Step-IsConsistent (processes now le) v in
      let s = process-Sleeps now v in
      (
        Sleeps-none c.deadlines now (process c.wheel now).state.heap (process c.wheel now).result s,
        λ d e.
            let t = subst (Sleeps c.deadlines now (process c.wheel now).state.heap) e s in
            (
              t.0,
              λ r lt h. t.1 r (ground (arith, w.waits r lt)),
              (
                t.2.0,
                w.fresh t.2.0 t.2.1,
                ground (arith, w.waits t.2.0 (w.fresh t.2.0 t.2.1)),
                t.2.2,
              ),
            ),
      )
