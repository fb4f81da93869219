-- ===== src/MultiThread/Driver/Bounded.antt =====
-- src/multi_thread/timer.rs, `process`: the heap that it leaves, against the duration that it gives.
use mini_async_runtime.Base.{
  ℕ, ◌+◌, ◌≤◌, ◌≡◌, refl, Option, none, some, List, [], ◌∷◌, ◌++◌, to_list, leb, arith, Bool-cases,
  inl, inr, Elem,
}
use mini_async_runtime.Timer.{TimerEntry, TimerState, process_heap, fire, heap_push}
use mini_async_runtime.Timer.Sorted.{Above, heap_push-Above}
use mini_async_runtime.MultiThread.TimerWheel.{TimerWheel, extend, process}

-- No deadline is before the end of the duration, counted from `now`.
abbrev pub Until : ℕ → Option ℕ → List TimerEntry → Type 0
Until now none heap = heap ≡ []
Until now (some d) heap = Above (now + d) heap

extend-Above : (heap entries : List TimerEntry) → Above 0 heap → Above 0 (extend heap entries)
unfolding extend
extend-Above heap [] a = a
extend-Above heap (e ∷ entries) a =
    extend-Above (heap_push e heap) entries (heap_push-Above 0 e heap (omega arith) a)

module _ {W : Type 0} where
  process_heap-Until :
      (now d : ℕ) (h : List TimerEntry) (cells : ℕ → TimerState W) (woken : List W)
      → Above d h
      → let o = process_heap now h cells woken in Above 0 o.state.0 × Until now o.result o.state.0
  unfolding process_heap
  process_heap-Until now d [] cells woken a = (tt, refl)
  process_heap-Until now d (e ∷ h) cells woken a = elim (Bool-cases (leb e.deadline now)) [
    | inl due ↦ rw due (
        process_heap-Until now e.deadline h (fire cells e.state)
          (woken ++ to_list (cells e.state).waker) a.1)
    | inr early ↦ rw early ((omega arith, a.1), (ground arith, a.1))
  ]

  -- The heap stays in order, the inbox is empty, and the duration is no longer than to any deadline.
  pub process-Until :
      (wheel : TimerWheel W) (now : ℕ)
      → Above 0 wheel.heap
      → let o = process wheel now in
        Above 0 o.state.heap × Until now o.result o.state.heap × (o.state.inbox ≡ [])
  unfolding process
  process-Until wheel now a =
      let (above, until) =
        process_heap-Until now 0 (extend wheel.heap wheel.inbox) wheel.cells []
          (extend-Above wheel.heap wheel.inbox a) in
      (above, until, refl)

pub Above-Elem :
    (d : ℕ) (e : TimerEntry) (h : List TimerEntry) → Above d h → Elem e h → d ≤ e.deadline
Above-Elem d e [] a m = absurd m
Above-Elem d e (x ∷ h) a (inl same) = ground arith
Above-Elem d e (x ∷ h) a (inr m) = ground (arith, Above-Elem x.deadline e h a.1 m)
