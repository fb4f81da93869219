-- ===== src/Timer/History.antt =====
-- src/timer.rs: the calls on a wheel over time.
pub mod Consistent
pub mod Deadlines
mod Examples
use mini_async_runtime.Base.{
  ℕ, ◌+◌, ◌-◌, ◌≤◌, ◌<◌, ◌≡◌, ◌≢◌, ◌↔◌, ◌⊎◌, refl, sym, ap, subst, ◌∙◌, Bool, true, false, not,
  ◌||◌, ◌&&◌, Option, none, some, List, [], ◌∷◌, ◌++◌, to_list, leb, ◌==◌, if◌then◌else◌, arith,
  contains, is_nodup, All, Bool-cases, inl, inr, ready, pending, Elem, Elem-append_left,
  Elem-append_right,
}
use mini_async_runtime.Timer
use mini_async_runtime.Timer.{
  TimerEntry, TimerState, TimerWheel, register, process, poll_sleep, has_pending, heap_push,
}
use mini_async_runtime.Timer.Sorted.{
  Above, Above-mono, refs, heap_push-Above, heap_push-nodup, contains-heap_push,
}
use mini_async_runtime.Timer.Process.{
  expired, remaining, until_next, stored, after_fire, Processed, process_heap_lem,
}

-- The wheel, the last instant at which it was processed, and the deadline of each timer.
pub record Clocked (W : Type 0) : Type 0 where
  pub wheel : TimerWheel W
  pub clock : ℕ
  pub deadlines : ℕ → ℕ

-- `Instant::now` does not go back.
pub data Step {W : Type 0} (c : Clocked W) : Clocked W → Type 0 where
  registers :
      (deadline : ℕ)
      → Step c (record c {
        wheel = (register c.wheel deadline).0;
        deadlines = λ r. if c.wheel.next == r then deadline else c.deadlines r;
      })
  processes :
      (now : ℕ)
      → c.clock ≤ now
      → Step c (record c { wheel = (process c.wheel now).state; clock = now })
  sleeps :
      (r : ℕ) (waker : W)
      → r < c.wheel.next
      → Step c (record c { wheel = (poll_sleep c.wheel r waker).0 })

pub data Reach {W : Type 0} : Clocked W → Type 0 where
  start : Reach (record { wheel = Timer.new; clock = 0; deadlines = λ _. 0 })
  later : {c d : Clocked W} → Reach c → Step c d → Reach d
