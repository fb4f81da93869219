-- ===== src/Timer/History/Examples.antt =====
-- Tests of src/timer.rs, and the theorems about it at concrete inputs.
use mini_async_runtime.Base.{
  ℕ, ◌+◌, ◌≤◌, ◌<◌, ◌≡◌, ◌↔◌, refl, false, none, some, [], ◌∷◌, ready, arith,
}
use mini_async_runtime.Timer.{new, register, process, poll_sleep, has_pending, heap_push}
use mini_async_runtime.Timer.History.{Clocked, registers, processes, sleeps, Reach, start, later}
use mini_async_runtime.Timer.History.Deadlines.{process-on_time, process-next_deadline}

-- Timer 0 at 10 and timer 1 at 5; the task with waker 8 waits for timer 1.
waiting : (c : Clocked ℕ) × Reach c
unfolding register
waiting = (_, later (later (later start (registers 10)) (registers 5)) (sleeps 1 8 (omega arith)))

fired : (c : Clocked ℕ) × Reach c
unfolding waiting
fired = (_, later waiting.1 (processes 7 (omega arith)))

process_at_seven :
    ((process waiting.0.wheel 7).woken ≡ 8 ∷ [])
    × ((process waiting.0.wheel 7).result ≡ some 3)
    × ((process waiting.0.wheel 7).state.heap ≡ record { deadline = 10; state = 0 } ∷ [])
unfolding waiting new register process poll_sleep heap_push
process_at_seven = (refl, refl, refl)

process-on_time_example :
    ((poll_sleep (process waiting.0.wheel 7).state 1 8).1 ≡ ready tt) ↔ (waiting.0.deadlines 1 ≤ 7)
unfolding waiting new register poll_sleep
process-on_time_example = process-on_time 7 1 8 waiting.1 (omega arith) (omega arith)

process-next_deadline_example :
    let o = process waiting.0.wheel 7 in
    ((o.result ≡ none) ↔ (has_pending o.state ≡ false))
    × ((d : ℕ)
        → o.result ≡ some d
        → (0 < d)
          × ((r : ℕ)
              → r < waiting.0.wheel.next
              → (o.state.cells r).completed ≡ false
              → 7 + d ≤ waiting.0.deadlines r)
          × ((r : ℕ) × (r < waiting.0.wheel.next)
              × ((o.state.cells r).completed ≡ false)
              × (waiting.0.deadlines r ≡ 7 + d)))
unfolding waiting
process-next_deadline_example = process-next_deadline 7 waiting.1 (omega arith)
