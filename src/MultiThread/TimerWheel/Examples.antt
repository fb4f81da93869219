-- ===== src/MultiThread/TimerWheel/Examples.antt =====
-- Three timers of which two have the same deadline: the heap of src/multi_thread/timer.rs has them in
-- one order, and the one of src/timer.rs in the other.
use mini_async_runtime.Base.{
  ℕ, true, List, [], ◌∷◌, some, ready, pending, arith, Permutes, keeps, swaps, follows,
  Permutes-refl,
}
use mini_async_runtime.Timer
use mini_async_runtime.Timer.{TimerEntry, process_heap, heap_push}
use mini_async_runtime.MultiThread.TimerWheel.{new, register, poll_sleep, has_pending}
use mini_async_runtime.MultiThread.TimerWheel.Heaps.{
  Call, registers, processes, sleeps, asks, Answer, sleep, fired, slept, is_pending, Calls,
  SimpleCalls, AgreeAll,
}
use mini_async_runtime.MultiThread.TimerWheel.Heaps.Agreement.{new-agree}

abbrev entry : ℕ → ℕ → TimerEntry
entry deadline state = record { deadline = deadline; state = state }

abbrev three_timers : List (Call ℕ)
three_timers =
    registers 2
    ∷ registers 1
    ∷ registers 1
    ∷ sleeps 1 11
    ∷ sleeps 2 12
    ∷ asks
    ∷ processes 1
    ∷ sleeps 2 12
    ∷ []

abbrev answers : List ℕ → List (Answer ℕ)
answers woken =
    sleep 0
    ∷ sleep 1
    ∷ sleep 2
    ∷ slept pending
    ∷ slept pending
    ∷ is_pending true
    ∷ fired (some 1) woken
    ∷ slept (ready tt)
    ∷ []

-- After `extend`, timer 2 is ahead of timer 1.
three_timers-Calls : Calls new three_timers (answers (12 ∷ 11 ∷ []))
unfolding new register poll_sleep has_pending process_heap Timer.fire
three_timers-Calls =
    let heap = entry 1 2 ∷ entry 1 1 ∷ entry 2 0 ∷ [] in
    let back : Permutes heap (entry 2 0 ∷ entry 1 1 ∷ entry 1 2 ∷ []) =
      follows (swaps (entry 1 2) (entry 1 1) (entry 2 0 ∷ [])) (
        follows (keeps (entry 1 1) (swaps (entry 1 2) (entry 2 0) []))
          (swaps (entry 1 1) (entry 2 0) (entry 1 2 ∷ []))) in
    Calls.registered 2 (
      Calls.registered 1 (
        Calls.registered 1 (
          Calls.polled 1 11 (
            Calls.polled 2 12 (
              Calls.asked
                (Calls.processed heap 1 (ground arith, back) (Calls.polled 2 12 Calls.ends)))))))

-- After each `push`, timer 1 is.
three_timers-SimpleCalls : SimpleCalls Timer.new three_timers (answers (11 ∷ 12 ∷ []))
unfolding Timer.new Timer.poll_sleep Timer.has_pending Timer.process process_heap
three_timers-SimpleCalls =
    SimpleCalls.registered (entry 2 0 ∷ []) 2 (ground arith, Permutes-refl _)
      (SimpleCalls.registered (entry 1 1 ∷ entry 2 0 ∷ []) 1 (ground arith, Permutes-refl _)
        (SimpleCalls.registered (entry 1 1 ∷ entry 1 2 ∷ entry 2 0 ∷ []) 1
          (ground arith, swaps (entry 1 1) (entry 1 2) (entry 2 0 ∷ []))
          (SimpleCalls.polled 1 11 (
            SimpleCalls.polled 2 12 (
              SimpleCalls.asked
                (SimpleCalls.processed 1 (SimpleCalls.polled 2 12 SimpleCalls.ends)))))))

new-agree_example : AgreeAll (answers (12 ∷ 11 ∷ [])) (answers (11 ∷ 12 ∷ []))
new-agree_example =
    new-agree three_timers (answers (12 ∷ 11 ∷ [])) (answers (11 ∷ 12 ∷ [])) three_timers-Calls
      three_timers-SimpleCalls
