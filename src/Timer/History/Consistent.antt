-- ===== src/Timer/History/Consistent.antt =====
-- src/timer.rs: the heap against the cells, over time.
use mini_async_runtime.Base.{
  ℕ, ◌≤◌, ◌<◌, ◌≡◌, refl, true, false, not, [], arith, contains, is_nodup, Bool-cases, inl, inr,
}
use mini_async_runtime.Timer
use mini_async_runtime.Timer.{
  TimerEntry, TimerState, TimerWheel, register, process, poll_sleep, has_pending, heap_push,
}
use mini_async_runtime.Timer.Sorted.{
  Above, refs, heap_push-Above, heap_push-nodup, contains-heap_push,
}
use mini_async_runtime.Timer.Process.{Processed, process_heap_lem}
use mini_async_runtime.Timer.Refs.{
  Accurate, contains-expired, contains-remaining, remaining-Above, remaining-nodup,
  remaining-Accurate, heap_push-Accurate, Accurate-agree,
}
use mini_async_runtime.Timer.History.{
  Clocked, Step, registers, processes, sleeps, Reach, start, later,
}

pub record IsConsistent {W : Type 0} (c : Clocked W) : Type 0 where
  pub sorted : Above 0 c.wheel.heap
  pub distinct : is_nodup (refs c.wheel.heap) ≡ true
  pub fresh : (r : ℕ) → contains r (refs c.wheel.heap) ≡ true → r < c.wheel.next
  pub accurate : Accurate c.deadlines c.wheel.heap
  pub waits :
      (r : ℕ)
      → r < c.wheel.next
      → (c.wheel.cells r).completed ≡ not (contains r (refs c.wheel.heap))
  pub due :
      (r : ℕ) → r < c.wheel.next → (c.wheel.cells r).completed ≡ true → c.deadlines r ≤ c.clock

module _ {W : Type 0} where
  pub processed :
      (c : Clocked W) (now : ℕ) → IsConsistent c → Processed now c.wheel.heap c.wheel.cells []
  processed c now v = process_heap_lem now 0 c.wheel.heap c.wheel.cells [] v.sorted v.distinct

  abbrev entry : Clocked W → ℕ → TimerEntry
  entry c deadline = record { deadline = deadline; state = c.wheel.next }

  unused : {c : Clocked W} → IsConsistent c → contains c.wheel.next (refs c.wheel.heap) ≡ false
  unused {c} v = ground (arith, v.fresh c.wheel.next)

  pub Step-IsConsistent : {c d : Clocked W} → Step c d → IsConsistent c → IsConsistent d
  unfolding register process poll_sleep
  Step-IsConsistent {c} (registers deadline) v = record {
    sorted = heap_push-Above 0 _ c.wheel.heap (omega arith) v.sorted;
    distinct = heap_push-nodup _ c.wheel.heap v.distinct (unused v);
    fresh = λ q h. ground (arith, contains-heap_push q (entry c deadline) c.wheel.heap, v.fresh q);
    accurate = heap_push-Accurate _ (entry c deadline) c.wheel.heap (ground arith) (
        Accurate-agree c.deadlines _ c.wheel.next c.wheel.heap (unused v) (λ q ne. ground arith)
          v.accurate);
    waits = λ q h. ground (arith, contains-heap_push q (entry c deadline) c.wheel.heap, v.waits q);
    due = λ q h e. ground (arith, v.due q);
  }
  Step-IsConsistent {c} (processes now le) v =
      let p = processed c now v in
      record {
        sorted = rw p.kept (remaining-Above now 0 c.wheel.heap v.sorted);
        distinct = rw p.kept (remaining-nodup c.deadlines now c.wheel.heap v.accurate v.distinct);
        fresh = λ q h. ground (
          arith,
          p.kept,
          p.fired q,
          contains-expired c.deadlines now q c.wheel.heap v.accurate,
          contains-remaining c.deadlines now q c.wheel.heap v.accurate,
          v.fresh q,
          v.waits q,
          v.due q,
        );
        accurate = rw p.kept (remaining-Accurate c.deadlines now c.wheel.heap v.accurate);
        waits = λ q h. ground (
          arith,
          p.kept,
          p.fired q,
          contains-expired c.deadlines now q c.wheel.heap v.accurate,
          contains-remaining c.deadlines now q c.wheel.heap v.accurate,
          v.fresh q,
          v.waits q,
          v.due q,
        );
        due = λ q h e. ground (
          arith,
          p.kept,
          p.fired q,
          contains-expired c.deadlines now q c.wheel.heap v.accurate,
          contains-remaining c.deadlines now q c.wheel.heap v.accurate,
          v.fresh q,
          v.waits q,
          v.due q,
        );
      }
  Step-IsConsistent {c} (sleeps r waker lt) v = elim (Bool-cases (c.wheel.cells r).completed) [
    | inl done ↦ rw done v
    | inr waiting ↦ rw waiting (record {
      sorted = v.sorted;
      distinct = v.distinct;
      fresh = v.fresh;
      accurate = v.accurate;
      waits = λ q h. ground (arith, v.waits q h);
      due = λ q h e. ground (arith, v.due q h);
    })
  ]

  pub Reach-IsConsistent : {c : Clocked W} → Reach c → IsConsistent c
  unfolding Timer.new
  Reach-IsConsistent start = record {
    sorted = tt;
    distinct = refl;
    fresh = λ r h. cc;
    accurate = tt;
    waits = λ r h. absurd (omega arith);
    due = λ r h e. cc;
  }
  Reach-IsConsistent (later r st) = Step-IsConsistent st (Reach-IsConsistent r)
