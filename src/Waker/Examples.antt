-- ===== src/Waker/Examples.antt =====
-- src/executor.rs, src/runtime.rs and src/multi_thread/executor.rs: a program that makes two wakers,
-- clones the second, wakes through one of those and drops another, with an allocator that gives an
-- address above all in use.
use mini_async_runtime.Base.{
  take_at, ℕ, suc, ◌+◌, ◌<◌, ◌≡◌, refl, false, none, some, List, [], ◌∷◌, length, HashMap, lookup,
  arith,
}
use mini_async_runtime.ReadyQueue.{push}
use mini_async_runtime.ReadyQueue
use mini_async_runtime.MultiThread.ReadyQueue as AtomicQueue
use mini_async_runtime.MultiThread.Schedule.{idle}
use mini_async_runtime.Waker.{Held, Call, makes, uses, clones, wakes, wakes_by_ref, drops}
use mini_async_runtime.Waker.Holding.{ids}
use mini_async_runtime.Waker.Client.{calls, simple_calls}
use mini_async_runtime.Waker.Boxes.{task_of}
use mini_async_runtime.Waker.Local
use mini_async_runtime.Waker.Local.Refines.{task_wakers_safe}
use mini_async_runtime.Waker.Flag
use mini_async_runtime.Waker.Flag.Refines.{set_flag, flag_wakers_safe}
use mini_async_runtime.Waker.Atomic.{wake_by_ref_impl}
use mini_async_runtime.Waker.Atomic
use mini_async_runtime.Waker.Atomic.Refines.{atomic_wakers_safe}
use mini_async_runtime.Waker.Atomic.Owned.{effect, occurrences}

abbrev sum : {D : Type 0} → HashMap D → ℕ
sum [] = 0
sum ((p, d) ∷ boxes) = p + sum boxes

abbrev malloc : {D : Type 0} → HashMap D → ℕ
malloc boxes = suc (sum boxes)

above_free : {D : Type 0} (p : ℕ) (boxes : HashMap D) → sum boxes < p → lookup p boxes ≡ none
unfolding lookup
above_free p [] lt = refl
above_free p ((q, d) ∷ boxes) lt = ground (arith, above_free p boxes)

malloc-fresh : {D : Type 0} (boxes : HashMap D) → lookup (malloc boxes) boxes ≡ none
malloc-fresh boxes = above_free (malloc boxes) boxes (omega arith)

abbrev program : List Call
program = makes 3 ∷ makes 5 ∷ uses 0 clones ∷ uses 1 wakes ∷ uses 1 drops ∷ uses 0 wakes_by_ref ∷ []

task_wakers_safe_example :
    (m : Local.Memory) × (ws : Held) × (calls
        (Local.vtable malloc)
        (record { boxes = []; strong = 1; ready_queue = ReadyQueue.new })
        []
        program
      ≡ some (m, ws))
    × ((m.ready_queue, ids ws) ≡ simple_calls push ReadyQueue.new [] program)
    × ((p : ℕ) → task_of Local.WakerData.task_id (lookup p m.boxes) ≡ lookup p ws)
    × (m.strong ≡ 1 + length ws)
task_wakers_safe_example = task_wakers_safe malloc malloc-fresh 0 ReadyQueue.new program

flag_wakers_safe_example :
    (m : Flag.Memory) × (ws : Held) × (calls Flag.vtable
        (record { address = 7; strong = 1; flag = false })
        []
        program
      ≡ some (m, ws))
    × ((m.flag, ids ws) ≡ simple_calls set_flag false [] program)
    × (m.strong ≡ 1 + length ws)
flag_wakers_safe_example = flag_wakers_safe 0 7 program

atomic_wakers_safe_example :
    (m : Atomic.Memory) × (ws : Held) × (calls
        (Atomic.vtable malloc)
        (record {
          boxes = [];
          state_strong = λ id. 1;
          shared_strong = 1;
          phase = λ id. idle;
          ready_queue = AtomicQueue.new;
        })
        []
        program
      ≡ some (m, ws))
    × ((effect m, ids ws)
        ≡ simple_calls wake_by_ref_impl ((λ id. idle), AtomicQueue.new) [] program)
    × ((p : ℕ) → task_of Atomic.WakerData.task_id (lookup p m.boxes) ≡ lookup p ws)
    × ((id : ℕ) → m.state_strong id ≡ 1 + occurrences id (ids ws))
    × (m.shared_strong ≡ 1 + length ws)
atomic_wakers_safe_example =
    atomic_wakers_safe malloc malloc-fresh (λ id. 0) 0 (λ id. idle) AtomicQueue.new program

-- Task 5 is woken twice, and one of its wakers is left.
simple_program :
    simple_calls push ReadyQueue.new [] program ≡ (record { queue = 5 ∷ []; set = 5 ∷ [] }, 5 ∷ [])
unfolding simple_calls take_at push ReadyQueue.new
simple_program = refl
