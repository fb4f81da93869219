-- ===== src/MultiThread/TimerWheel/Refines.antt =====
-- src/multi_thread/timer.rs, against src/timer.rs: the wheel with an inbox and the one without.
use mini_async_runtime.Base.{◌≡◌, refl, false, not, ◌||◌, List, [], ◌∷◌, ◌++◌, is_nil, arith}
use mini_async_runtime.Timer
use mini_async_runtime.Timer.{TimerEntry, TimerState, heap_push, process_heap, cmp}
use mini_async_runtime.MultiThread.TimerWheel.{TimerWheel, extend}

extend-append : (heap xs ys : List TimerEntry) → extend heap (xs ++ ys) ≡ extend (extend heap xs) ys
unfolding extend
extend-append heap [] ys = refl
extend-append heap (x ∷ xs) ys = extend-append (heap_push x heap) xs ys

heap_push-filled : (e : TimerEntry) (heap : List TimerEntry) → is_nil (heap_push e heap) ≡ false
unfolding heap_push
heap_push-filled e [] = refl
heap_push-filled e (x ∷ heap) = ground arith

pub extend-filled :
    (heap entries : List TimerEntry)
    → not (is_nil (extend heap entries)) ≡ (not (is_nil heap) || not (is_nil entries))
unfolding extend
extend-filled heap [] = ground arith
extend-filled heap (e ∷ entries) =
    ground (arith, extend-filled (heap_push e heap) entries, heap_push-filled e heap)

-- With the inbox put into the heap.
unfoldable pub flush : {W : Type 0} → TimerWheel W → Timer.TimerWheel W
flush wheel = record {
  heap = extend wheel.heap wheel.inbox;
  cells = wheel.cells;
  next = wheel.next;
}
