-- ===== src/MultiThread/TimerWheel/Heaps/Arrival.antt =====
-- src/multi_thread/timer.rs and src/timer.rs: heaps with equal entries in the order of their arrival are
-- among those that `BinaryHeap` may choose, so every sequence of calls has a run.
use mini_async_runtime.Base.{
  ℕ, sym, subst, List, [], ◌∷◌, ◌++◌, append-nil, append_assoc, arith, Permutes, keeps, swaps,
  follows, none_left, Permutes-refl, Permutes-snoc, leb, Bool-cases, inl, inr,
}
use Prim.Native.Nat.{Ordering}
use mini_async_runtime.Timer
use mini_async_runtime.Timer.{TimerEntry, TimerState, heap_push, cmp, process_heap, register_in}
use mini_async_runtime.Timer.Sorted.{Above, Above-mono, heap_push-Above}
use mini_async_runtime.MultiThread.TimerWheel.{TimerWheel, extend, register, process_in, poll_sleep}
use mini_async_runtime.MultiThread.TimerWheel.Heaps.{
  IsHeap, Call, registers, processes, sleeps, asks, Answer, Calls, SimpleCalls,
}

appended :
    {h k : List TimerEntry} → Permutes h k → (l : List TimerEntry) → Permutes (h ++ l) (k ++ l)
appended none_left l = Permutes-refl l
appended (keeps x p) l = keeps x (appended p l)
appended (swaps x y h) l = swaps x y (h ++ l)
appended (follows p q) l = follows (appended p l) (appended q l)

placed :
    (o : Ordering) (e x : TimerEntry) (h rest : List TimerEntry)
    → Permutes rest (e ∷ h)
    → Permutes (elim o [ Ordering.gt ↦ e ∷ x ∷ h | _ ↦ x ∷ rest ]) (e ∷ x ∷ h)
placed Ordering.gt e x h rest p = Permutes-refl (e ∷ x ∷ h)
placed Ordering.lt e x h rest p = follows (keeps x p) (swaps x e h)
placed Ordering.eq e x h rest p = follows (keeps x p) (swaps x e h)

heap_push-Permutes : (e : TimerEntry) (h : List TimerEntry) → Permutes (heap_push e h) (e ∷ h)
unfolding heap_push
heap_push-Permutes e [] = Permutes-refl (e ∷ [])
heap_push-Permutes e (x ∷ h) = placed (cmp e x) e x h (heap_push e h) (heap_push-Permutes e h)

pub heap_push-IsHeap :
    (e : TimerEntry) (h : List TimerEntry) → Above 0 h → IsHeap (heap_push e h) (e ∷ h)
heap_push-IsHeap e h sorted = (heap_push-Above 0 e h (omega arith) sorted, heap_push-Permutes e h)

extend-Permutes : (h entries : List TimerEntry) → Permutes (extend h entries) (h ++ entries)
unfolding extend
extend-Permutes h [] = subst (Permutes h) (sym (append-nil h)) (Permutes-refl h)
extend-Permutes h (e ∷ entries) = follows (extend-Permutes (heap_push e h) entries) (
    follows (appended (heap_push-Permutes e h) entries) (
      subst (Permutes (e ∷ h ++ entries)) (append_assoc h (e ∷ []) entries)
        (appended (Permutes-snoc e h) entries)))

extend-Above : (h entries : List TimerEntry) → Above 0 h → Above 0 (extend h entries)
unfolding extend
extend-Above h [] a = a
extend-Above h (e ∷ entries) a =
    extend-Above (heap_push e h) entries (heap_push-Above 0 e h (omega arith) a)

pub extend-IsHeap :
    (h entries : List TimerEntry) → Above 0 h → IsHeap (extend h entries) (h ++ entries)
extend-IsHeap h entries sorted = (extend-Above h entries sorted, extend-Permutes h entries)

process_heap-Above :
    {W : Type 0} (now d : ℕ) (h : List TimerEntry) (cells : ℕ → TimerState W) (woken : List W)
    → Above d h
    → Above d (process_heap now h cells woken).state.0
unfolding process_heap
process_heap-Above now d [] cells woken a = tt
process_heap-Above now d (e ∷ h) cells woken a = elim (Bool-cases (leb e.deadline now)) [
  | inl due ↦ rw due (Above-mono d e.deadline _ a.0 (process_heap-Above now e.deadline h _ _ a.1))
  | inr early ↦ rw early a
]

module _ {W : Type 0} where
  pub Calls-exist :
      (cs : List (Call W)) (wheel : TimerWheel W)
      → Above 0 wheel.heap
      → (xs : List (Answer W)) × Calls wheel cs xs
  unfolding register poll_sleep
  Calls-exist [] wheel a = ([], Calls.ends)
  Calls-exist (registers deadline ∷ cs) wheel a =
      let (xs, run) = Calls-exist cs (register wheel deadline).0 a in
      (_, Calls.registered deadline run)
  Calls-exist (processes now ∷ cs) wheel a =
      let is_heap = extend-IsHeap wheel.heap wheel.inbox a in
      let heap = extend wheel.heap wheel.inbox in
      let (xs, run) =
        Calls-exist cs (process_in wheel heap now).state
          (process_heap-Above now 0 heap wheel.cells [] is_heap.0) in
      (_, Calls.processed heap now is_heap run)
  Calls-exist (sleeps r waker ∷ cs) wheel a =
      let (xs, run) = Calls-exist cs (poll_sleep wheel r waker).0 (ground arith) in
      (_, Calls.polled r waker run)
  Calls-exist (asks ∷ cs) wheel a = let (xs, run) = Calls-exist cs wheel a in (_, Calls.asked run)

  pub SimpleCalls-exist :
      (cs : List (Call W)) (wheel : Timer.TimerWheel W)
      → Above 0 wheel.heap
      → (xs : List (Answer W)) × SimpleCalls wheel cs xs
  unfolding Timer.process Timer.poll_sleep
  SimpleCalls-exist [] wheel a = ([], SimpleCalls.ends)
  SimpleCalls-exist (registers deadline ∷ cs) wheel a =
      let e : TimerEntry = record { deadline = deadline; state = wheel.next } in
      let is_heap = heap_push-IsHeap e wheel.heap a in
      let (xs, run) =
        SimpleCalls-exist cs (register_in wheel (heap_push e wheel.heap)).0 is_heap.0 in
      (_, SimpleCalls.registered (heap_push e wheel.heap) deadline is_heap run)
  SimpleCalls-exist (processes now ∷ cs) wheel a =
      let (xs, run) =
        SimpleCalls-exist cs (Timer.process wheel now).state
          (process_heap-Above now 0 wheel.heap wheel.cells [] a) in
      (_, SimpleCalls.processed now run)
  SimpleCalls-exist (sleeps r waker ∷ cs) wheel a =
      let (xs, run) = SimpleCalls-exist cs (Timer.poll_sleep wheel r waker).0 (ground arith) in
      (_, SimpleCalls.polled r waker run)
  SimpleCalls-exist (asks ∷ cs) wheel a =
      let (xs, run) = SimpleCalls-exist cs wheel a in (_, SimpleCalls.asked run)
