-- ===== src/MultiThread/TimerWheel/Heaps.antt =====
-- src/multi_thread/timer.rs and src/timer.rs: the calls on a wheel, with any order of equal entries that
-- `BinaryHeap` may choose at each call.
pub mod Agreement
pub mod Arrival
use mini_async_runtime.Base.{ℕ, ◌≡◌, Bool, Option, List, [], ◌∷◌, ◌++◌, Poll, Permutes}
use mini_async_runtime.Timer
use mini_async_runtime.Timer.{TimerEntry, register_in}
use mini_async_runtime.Timer.Sorted.{Above}
use mini_async_runtime.MultiThread.TimerWheel.{
  TimerWheel, register, process_in, poll_sleep, has_pending,
}

-- A heap of the entries, as the list in which calls of `pop` would give them: by deadline, and those
-- with the same one in any order.
abbrev pub IsHeap : (heap entries : List TimerEntry) → Type 0
IsHeap heap entries = Above 0 heap × Permutes heap entries

-- The calls on a wheel, and what they give back.
pub data Call (W : Type 0) : Type 0 where
  registers : (deadline : ℕ) → Call W
  processes : (now : ℕ) → Call W
  sleeps : (r : ℕ) (waker : W) → Call W
  asks : Call W

pub data Answer (W : Type 0) : Type 0 where
  sleep : (r : ℕ) → Answer W
  fired : (next : Option ℕ) (woken : List W) → Answer W
  slept : Poll (Unit {0}) → Answer W
  is_pending : Bool → Answer W

-- Calls one after the other, with the heap that each `extend` leaves.
pub data Calls {W : Type 0} : TimerWheel W → List (Call W) → List (Answer W) → Type 0 where
  ends : {wheel : TimerWheel W} → Calls wheel [] []
  registered :
      {wheel : TimerWheel W} {cs : List (Call W)} {xs : List (Answer W)} (deadline : ℕ)
      → Calls (register wheel deadline).0 cs xs
      → Calls wheel (registers deadline ∷ cs) (sleep (register wheel deadline).1 ∷ xs)
  processed :
      {wheel : TimerWheel W} {cs : List (Call W)} {xs : List (Answer W)} (heap : List TimerEntry)
      (now : ℕ)
      → IsHeap heap (wheel.heap ++ wheel.inbox)
      → Calls (process_in wheel heap now).state cs xs
      → Calls wheel
          (processes now ∷ cs)
          (fired (process_in wheel heap now).result (process_in wheel heap now).woken ∷ xs)
  polled :
      {wheel : TimerWheel W} {cs : List (Call W)} {xs : List (Answer W)} (r : ℕ) (waker : W)
      → Calls (poll_sleep wheel r waker).0 cs xs
      → Calls wheel (sleeps r waker ∷ cs) (slept (poll_sleep wheel r waker).1 ∷ xs)
  asked :
      {wheel : TimerWheel W} {cs : List (Call W)} {xs : List (Answer W)}
      → Calls wheel cs xs
      → Calls wheel (asks ∷ cs) (is_pending (has_pending wheel) ∷ xs)

-- The same calls on the wheel of src/timer.rs, with the heap that each `push` leaves.
pub data SimpleCalls {W : Type 0}
    : Timer.TimerWheel W → List (Call W) → List (Answer W) → Type 0 where
  ends : {wheel : Timer.TimerWheel W} → SimpleCalls wheel [] []
  registered :
      {wheel : Timer.TimerWheel W} {cs : List (Call W)} {xs : List (Answer W)}
      (heap : List TimerEntry) (deadline : ℕ)
      → IsHeap heap (record { deadline = deadline; state = wheel.next } ∷ wheel.heap)
      → SimpleCalls (register_in wheel heap).0 cs xs
      → SimpleCalls wheel (registers deadline ∷ cs) (sleep (register_in wheel heap).1 ∷ xs)
  processed :
      {wheel : Timer.TimerWheel W} {cs : List (Call W)} {xs : List (Answer W)} (now : ℕ)
      → SimpleCalls (Timer.process wheel now).state cs xs
      → SimpleCalls wheel
          (processes now ∷ cs)
          (fired (Timer.process wheel now).result (Timer.process wheel now).woken ∷ xs)
  polled :
      {wheel : Timer.TimerWheel W} {cs : List (Call W)} {xs : List (Answer W)} (r : ℕ) (waker : W)
      → SimpleCalls (Timer.poll_sleep wheel r waker).0 cs xs
      → SimpleCalls wheel (sleeps r waker ∷ cs) (slept (Timer.poll_sleep wheel r waker).1 ∷ xs)
  asked :
      {wheel : Timer.TimerWheel W} {cs : List (Call W)} {xs : List (Answer W)}
      → SimpleCalls wheel cs xs
      → SimpleCalls wheel (asks ∷ cs) (is_pending (Timer.has_pending wheel) ∷ xs)

-- The same answer, but for the order in which wakers are called.
abbrev pub Agrees : {W : Type 0} → Answer W → Answer W → Type 0
Agrees (sleep r) (sleep q) = r ≡ q
Agrees (fired next woken) (fired next' woken') = (next ≡ next') × Permutes woken woken'
Agrees (slept p) (slept q) = p ≡ q
Agrees (is_pending b) (is_pending c) = b ≡ c
Agrees _ _ = ⊥

abbrev pub AgreeAll : {W : Type 0} → List (Answer W) → List (Answer W) → Type 0
AgreeAll [] [] = Unit
AgreeAll (a ∷ xs) (b ∷ ys) = Agrees a b × AgreeAll xs ys
AgreeAll _ _ = ⊥
