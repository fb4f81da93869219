-- ===== src/Timer/Sorted.antt =====
-- src/timer.rs: the order of the heap.
use mini_async_runtime.Base.{
  ℕ, ◌≤◌, ◌≡◌, refl, true, false, ◌||◌, List, [], ◌∷◌, ◌==◌, arith, contains, is_nodup,
}
use mini_async_runtime.Timer.{TimerEntry, heap_push}

-- Deadlines do not fall along the list and none is before `d`.
abbrev pub Above : ℕ → List TimerEntry → Type 0
Above d [] = Unit
Above d (e ∷ h) = (d ≤ e.deadline) × Above e.deadline h

pub Above-mono : (c d : ℕ) (h : List TimerEntry) → c ≤ d → Above d h → Above c h
Above-mono c d [] le a = tt
Above-mono c d (e ∷ h) le a = (omega arith, a.1)

pub heap_push-Above :
    (d : ℕ) (e : TimerEntry) (h : List TimerEntry)
    → d ≤ e.deadline
    → Above d h
    → Above d (heap_push e h)
unfolding heap_push
heap_push-Above d e [] le a = (le, tt)
heap_push-Above d e (x ∷ h) le a = ground (arith, heap_push-Above x.deadline e h)

-- The references of a heap.
abbrev pub refs : List TimerEntry → List ℕ
refs [] = []
refs (e ∷ h) = e.state ∷ refs h

pub contains-heap_push :
    (r : ℕ) (e : TimerEntry) (h : List TimerEntry)
    → contains r (refs (heap_push e h)) ≡ ((r == e.state) || contains r (refs h))
unfolding heap_push
contains-heap_push r e [] = refl
contains-heap_push r e (x ∷ h) = ground (arith, contains-heap_push r e h)

pub heap_push-nodup :
    (e : TimerEntry) (h : List TimerEntry)
    → is_nodup (refs h) ≡ true
    → contains e.state (refs h) ≡ false
    → is_nodup (refs (heap_push e h)) ≡ true
unfolding heap_push
heap_push-nodup e [] n f = refl
heap_push-nodup e (x ∷ h) n f = ground (arith, heap_push-nodup e h, contains-heap_push x.state e h)
