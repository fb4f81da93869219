-- ===== src/Timer/Refs.antt =====
-- src/timer.rs: the timers of a heap, and those that `process` fires and keeps.
use mini_async_runtime.Base.{
  ℕ, ◌≡◌, ◌≢◌, refl, true, false, not, ◌&&◌, List, [], ◌∷◌, leb, arith, contains, is_nodup, All,
}
use mini_async_runtime.Timer.{TimerEntry, heap_push}
use mini_async_runtime.Timer.Sorted.{Above, Above-mono, refs}
use mini_async_runtime.Timer.Process.{expired, remaining}

abbrev pub Accurate : (ℕ → ℕ) → List TimerEntry → Type 0
Accurate dl = All (λ e. e.deadline ≡ dl e.state)

module _ (dl : ℕ → ℕ) (now r : ℕ) where
  pub contains-expired :
      (h : List TimerEntry)
      → Accurate dl h
      → contains r (refs (expired now h)) ≡ (contains r (refs h) && leb (dl r) now)
  unfolding expired
  contains-expired [] a = refl
  contains-expired (e ∷ h) a = ground (arith, contains-expired h a.1)

  pub contains-remaining :
      (h : List TimerEntry)
      → Accurate dl h
      → contains r (refs (remaining now h)) ≡ (contains r (refs h) && not (leb (dl r) now))
  unfolding remaining
  contains-remaining [] a = refl
  contains-remaining (e ∷ h) a = ground (arith, contains-remaining h a.1)

pub remaining-Above : (now d : ℕ) (h : List TimerEntry) → Above d h → Above d (remaining now h)
unfolding remaining
remaining-Above now d [] a = tt
remaining-Above now d (e ∷ h) a =
    ground (arith, remaining-Above now e.deadline h a.1, Above-mono d e.deadline (remaining now h))

pub remaining-nodup :
    (dl : ℕ → ℕ) (now : ℕ) (h : List TimerEntry)
    → Accurate dl h
    → is_nodup (refs h) ≡ true
    → is_nodup (refs (remaining now h)) ≡ true
unfolding remaining
remaining-nodup dl now [] a n = refl
remaining-nodup dl now (e ∷ h) a n =
    ground (arith, remaining-nodup dl now h a.1, contains-remaining dl now e.state h a.1)

pub remaining-Accurate :
    (dl : ℕ → ℕ) (now : ℕ) (h : List TimerEntry) → Accurate dl h → Accurate dl (remaining now h)
unfolding remaining
remaining-Accurate dl now [] a = tt
remaining-Accurate dl now (e ∷ h) a = ground (arith, remaining-Accurate dl now h a.1)

pub heap_push-Accurate :
    (dl : ℕ → ℕ) (e : TimerEntry) (h : List TimerEntry)
    → e.deadline ≡ dl e.state
    → Accurate dl h
    → Accurate dl (heap_push e h)
unfolding heap_push
heap_push-Accurate dl e [] q a = (q, tt)
heap_push-Accurate dl e (x ∷ h) q a = ground (arith, heap_push-Accurate dl e h q a.1)

-- Deadlines given to other references do not matter.
pub Accurate-agree :
    (dl el : ℕ → ℕ) (r : ℕ) (h : List TimerEntry)
    → contains r (refs h) ≡ false
    → ((q : ℕ) → q ≢ r → el q ≡ dl q)
    → Accurate dl h
    → Accurate el h
Accurate-agree dl el r [] f same a = tt
Accurate-agree dl el r (e ∷ h) f same a =
    (ground (arith, same e.state), Accurate-agree dl el r h (ground arith) same a.1)
