-- ===== src/Timer/Process.antt =====
-- src/timer.rs, `TimerWheel::process`: its loop against a description by filtering.
use mini_async_runtime.Base.{
  ℕ, ◌-◌, ◌<◌, ◌≡◌, ◌≢◌, refl, ap, ◌∙◌, true, false, Option, none, some, List, [], ◌∷◌, ◌++◌,
  to_list, leb, if◌then◌else◌, arith, contains, is_nodup, append-nil, append_assoc, Bool-cases, inl,
  inr,
}
use mini_async_runtime.Timer.{TimerEntry, TimerState, fire, process_heap}
use mini_async_runtime.Timer.Sorted.{Above, refs}

-- The entries whose deadline is at most `now`, and the others.
unfoldable pub expired : ℕ → List TimerEntry → List TimerEntry
expired now [] = []
expired now (e ∷ h) = if leb e.deadline now then e ∷ expired now h else expired now h

unfoldable pub remaining : ℕ → List TimerEntry → List TimerEntry
remaining now [] = []
remaining now (e ∷ h) = if leb e.deadline now then remaining now h else e ∷ remaining now h

abbrev pub until_next : ℕ → List TimerEntry → Option ℕ
until_next now [] = none
until_next now (e ∷ h) = some (e.deadline - now)

remaining-Above_late :
    (now d : ℕ) (h : List TimerEntry)
    → now < d
    → Above d h
    → (remaining now h ≡ h) × (expired now h ≡ [])
unfolding remaining expired
remaining-Above_late now d [] lt a = (refl, refl)
remaining-Above_late now d (e ∷ h) lt a = ground (arith, remaining-Above_late now e.deadline h)

refs-expired :
    (now r : ℕ) (h : List TimerEntry)
    → contains r (refs h) ≡ false
    → contains r (refs (expired now h)) ≡ false
unfolding expired
refs-expired now r [] f = refl
refs-expired now r (e ∷ h) f = ground (arith, refs-expired now r h)

module _ {W : Type 0} where
  -- The wakers stored in the cells of a list of entries.
  unfoldable pub stored : (ℕ → TimerState W) → List TimerEntry → List W
  stored cells [] = []
  stored cells (e ∷ h) = to_list (cells e.state).waker ++ stored cells h

  abbrev pub after_fire : (ℕ → TimerState W) → List TimerEntry → ℕ → TimerState W
  after_fire cells fired r =
      if contains r (refs fired) then record { completed = true; waker = none } else cells r

  stored-agree :
      (c d : ℕ → TimerState W) (r : ℕ) (h : List TimerEntry)
      → contains r (refs h) ≡ false
      → ((q : ℕ) → q ≢ r → c q ≡ d q)
      → stored c h ≡ stored d h
  unfolding stored
  stored-agree c d r [] f same = refl
  stored-agree c d r (e ∷ h) f same = ground (arith, same e.state, stored-agree c d r h)

  pub record Processed (now : ℕ) (h : List TimerEntry) (cells : ℕ → TimerState W) (woken : List W)
      : Type 0 where
    pub kept : (process_heap now h cells woken).state.0 ≡ remaining now h
    pub fired :
        (r : ℕ) → (process_heap now h cells woken).state.1 r ≡ after_fire cells (expired now h) r
    pub next : (process_heap now h cells woken).result ≡ until_next now (remaining now h)
    pub wakes : (process_heap now h cells woken).woken ≡ woken ++ stored cells (expired now h)

  fire-ne : (cells : ℕ → TimerState W) (r q : ℕ) → q ≢ r → fire cells r q ≡ cells q
  unfolding fire
  fire-ne cells r q ne = ground arith

  fire-after_fire :
      (cells : ℕ → TimerState W) (e : TimerEntry) (h : List TimerEntry) (r : ℕ)
      → after_fire (fire cells e.state) h r ≡ after_fire cells (e ∷ h) r
  unfolding fire
  fire-after_fire cells e h r = ground arith

  pub process_heap_lem :
      (now d : ℕ) (h : List TimerEntry) (cells : ℕ → TimerState W) (woken : List W)
      → Above d h
      → is_nodup (refs h) ≡ true
      → Processed now h cells woken
  unfolding process_heap remaining expired stored
  process_heap_lem now d [] cells woken a n = record {
    kept = refl;
    fired = λ r. refl;
    next = refl;
    wakes = simp append-nil;
  }
  process_heap_lem now d (e ∷ h) cells woken a n = elim (Bool-cases (leb e.deadline now)) [
    | inl due ↦
        let w = to_list (cells e.state).waker in
        let ih =
          process_heap_lem now e.deadline h (fire cells e.state) (woken ++ w) a.1 (ground arith) in
        let same =
          stored-agree (fire cells e.state) cells e.state (expired now h)
            (refs-expired now e.state h (ground arith)) (fire-ne cells e.state) in
        record {
          kept = rw due ih.kept;
          fired = λ r. rw due (ih.fired r ∙ fire-after_fire cells e (expired now h) r);
          next = rw due ih.next;
          wakes = rw due (
              ih.wakes
              ∙ append_assoc woken w (stored (fire cells e.state) (expired now h))
              ∙ ap (λ l. woken ++ (w ++ l)) same);
        }
    | inr early ↦
        let (all, rest) = remaining-Above_late now e.deadline h (ground arith) a.1 in
        record {
          kept = rw (early, all);
          fired = λ r. rw (early, rest);
          next = rw early;
          wakes = rw (early, rest) (simp append-nil);
        }
  ]
