-- ===== src/MultiThread/TimerWheel/Heaps/Agreement.antt =====
-- src/multi_thread/timer.rs, against src/timer.rs: the wheel with an inbox and the one without.
use mini_async_runtime.Base.{
  ℕ, suc, ◌<◌, ◌≡◌, refl, sym, ap, ◌∙◌, true, false, not, ◌||◌, List, [], ◌∷◌, ◌++◌, append-nil,
  append_assoc, is_nil, contains, is_nodup, arith, Bool-cases, inl, inr, ==_iff, Permutes, keeps,
  follows, Permutes-refl, Permutes-sym, Permutes-snoc,
}
use mini_async_runtime.Timer
use mini_async_runtime.Timer.{TimerEntry, TimerState, register_in, process_heap}
use mini_async_runtime.Timer.Sorted.{Above, refs}
use mini_async_runtime.Timer.Process.{expired, remaining, process_heap_lem}
use mini_async_runtime.Timer.Refs.{remaining-Above}
use mini_async_runtime.Timer.Shuffled.{
  contains-shuffled, nodup-shuffled, is_nil-shuffled, expired-shuffled, remaining-shuffled,
  until_next-shuffled, stored-shuffled, stored-same,
}
use mini_async_runtime.MultiThread.TimerWheel.{
  TimerWheel, new, register, process_in, poll_sleep, has_pending,
}
use mini_async_runtime.MultiThread.TimerWheel.Heaps.{
  IsHeap, Call, Answer, Calls, SimpleCalls, AgreeAll,
}

remaining-contains :
    (now r : ℕ) (h : List TimerEntry)
    → contains r (refs h) ≡ false
    → contains r (refs (remaining now h)) ≡ false
unfolding remaining
remaining-contains now r [] f = refl
remaining-contains now r (e ∷ h) f = ground (arith, remaining-contains now r h)

remaining-distinct :
    (now : ℕ) (h : List TimerEntry)
    → is_nodup (refs h) ≡ true
    → is_nodup (refs (remaining now h)) ≡ true
unfolding remaining
remaining-distinct now [] n = refl
remaining-distinct now (e ∷ h) n =
    ground (arith, remaining-distinct now h, remaining-contains now e.state h)

is_nil-append : (h k : List TimerEntry) → not (is_nil (h ++ k)) ≡ (not (is_nil h) || not (is_nil k))
is_nil-append [] k = refl
is_nil-append (e ∷ h) k = refl

module _ {W : Type 0} where
  -- The two wheels have the same timers, each once, and the same cells.
  record Same (wheel : TimerWheel W) (simple : Timer.TimerWheel W) : Type 0 where
    next : simple.next ≡ wheel.next
    cells : (q : ℕ) → simple.cells q ≡ wheel.cells q
    timers : Permutes simple.heap (wheel.heap ++ wheel.inbox)
    sorted : Above 0 simple.heap
    distinct : is_nodup (refs simple.heap) ≡ true
    below : (q : ℕ) → contains q (refs simple.heap) ≡ true → q < simple.next

  register-Same :
      (wheel : TimerWheel W) (simple : Timer.TimerWheel W) (heap : List TimerEntry) (deadline : ℕ)
      → Same wheel simple
      → IsHeap heap (record { deadline = deadline; state = simple.next } ∷ simple.heap)
      → Same (register wheel deadline).0 (register_in simple heap).0
  unfolding register
  register-Same wheel simple heap deadline v (sorted, timers) =
      let e : TimerEntry = record { deadline = deadline; state = simple.next } in
      let e' : TimerEntry = record { deadline = deadline; state = wheel.next } in
      let fresh : contains simple.next (refs simple.heap) ≡ false =
        ground (arith, v.below simple.next) in
      record {
        next = ap suc v.next;
        cells = λ q. ground (arith, v.cells q, v.next);
        timers =
            rw (sym (append_assoc wheel.heap wheel.inbox (e' ∷ [])), sym v.next)
              (follows timers
                (follows (keeps e v.timers) (Permutes-snoc e (wheel.heap ++ wheel.inbox))));
        sorted = sorted;
        distinct = nodup-shuffled (Permutes-sym timers) (ground (arith, v.distinct, fresh));
        below = λ q h. ground (arith, contains-shuffled timers q, v.below q, ==_iff q simple.next);
      }

  processed_lem :
      (wheel : TimerWheel W) (simple : Timer.TimerWheel W) (heap : List TimerEntry) (now : ℕ)
      → Same wheel simple
      → IsHeap heap (wheel.heap ++ wheel.inbox)
      → Same (process_in wheel heap now).state (Timer.process simple now).state
        × ((process_in wheel heap now).result ≡ (Timer.process simple now).result)
        × Permutes (process_in wheel heap now).woken (Timer.process simple now).woken
  unfolding Timer.process
  processed_lem wheel simple heap now v (sorted, timers) =
      let p = follows timers (Permutes-sym v.timers) in
      let distinct = nodup-shuffled (Permutes-sym p) v.distinct in
      let m = process_heap_lem now 0 heap wheel.cells [] sorted distinct in
      let s = process_heap_lem now 0 simple.heap simple.cells [] v.sorted v.distinct in
      let left = remaining-shuffled now p in
      (
        record {
          next = v.next;
          cells = λ q.
              let same = contains-shuffled (expired-shuffled now p) q in
              ground (arith, m.fired q, s.fired q, same, v.cells q);
          timers = rw (s.kept, m.kept, append-nil (remaining now heap)) (Permutes-sym left);
          sorted = rw s.kept (remaining-Above now 0 simple.heap v.sorted);
          distinct = rw s.kept (remaining-distinct now simple.heap v.distinct);
          below = λ q h. elim (Bool-cases (contains q (refs simple.heap))) [
            | inl there ↦ v.below q there
            | inr gone ↦
                absurd (ground (arith, rw s.kept at h, remaining-contains now q simple.heap))
          ];
        },
        m.next
            ∙ until_next-shuffled now (remaining now heap) (remaining now simple.heap) left
                (remaining-Above now 0 heap sorted) (remaining-Above now 0 simple.heap v.sorted)
            ∙ sym s.next,
        rw
            (
              m.wakes,
              s.wakes,
              stored-same simple.cells wheel.cells (expired now simple.heap) v.cells,
            )
            (stored-shuffled wheel.cells (expired-shuffled now p)),
      )

  poll_sleep-Same :
      (wheel : TimerWheel W) (simple : Timer.TimerWheel W) (r : ℕ) (waker : W)
      → Same wheel simple
      → Same (poll_sleep wheel r waker).0 (Timer.poll_sleep simple r waker).0
        × ((poll_sleep wheel r waker).1 ≡ (Timer.poll_sleep simple r waker).1)
  unfolding poll_sleep Timer.poll_sleep
  poll_sleep-Same wheel simple r waker v = elim (Bool-cases (wheel.cells r).completed) [
    | inl done ↦ rw (v.cells r, done) (v, refl)
    | inr waits ↦
        rw (v.cells r, waits, (==_iff r r).1 refl)
          (
            record {
              next = v.next;
              cells = λ q. ground (arith, v.cells q);
              timers = v.timers;
              sorted = v.sorted;
              distinct = v.distinct;
              below = v.below;
            },
            refl,
          )
  ]

  has_pending-Same :
      (wheel : TimerWheel W) (simple : Timer.TimerWheel W)
      → Same wheel simple
      → has_pending wheel ≡ Timer.has_pending simple
  unfolding has_pending Timer.has_pending
  has_pending-Same wheel simple v =
      sym (is_nil-append wheel.heap wheel.inbox) ∙ sym (ap not (is_nil-shuffled v.timers))

  calls-agree :
      (wheel : TimerWheel W) (simple : Timer.TimerWheel W) {cs : List (Call W)}
      {xs ys : List (Answer W)}
      → Same wheel simple
      → Calls wheel cs xs
      → SimpleCalls simple cs ys
      → AgreeAll xs ys
  unfolding register
  calls-agree wheel simple v Calls.ends SimpleCalls.ends = tt
  calls-agree wheel simple v (Calls.registered d m) (SimpleCalls.registered heap _ is_heap s) = (
    sym v.next,
    calls-agree (register wheel d).0 (register_in simple heap).0
        (register-Same wheel simple heap d v is_heap) m s,
  )
  calls-agree wheel simple v (Calls.processed heap now is_heap m) (SimpleCalls.processed _ s) =
      let (after, next, woken) = processed_lem wheel simple heap now v is_heap in
      (
        (next, woken),
        calls-agree (process_in wheel heap now).state (Timer.process simple now).state after m s,
      )
  calls-agree wheel simple v (Calls.polled r w m) (SimpleCalls.polled _ _ s) =
      let (after, same) = poll_sleep-Same wheel simple r w v in
      (same, calls-agree (poll_sleep wheel r w).0 (Timer.poll_sleep simple r w).0 after m s)
  calls-agree wheel simple v (Calls.asked m) (SimpleCalls.asked s) =
      (has_pending-Same wheel simple v, calls-agree wheel simple v m s)

  -- Two new wheels, one of the multi-threaded runtime and one of the single-threaded, get the same
  -- sequence of calls, and `BinaryHeap` arranges entries with the same deadline in any order at each
  -- call, for each wheel on its own. Then they give the same sleeps, the same durations until the next
  -- deadline, the same results of polls and the same answers about pending timers, and each `process`
  -- calls the same wakers, each as often, in an order of its own.
  pub new-agree :
      (cs : List (Call W)) (xs ys : List (Answer W))
      → Calls new cs xs
      → SimpleCalls Timer.new cs ys
      → AgreeAll xs ys
  unfolding new Timer.new
  new-agree cs xs ys = calls-agree new Timer.new (record {
    next = refl;
    cells = λ q. refl;
    timers = Permutes-refl [];
    sorted = tt;
    distinct = refl;
    below = λ q h. absurd (ground arith);
  })
